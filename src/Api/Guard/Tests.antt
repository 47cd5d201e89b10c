-- ===== src/Api/Guard/Tests.antt =====
-- Runs of household.guard.ts.
use nestai.Prelude.{◌≡◌, refl, [], ◌∷◌, none, some}
use nestai.Prelude.Results.{ok, throw, unauthorized}
use nestai.Api.Guard.{missing, single, several, can_activate}

trims :
    can_activate (record { header = none; headers = several (" h-1 " ∷ "h-2" ∷ []) })
    ≡ ok (some "h-1")
unfolding can_activate
trims = refl

blank_is_refused :
    can_activate (record { header = some "  "; headers = single "h-1" }) ≡ throw unauthorized
unfolding can_activate
blank_is_refused = refl

none_is_refused : can_activate (record { header = none; headers = missing }) ≡ throw unauthorized
unfolding can_activate
none_is_refused = refl
