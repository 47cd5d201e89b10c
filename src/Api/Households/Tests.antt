-- ===== src/Api/Households/Tests.antt =====
-- A run of household.service.ts.
use nestai.Prelude.{◌≡◌, refl, [], ◌∷◌, none, some}
use nestai.Prelude.Results.{ok}
use nestai.Contracts.Entities.{Household}
use nestai.Api.Table.Rows.{list_table}
use nestai.Api.Households.{update}

abbrev home : Household
home = record {
  id = "h-1";
  name = "home";
  timezone = "Europe/London";
  digest_time_local = "07:00";
  sunday_checkin_time_local = "18:00";
}

renames :
    (update
      (list_table (λ h. h.id))
      (some "h-1")
      (record {
        name = some "our home";
        timezone = none;
        digest_time_local = none;
        sunday_checkin_time_local = none;
      })
      (home ∷ [])).1
    ≡ ok (record home { name = "our home" })
renames = refl
