-- ===== src/Core/Samples.antt =====
-- Test data that the engines' tests share: a collation by code points, and a family.
use Prim.Native.Char.{code}
use nestai.Prelude.{
  ◌+◌, ◌*◌, ◌≡◌, refl, Bool, true, false, String, List, [], ◌∷◌, none, some, arith, ltb, ◌==◌,
  if◌then◌else◌,
}
use nestai.Contracts.Enums.{Role, AvailabilityState}
use nestai.Contracts.Entities.{Member, IsoDateTime}
use nestai.Core.Time.{epoch, minute, day}
use nestai.Core.Locale.{Locale}

abbrev pub code_points_le : String → String → Bool
code_points_le String.[] b = true
code_points_le (String.◌∷◌ c a) String.[] = false
code_points_le (String.◌∷◌ c a) (String.◌∷◌ d b) =
    if code c == code d then code_points_le a b else ltb (code c) (code d)

pub code_points_total : (a b : String) → code_points_le a b ≡ false → code_points_le b a ≡ true
code_points_total String.[] b h = cc
code_points_total (String.◌∷◌ c a) String.[] h = refl
code_points_total (String.◌∷◌ c a) (String.◌∷◌ d b) h = ground (arith, code_points_total a b)

pub code_points_trans :
    (a b c : String)
    → code_points_le a b ≡ true
    → code_points_le b c ≡ true
    → code_points_le a c ≡ true
code_points_trans String.[] b c h k = refl
code_points_trans (String.◌∷◌ x a) String.[] c h k = cc
code_points_trans (String.◌∷◌ x a) (String.◌∷◌ y b) String.[] h k = cc
code_points_trans (String.◌∷◌ x a) (String.◌∷◌ y b) (String.◌∷◌ z c) h k =
    ground (arith, code_points_trans a b c)

abbrev pub code_points : Locale
code_points = record {
  le = code_points_le;
  le_total = code_points_total;
  le_trans = code_points_trans;
}

-- 2026-06-04T12:00:00.000Z, the time of the source's own tests.
abbrev pub noon : IsoDateTime
noon = epoch + 20_608 * day + 720 * minute

abbrev pub adult : String → Bool → Member
adult id drives = record {
  id = id;
  household_id = "h-1";
  display_name = id;
  role = Role.head;
  birth_date = none;
  skills = [];
  driving_privileges = drives;
  home_location = none;
  office_location = none;
  commute_minutes = none;
  availability_state = AvailabilityState.available;
  contact_email = none;
  contact_phone = none;
  messaging_handle = none;
  active = true;
}

abbrev pub dad : Member
dad = record (adult "dad" true) { commute_minutes = some 40 }

abbrev pub mum : Member
mum = record (adult "mum" true) { commute_minutes = some 10; skills = "plumbing" ∷ [] }

abbrev pub kid : Member
kid = record (adult "kid" false) { role = Role.dependent; birth_date = some "2012-01-01" }

abbrev pub family : List Member
family = kid ∷ dad ∷ mum ∷ []
