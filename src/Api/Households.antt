-- ===== src/Api/Households.antt =====
-- services/api/src/modules/household/household.service.ts.
mod Tests
use nestai.Prelude.{
  ◌≡◌, refl, inl, inr, false, String, Option, none, some, arith, str_eq, eq_iff, if◌then◌else◌,
  Bool-cases, Option-cases,
}
use nestai.Prelude.Results.{Fault, Result, ok, throw, Result-cases}
use nestai.Contracts.Entities.{Household}
use nestai.Api.Action.{Action, ◌>>=◌, lift}
use nestai.Api.Database.{TenantContext, household_id}
use nestai.Api.Owned.{found_or_404, update_row}
use nestai.Api.Members.{given}
use nestai.Api.Table.{Table}

pub record UpdateHouseholdInput : Type 0 where
  pub name : Option String
  pub timezone : Option String
  pub digest_time_local : Option String
  pub sunday_checkin_time_local : Option String

abbrev pub changed_household : UpdateHouseholdInput → Household → Household
changed_household input row = record row {
  name = given row.name input.name;
  timezone = given row.timezone input.timezone;
  digest_time_local = given row.digest_time_local input.digest_time_local;
  sunday_checkin_time_local = given row.sunday_checkin_time_local input.sunday_checkin_time_local;
}

module _ (table : Table Household (λ h. h.id)) (tenant : TenantContext) where
  abbrev pub get : Action table.Rows Household
  get = do
    household ← lift (household_id tenant)
    λ rows. (rows, found_or_404 table (table.find_unique household rows))

  abbrev pub update : UpdateHouseholdInput → Action table.Rows Household
  update input = do
    household ← lift (household_id tenant)
    existing ← get
    update_row table household (changed_household input)

module _ (table : Table Household (λ h. h.id)) (h : String) where
  -- An update of household `h` changes no other household.
  pub update-find_unique :
      (input : UpdateHouseholdInput) (k : String) (rows : table.Rows)
      → str_eq h k ≡ false
      → table.find_unique k (update table (some h) input rows).0 ≡ table.find_unique k rows
  update-find_unique input k rows other = elim (Bool-cases (str_eq h "")) [
    | inl empty ↦ rw (empty, update) refl
    | inr set ↦ elim (Option-cases (table.find_unique h rows)) [
      | inl missing ↦ ground (arith, set, missing)
      | inr (row, found) ↦ ground (
        arith,
        set,
        found,
        other,
        table.find_unique-update k h (changed_household input) rows row (λ x. refl) found,
      )
    ]
  ]
