-- ===== src/Api/Owned.antt =====
-- The steps that the services of services/api/src/modules share: the row of an id, which is a 404 when
-- it is missing or another household's, and the writes of the database's client to one table.
pub mod Views
pub mod Writes
pub mod Drawn
use nestai.Prelude.{◌≡◌, refl, Bool, true, false, String, Option, none, some, str_eq, if◌then◌else◌}
use nestai.Prelude.Results.{Fault, Result, ok, throw}
use nestai.Api.Action.{Action, ◌>>=◌, return, fail, lift}
use nestai.Api.Database.{TenantContext, household_id, assert_owned}
use nestai.Api.Table.{Table}

module _ {Row : Type 0} {id_of : Row → String} (table : Table Row id_of) where
  abbrev pub found_or_404 : Option Row → Result Row
  found_or_404 none = throw Fault.not_found
  found_or_404 (some row) = ok row

  abbrev pub owned_row : (Row → String) → TenantContext → String → table.Rows → Result Row
  owned_row household_of tenant id rows =
      elim (assert_owned tenant household_of (table.find_unique id rows)) [
        | throw fault ↦ throw fault
        | ok row ↦ found_or_404 row
      ]

  -- A row that is found and owned.
  abbrev pub get_row : (Row → String) → TenantContext → String → Action table.Rows Row
  get_row household_of tenant id rows = (rows, owned_row household_of tenant id rows)

  -- `create` of a row with an id that the database draws: `make` takes the id.
  abbrev pub insert_row : Row → Action table.Rows Row
  insert_row row rows = elim (table.find_unique (id_of row) rows) [
    | some other ↦ (rows, throw Fault.id_taken)
    | none ↦ (table.create row rows, ok row)
  ]

  pub insert_row-fresh :
      (row : Row) (rows : table.Rows)
      → table.find_unique (id_of row) rows ≡ none
      → insert_row row rows ≡ (table.create row rows, ok row)
  insert_row-fresh row rows fresh = rw (fresh, insert_row) refl

  abbrev pub update_row : String → (Row → Row) → Action table.Rows Row
  update_row id f rows = elim (table.find_unique id rows) [
    | none ↦ (rows, throw Fault.record_missing)
    | some row ↦ (table.update id f rows, ok (f row))
  ]

  abbrev pub delete_row : String → Action table.Rows Row
  delete_row id rows = elim (table.find_unique id rows) [
    | none ↦ (rows, throw Fault.record_missing)
    | some row ↦ (table.delete_many (λ r. str_eq (id_of r) id) rows, ok row)
  ]

  -- `db.data(...)` names the household of the request.
  abbrev pub create_own : TenantContext → (String → Row) → Action table.Rows Row
  create_own tenant make = do household ← lift (household_id tenant); insert_row (make household)

  abbrev pub update_own :
      (Row → String) → TenantContext → String → (Row → Row) → Action table.Rows Row
  update_own household_of tenant id f = do row ← get_row household_of tenant id; update_row id f

  abbrev pub delete_own : (Row → String) → TenantContext → String → Action table.Rows Row
  delete_own household_of tenant id = do row ← get_row household_of tenant id; delete_row id
