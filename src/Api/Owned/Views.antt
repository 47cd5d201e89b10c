-- ===== src/Api/Owned/Views.antt =====
-- What the rows of one household look like, and that the writes of another do not change it.
use nestai.Prelude.{
  ◌≡◌, refl, inl, inr, false, String, Option, some, arith, str_eq, eq_iff, Bool-cases, Option-cases,
}
use nestai.Prelude.Results.{ok}
use nestai.Api.Table.{Table, keep_row}
use nestai.Api.Owned.{owned_row, insert_row, create_own, update_own, delete_own}

module _ {Row : Type 0} {id_of : Row → String} (table : Table Row id_of)
    (household_of : Row → String) (g : String) where
  -- The row of an id, if it is of household `g`.
  abbrev pub view : String → table.Rows → Option Row
  view k rows = keep_row (λ r. str_eq (household_of r) g) (table.find_unique k rows)

  module _ (h : String) (other : str_eq h g ≡ false) (rows : table.Rows) where
    pub insert_row-view :
        (row : Row) (k : String)
        → household_of row ≡ h
        → view k (insert_row table row rows).0 ≡ view k rows
    insert_row-view row k of_h = elim (Option-cases (table.find_unique (id_of row) rows)) [
      | inr (taken, found) ↦ ground (arith, found)
      | inl fresh ↦ ground (
        arith,
        fresh,
        other,
        of_h,
        table.find_unique-create k row rows fresh,
        eq_iff (id_of row) k,
        eq_iff h g,
        eq_iff (household_of row) g,
      )
    ]

    -- A row that is found and owned is of the request's household.
    owned_row-find :
        (id : String) (row : Row)
        → owned_row table household_of (some h) id rows ≡ ok row
        → (table.find_unique id rows ≡ some row) × (household_of row ≡ h)
    owned_row-find id row e = elim (Option-cases (table.find_unique id rows)) [
      | inr (x, found) ↦ ground (arith, found, e, eq_iff (household_of x) h)
      | inl missing ↦ ground (arith, missing, e)
    ]

    pub update_own-view :
        (id k : String) (f : Row → Row)
        → ((x : Row) → id_of (f x) ≡ id_of x)
        → ((x : Row) → household_of (f x) ≡ household_of x)
        → view k (update_own table household_of (some h) id f rows).0 ≡ view k rows
    update_own-view id k f keeps_id keeps_household =
        elim (Option-cases (table.find_unique id rows)) [
          | inl missing ↦ ground (arith, missing)
          | inr (row, found) ↦ ground (
            arith,
            found,
            other,
            table.find_unique-update k id f rows row keeps_id found,
            eq_iff (household_of row) h,
            eq_iff (household_of row) g,
            eq_iff h g,
            keeps_household row,
            eq_iff id k,
          )
        ]

    pub delete_own-view :
        (id k : String) → view k (delete_own table household_of (some h) id rows).0 ≡ view k rows
    delete_own-view id k = elim (Option-cases (table.find_unique id rows)) [
      | inl missing ↦ ground (arith, missing)
      | inr (row, found) ↦ elim (Option-cases (table.find_unique k rows)) [
        | inl absent ↦
            ground (
              arith,
              found,
              absent,
              table.find_unique-delete_many k (λ r. str_eq (id_of r) id) rows,
            )
        | inr (x, found_k) ↦ ground (
          arith,
          found,
          found_k,
          other,
          table.find_unique_id k rows x found_k,
          table.find_unique-delete_many k (λ r. str_eq (id_of r) id) rows,
          eq_iff (household_of row) h,
          eq_iff (household_of row) g,
          eq_iff h g,
          eq_iff (id_of x) id,
        )
      ]
    ]

    pub create_own-view :
        (make : String → Row) (k : String)
        → ((household : String) → household_of (make household) ≡ household)
        → view k (create_own table (some h) make rows).0 ≡ view k rows
    create_own-view make k of_its = elim (Bool-cases (str_eq h "")) [
      | inl empty ↦ rw empty refl
      | inr set ↦ rw set (insert_row-view (make h) k (of_its h))
    ]
