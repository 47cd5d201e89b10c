-- ===== src/Api/Owned/Writes.antt =====
-- What the writes of one household do to a table, on every branch.
use nestai.Prelude.{
  ◌≡◌, ◌⊎◌, inl, inr, false, String, none, some, arith, str_eq, if◌then◌else◌, Bool-cases,
  Option-cases,
}
use nestai.Prelude.Results.{ok, throw, not_found}
use nestai.Api.Owned.{update_own}
use nestai.Api.Owned.Views.{view}
use nestai.Api.Table.{Table}

module _ {Row : Type 0} {id_of : Row → String} (table : Table Row id_of)
    (household_of : Row → String) (h : String) (id : String) (f : Row → Row)
    (rows : table.Rows) where
  -- The row is not the household's, and nothing is written; or it is replaced, and no other row.
  unfoldable pub IsWritten : Type 0
  IsWritten =
      ((view table household_of h id rows ≡ none)
        × ((update_own table household_of (some h) id f rows).0 ≡ rows)
        × ((update_own table household_of (some h) id f rows).1 ≡ throw not_found))
      ⊎ ((row : Row) × (view table household_of h id rows ≡ some row)
          × ((update_own table household_of (some h) id f rows).1 ≡ ok (f row))
          × ((k : String)
              → table.find_unique k (update_own table household_of (some h) id f rows).0
                ≡ (if str_eq id k then some (f row) else table.find_unique k rows)))

  pub update_own-IsWritten : ((x : Row) → id_of (f x) ≡ id_of x) → str_eq h "" ≡ false → IsWritten
  unfolding IsWritten
  update_own-IsWritten keeps set = elim (Option-cases (table.find_unique id rows)) [
    | inl missing ↦ inl (ground (arith, missing), ground (arith, missing), ground (arith, missing))
    | inr (row, found) ↦ elim (Bool-cases (str_eq (household_of row) h)) [
      | inl own ↦ inr (
        row,
        ground (arith, found, own),
        ground (arith, found, own, set),
        λ k. ground (arith, found, own, set, table.find_unique-update k id f rows row keeps found),
      )
      | inr foreign ↦ inl (
        ground (arith, found, foreign),
        ground (arith, found, set, foreign),
        ground (arith, found, set, foreign),
      )
    ]
  ]
