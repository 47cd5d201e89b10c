-- ===== src/Api/Table/Fresh.antt =====
-- Ids for a table that is a list of rows: a text that is longer than every id in it.
use nestai.Prelude.{
  ℕ, zero, suc, find, ap, ◌+◌, ◌<◌, ◌≡◌, refl, inl, inr, List, [], ◌∷◌, String, none, arith, str_eq,
  eq_iff, Bool-cases,
}
use nestai.Api.Table.Rows.{list_table}

abbrev size : String → ℕ
size String.[] = 0
size (String.◌∷◌ c s) = suc (size s)

abbrev padding : ℕ → String
padding zero = String.[]
padding (suc n) = String.◌∷◌ "x" (padding n)

size-padding : (n : ℕ) → size (padding n) ≡ n
size-padding zero = refl
size-padding (suc n) = rw (size-padding n) refl

module _ {Row : Type 0} (id_of : Row → String) where
  abbrev total_size : List Row → ℕ
  total_size [] = 0
  total_size (r ∷ rs) = size (id_of r) + total_size rs

  find_row-longer :
      (k : String) (rows : List Row)
      → total_size rows < size k
      → find (λ r. str_eq (id_of r) k) rows ≡ none
  find_row-longer k [] longer = refl
  find_row-longer k (r ∷ rs) longer = elim (Bool-cases (str_eq (id_of r) k)) [
    | inl e ↦ ground (arith, e, longer, ap size ((eq_iff (id_of r) k).0 e))
    | inr e ↦ rw e (find_row-longer k rs (omega arith))
  ]

  abbrev pub draw_id : List Row → String
  draw_id rows = padding (suc (total_size rows))

  pub draw_id-fresh : (rows : List Row) → (list_table id_of).find_unique (draw_id rows) rows ≡ none
  draw_id-fresh rows =
      find_row-longer (draw_id rows) rows (rw (size-padding (suc (total_size rows))) (omega arith))
