-- ===== src/Api/Owned/Drawn.antt =====
-- New rows under ids that the database draws: what was found is found again, and the new row too.
use nestai.Prelude.{
  ◌≡◌, ◌⊎◌, refl, sym, ◌∙◌, ap, subst, inl, inr, true, false, String, Option, none, some, str_eq,
  eq_iff, if◌then◌else◌, Bool-cases,
}
use nestai.Api.Table.{Table}

-- What is found is found again, as it was.
abbrev pub Stays : {Row : Type 0} → Option Row → Option Row → Type 0
Stays none after = Unit {0}
Stays (some row) after = after ≡ some row

pub Stays-refl : {Row : Type 0} (found : Option Row) → Stays found found
Stays-refl none = tt
Stays-refl (some row) = refl

pub Stays-trans : {Row : Type 0} (a b c : Option Row) → Stays a b → Stays b c → Stays a c
Stays-trans none b c first second = tt
Stays-trans (some x) b c first second = subst (λ y. Stays y c) first second

module _ {Row : Type 0} {id_of : Row → String} (table : Table Row id_of) (row : Row)
    (rows : table.Rows) (unused : table.find_unique (id_of row) rows ≡ none) where
  pub create-Stays :
      (k : String) → Stays (table.find_unique k rows) (table.find_unique k (table.create row rows))
  create-Stays k =
      subst (Stays (table.find_unique k rows)) (sym (table.find_unique-create k row rows unused))
        (go (table.find_unique k rows) refl (Bool-cases (str_eq (id_of row) k)))
    where
      go :
          (found : Option Row)
          → table.find_unique k rows ≡ found
          → (str_eq (id_of row) k ≡ true) ⊎ (str_eq (id_of row) k ≡ false)
          → Stays found (if str_eq (id_of row) k then some row else found)
      go none e test = tt
      go (some b) e (inr other) = rw other refl
      go (some b) e (inl same) =
          let absent : none ≡ some b =
            sym unused ∙ ap (λ i. table.find_unique i rows) ((eq_iff (id_of row) k).0 same) ∙ e in
          cc

  pub create-found : table.find_unique (id_of row) (table.create row rows) ≡ some row
  create-found =
      table.find_unique-create (id_of row) row rows unused
      ∙ rw ((eq_iff (id_of row) (id_of row)).1 refl) refl
