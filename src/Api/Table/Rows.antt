-- ===== src/Api/Table/Rows.antt =====
-- A table as the list of its rows, for the runs of the services.
use nestai.Prelude.{
  ℕ, ◌≤◌, ◌≡◌, refl, sym, ap, inl, inr, Bool, true, false, not, List, [], ◌∷◌, Option, none, some,
  String, arith, All, Some, here, there, All-map, filter, filter-All, filter-passes, filter-Some,
  All-both, find, map, head?, Bool-cases, leb, str_eq, eq_iff, if◌then◌else◌, subst,
}
use nestai.Prelude.Sorting.{sort_by, sort_by-All, All-sort_by, sort_by-IsSorted, IsSorted}
use nestai.Api.Table.{Table, on_row, keep_row}

module _ {Row : Type 0} (id_of : Row → String) where
  abbrev find_row : String → List Row → Option Row
  find_row k rows = find (λ r. str_eq (id_of r) k) rows

  abbrev others : Row → Row → Bool
  others r x = not (str_eq (id_of x) (id_of r))

  -- The first row of each id.
  unfoldable pub distinct : List Row → List Row
  distinct [] = []
  distinct (r ∷ rows) = r ∷ filter (others r) (distinct rows)

  abbrev update_rows : String → (Row → Row) → List Row → List Row
  update_rows i f rows = map (λ r. if str_eq (id_of r) i then f r else r) rows

  abbrev newer : (Row → ℕ) → Row → Row → Bool
  newer key a b = leb (key b) (key a)

  pub find_row_id :
      (k : String) (rows : List Row) (r : Row) → find_row k rows ≡ some r → id_of r ≡ k
  find_row_id k [] r h = cc
  find_row_id k (x ∷ xs) r h = elim (Bool-cases (str_eq (id_of x) k)) [
    | inl e ↦ let e' : some x ≡ some r = rw e at h in ground (arith, eq_iff (id_of x) k)
    | inr e ↦ let h' : find_row k xs ≡ some r = rw e at h in find_row_id k xs r h'
  ]

  find_row-update_other :
      (k i : String) (f : Row → Row) (rows : List Row)
      → ((x : Row) → id_of (f x) ≡ id_of x)
      → str_eq i k ≡ false
      → find_row k (update_rows i f rows) ≡ find_row k rows
  find_row-update_other k i f [] keeps e = refl
  find_row-update_other k i f (x ∷ xs) keeps e = ground (
    arith,
    find_row-update_other k i f xs keeps e,
    keeps x,
    eq_iff (id_of x) i,
    eq_iff (id_of x) k,
    eq_iff i k,
  )

  pub find_row-update :
      (k i : String) (f : Row → Row) (rows : List Row) (r : Row)
      → ((x : Row) → id_of (f x) ≡ id_of x)
      → find_row i rows ≡ some r
      → find_row k (update_rows i f rows) ≡ (if str_eq i k then some (f r) else find_row k rows)
  find_row-update k i f [] r keeps h = cc
  find_row-update k i f (x ∷ xs) r keeps h = elim (Bool-cases (str_eq i k)) [
    | inl e ↦ ground (
      arith,
      find_row-update k i f xs r keeps,
      keeps x,
      eq_iff (id_of x) i,
      eq_iff (id_of x) k,
      eq_iff i k,
    )
    | inr e ↦ rw (e, find_row-update_other k i f (x ∷ xs) keeps e) refl
  ]

  distinct-find_row :
      (rows : List Row) → All (λ r. find_row (id_of r) rows ≡ some r) (distinct rows)
  unfolding distinct
  distinct-find_row [] = tt
  distinct-find_row (x ∷ xs) = (
    ground (arith, eq_iff (id_of x) (id_of x)),
    All-both (filter (others x) (distinct xs))
        (λ r passes found. ground (arith, eq_iff (id_of x) (id_of r), eq_iff (id_of r) (id_of x)))
        (filter-passes (others x) (distinct xs))
        (filter-All _ (others x) (distinct xs) (distinct-find_row xs)),
  )

  find_row-distinct :
      (rows : List Row) (k : String) (r : Row)
      → find_row k rows ≡ some r
      → Some (λ x. x ≡ r) (distinct rows)
  unfolding distinct
  find_row-distinct [] k r h = cc
  find_row-distinct (x ∷ xs) k r h = elim (Bool-cases (str_eq (id_of x) k)) [
    | inl e ↦ let e' : some x ≡ some r = rw e at h in here (ground arith)
    | inr e ↦
        let h' : find_row k xs ≡ some r = rw e at h in
        let named = find_row_id k xs r h' in
        there (
          filter-Some _ (others x)
            (λ y same.
              ground (arith, ap id_of same, eq_iff (id_of y) (id_of x), eq_iff (id_of x) k))
            (find_row-distinct xs k r h'))
  ]

  abbrev select : (Row → Bool) → List Row → List Row
  select p rows = filter p (distinct rows)

  pub select-find_row :
      (p : Row → Bool) (rows : List Row)
      → All (λ r. (p r ≡ true) × (find_row (id_of r) rows ≡ some r)) (select p rows)
  select-find_row p rows =
      All-both (select p rows) (λ r passes found. (passes, found)) (filter-passes p (distinct rows))
        (filter-All _ p (distinct rows) (distinct-find_row rows))

  pub find_row-select :
      (p : Row → Bool) (rows : List Row) (k : String) (r : Row)
      → find_row k rows ≡ some r
      → p r ≡ true
      → Some (λ x. x ≡ r) (select p rows)
  find_row-select p rows k r found passes =
      filter-Some _ p (λ x same. subst (λ y. p y ≡ true) (sym same) passes)
        (find_row-distinct rows k r found)

  abbrev first : (Row → Bool) → (Row → ℕ) → List Row → Option Row
  first p key rows = head? (sort_by (newer key) (select p rows))

  self_listed : (xs : List Row) → All (λ x. Some (λ y. y ≡ x) xs) xs
  self_listed [] = tt
  self_listed (x ∷ xs) = (here refl, All-map xs (λ y s. there s) (self_listed xs))

  head-All : (P : Row → Type 0) (xs : List Row) (r : Row) → head? xs ≡ some r → All P xs → P r
  head-All P [] r h all = cc
  head-All P (x ∷ xs) r h (p, rest) = subst P (ground arith) p

  head-newest :
      (key : Row → ℕ) (xs : List Row) (r : Row)
      → head? xs ≡ some r
      → IsSorted (newer key) xs
      → All (λ x. key x ≤ key r) xs
  head-newest key [] r h sorted = cc
  head-newest key (x ∷ xs) r h (newest, sorted) =
      let same : x ≡ r = ground arith in
      subst (λ y. (key x ≤ key y) × All (λ z. key z ≤ key y) xs) same
        (omega arith, All-map xs (λ z e. ground arith) newest)

  pub first-select :
      (p : Row → Bool) (key : Row → ℕ) (rows : List Row) (r : Row)
      → first p key rows ≡ some r
      → Some (λ x. x ≡ r) (select p rows) × All (λ x. key x ≤ key r) (select p rows)
  first-select p key rows r h = (
    head-All _ _ r h (sort_by-All (newer key) _ _ (self_listed (select p rows))),
    All-sort_by (newer key) _ _ (
        head-newest key _ r h (
          sort_by-IsSorted (newer key) (λ a b e. ground arith) (λ a b c e f. ground arith)
            (select p rows))),
  )

  pub head-none : (xs : List Row) → head? xs ≡ none → All (λ x. ⊥) xs
  head-none [] h = tt
  head-none (x ∷ xs) h = cc

  pub All-empty : (xs : List Row) → All (λ x. ⊥) xs → xs ≡ []
  All-empty [] h = refl
  All-empty (x ∷ xs) (h, rest) = elim h [ ]

  abbrev update_where : (Row → Bool) → (Row → Row) → List Row → List Row
  update_where p f rows = map (λ r. if p r then f r else r) rows

  abbrev delete_where : (Row → Bool) → List Row → List Row
  delete_where p rows = filter (λ r. not (p r)) (distinct rows)

  pub find_row-update_where :
      (k : String) (p : Row → Bool) (f : Row → Row) (rows : List Row)
      → ((x : Row) → id_of (f x) ≡ id_of x)
      → find_row k (update_where p f rows) ≡ on_row (λ r. if p r then f r else r) (find_row k rows)
  find_row-update_where k p f [] keeps = refl
  find_row-update_where k p f (x ∷ xs) keeps =
      ground (arith, find_row-update_where k p f xs keeps, keeps x)

  -- The rows of another id do not change what is found.
  find_row-others :
      (k : String) (q : Row → Bool) (r : Row) (rows : List Row)
      → str_eq (id_of r) k ≡ false
      → find_row k (filter q (filter (others r) rows)) ≡ find_row k (filter q rows)
  find_row-others k q r [] e = refl
  find_row-others k q r (x ∷ xs) e = ground (
    arith,
    find_row-others k q r xs e,
    eq_iff (id_of x) (id_of r),
    eq_iff (id_of x) k,
    eq_iff (id_of r) k,
  )

  find_row_absent :
      (k : String) (q : Row → Bool) (r : Row) (rows : List Row)
      → str_eq (id_of r) k ≡ true
      → find_row k (filter q (filter (others r) rows)) ≡ none
  find_row_absent k q r [] e = refl
  find_row_absent k q r (x ∷ xs) e = ground (
    arith,
    find_row_absent k q r xs e,
    eq_iff (id_of x) (id_of r),
    eq_iff (id_of x) k,
    eq_iff (id_of r) k,
  )

  pub find_row-filter :
      (k : String) (q : Row → Bool) (rows : List Row)
      → find_row k (filter q (distinct rows)) ≡ keep_row q (find_row k rows)
  unfolding distinct
  find_row-filter k q [] = refl
  find_row-filter k q (x ∷ xs) = elim (Bool-cases (str_eq (id_of x) k)) [
    | inl e ↦ ground (arith, e, find_row_absent k q x (distinct xs) e)
    | inr e ↦ ground (arith, e, find_row-others k q x (distinct xs) e, find_row-filter k q xs)
  ]

  abbrev pub list_table : Table Row id_of
  list_table = record {
    Rows = List Row;
    find_unique = find_row;
    find_many = select;
    find_first = first;
    create = ◌∷◌;
    update = update_rows;
    update_many = update_where;
    delete_many = delete_where;
    find_unique_id = find_row_id;
    find_unique-create = λ k r rows fresh. refl;
    find_unique-update = find_row-update;
    find_many-find_unique = select-find_row;
    find_unique-find_many = find_row-select;
    find_first-find_many = first-select;
    find_unique-update_many = find_row-update_where;
    find_unique-delete_many = λ k p rows. find_row-filter k (λ r. not (p r)) rows;
    find_first-none = λ p key rows h. All-empty _ (All-sort_by (newer key) _ _ (head-none _ h));
  }
