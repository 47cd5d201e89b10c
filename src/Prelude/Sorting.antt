-- ===== src/Prelude/Sorting.antt =====
-- `Array.prototype.sort` with a comparator: the stable sort by a Boolean `le`, which stands for
-- `compare(a, b) <= 0`.
use Prim.Native.Nat.{suc}
use mathlib.Core.Path.{◌≡◌, refl, ap, ◌∙◌}
use mathlib.Core.Logic.{inl, inr}
use mathlib.Core.Bool.{Bool, true, false}
use mathlib.Core.List.{List, [], ◌∷◌, Perm}
use mathlib.Core.List.Perm
use nestai.Prelude.Tests.{if◌then◌else◌, Bool-cases}
use nestai.Prelude.Lists.{length, All, Some, here, there}

-- Each element and each later one are related.
abbrev pub Pairwise {ℓ κ} : {A : Type ℓ} → (A → A → Type κ) → List A → Type κ
Pairwise R [] = Unit
Pairwise R (x ∷ xs) = All (R x) xs × Pairwise R xs

module _ {ℓ} {A : Type ℓ} (le : A → A → Bool) where
  -- An equal element that is already there comes after the new one, which stood before it.
  unfoldable pub insert : A → List A → List A
  insert x [] = x ∷ []
  insert x (y ∷ ys) = if le x y then x ∷ y ∷ ys else y ∷ insert x ys

  unfoldable pub sort_by : List A → List A
  unfolding insert
  sort_by [] = []
  sort_by (x ∷ xs) = insert x (sort_by xs)

  -- Every element is at most each later one.
  abbrev pub IsSorted : List A → Type ℓ
  IsSorted [] = Unit
  IsSorted (x ∷ xs) = All (λ y. le x y ≡ true) xs × IsSorted xs

  insert-perm : (x : A) (ys : List A) → Perm (insert x ys) (x ∷ ys)
  unfolding insert
  insert-perm x [] = Perm.refl (x ∷ [])
  insert-perm x (y ∷ ys) = elim (Bool-cases (le x y)) [
    | inl e ↦ rw e (Perm.refl (x ∷ y ∷ ys))
    | inr e ↦ rw e (Perm.trans (Perm.cons y (insert-perm x ys)) (Perm.swap x y ys))
  ]

  pub sort_by-perm : (xs : List A) → Perm (sort_by xs) xs
  unfolding sort_by
  sort_by-perm [] = Perm.nil
  sort_by-perm (x ∷ xs) = Perm.trans (insert-perm x (sort_by xs)) (Perm.cons x (sort_by-perm xs))

  length-insert : (x : A) (ys : List A) → length (insert x ys) ≡ suc (length ys)
  unfolding insert
  length-insert x [] = refl
  length-insert x (y ∷ ys) = elim (Bool-cases (le x y)) [
    | inl e ↦ rw e refl
    | inr e ↦ rw (e, length-insert x ys) refl
  ]

  pub length-sort_by : (xs : List A) → length (sort_by xs) ≡ length xs
  unfolding sort_by
  length-sort_by [] = refl
  length-sort_by (x ∷ xs) = length-insert x (sort_by xs) ∙ ap suc (length-sort_by xs)

  insert-All {κ} : (P : A → Type κ) (x : A) (ys : List A) → P x → All P ys → All P (insert x ys)
  unfolding insert
  insert-All P x [] p h = (p, tt)
  insert-All P x (y ∷ ys) p h = elim (Bool-cases (le x y)) [
    | inl e ↦ rw e (p, h)
    | inr e ↦ rw e (h.0, insert-All P x ys p h.1)
  ]

  pub sort_by-All {κ} : (P : A → Type κ) (xs : List A) → All P xs → All P (sort_by xs)
  unfolding sort_by
  sort_by-All P [] h = tt
  sort_by-All P (x ∷ xs) h = insert-All P x (sort_by xs) h.0 (sort_by-All P xs h.1)

  insert-Pairwise {κ} :
      (R : A → A → Type κ)
      → ((x y : A) → R x y → R y x)
      → (x : A) (ys : List A) → All (R x) ys
      → Pairwise R ys
      → Pairwise R (insert x ys)
  unfolding insert
  insert-Pairwise R symm x [] h k = (tt, tt)
  insert-Pairwise R symm x (y ∷ ys) h k = elim (Bool-cases (le x y)) [
    | inl e ↦ rw e (h, k)
    | inr e ↦ rw e (insert-All (R y) x ys (symm x y h.0) k.0, insert-Pairwise R symm x ys h.1 k.1)
  ]

  -- Sorting keeps a symmetric relation between all pairs.
  pub sort_by-Pairwise {κ} :
      (R : A → A → Type κ)
      → ((x y : A) → R x y → R y x)
      → (xs : List A) → Pairwise R xs
      → Pairwise R (sort_by xs)
  unfolding sort_by
  sort_by-Pairwise R symm [] k = tt
  sort_by-Pairwise R symm (x ∷ xs) k =
      insert-Pairwise R symm x (sort_by xs) (sort_by-All (R x) xs k.0)
        (sort_by-Pairwise R symm xs k.1)

  insert-Some {κ} : (P : A → Type κ) (x : A) (ys : List A) → Some P (x ∷ ys) → Some P (insert x ys)
  unfolding insert
  insert-Some P x [] s = s
  insert-Some P x (y ∷ ys) (here p) = elim (Bool-cases (le x y)) [
    | inl e ↦ rw e (here p)
    | inr e ↦ rw e (there (insert-Some P x ys (here p)))
  ]
  insert-Some P x (y ∷ ys) (there (here q)) = elim (Bool-cases (le x y)) [
    | inl e ↦ rw e (there (here q))
    | inr e ↦ rw e (here q)
  ]
  insert-Some P x (y ∷ ys) (there (there s)) = elim (Bool-cases (le x y)) [
    | inl e ↦ rw e (there (there s))
    | inr e ↦ rw e (there (insert-Some P x ys (there s)))
  ]

  pub sort_by-Some {κ} : (P : A → Type κ) (xs : List A) → Some P xs → Some P (sort_by xs)
  unfolding sort_by
  sort_by-Some P [] s = elim s [ ]
  sort_by-Some P (x ∷ xs) (here p) = insert-Some P x (sort_by xs) (here p)
  sort_by-Some P (x ∷ xs) (there s) = insert-Some P x (sort_by xs) (there (sort_by-Some P xs s))

  All-insert {κ} : (P : A → Type κ) (x : A) (ys : List A) → All P (insert x ys) → P x × All P ys
  unfolding insert
  All-insert P x [] h = h
  All-insert P x (y ∷ ys) h = elim (Bool-cases (le x y)) [
    | inl e ↦ rw e at h
    | inr e ↦
        let k : P y × All P (insert x ys) = rw e at h in
        let rest = All-insert P x ys k.1 in (rest.0, (k.0, rest.1))
  ]

  -- What holds of the sorted list holds of the list.
  pub All-sort_by {κ} : (P : A → Type κ) (xs : List A) → All P (sort_by xs) → All P xs
  unfolding sort_by
  All-sort_by P [] h = tt
  All-sort_by P (x ∷ xs) h =
      let parts = All-insert P x (sort_by xs) h in (parts.0, All-sort_by P xs parts.1)

module _ {ℓ κ} {A : Type ℓ} (le : A → A → Bool) (R : A → A → Type κ)
    (symm : (x y : A) → R x y → R y x) where
  Pairwise-insert :
      (x : A) (ys : List A) → Pairwise R (insert le x ys) → All (R x) ys × Pairwise R ys
  unfolding insert
  Pairwise-insert x [] h = h
  Pairwise-insert x (y ∷ ys) h = elim (Bool-cases (le x y)) [
    | inl e ↦ rw e at h
    | inr e ↦
        let k : All (R y) (insert le x ys) × Pairwise R (insert le x ys) = rw e at h in
        let (near, rest) = Pairwise-insert x ys k.1 in
        let (yx, later) = All-insert le (R y) x ys k.0 in ((symm y x yx, near), (later, rest))
  ]

  -- Pairs of the sorted list are pairs of the list, in one order or the other.
  pub Pairwise-sort_by : (xs : List A) → Pairwise R (sort_by le xs) → Pairwise R xs
  unfolding sort_by
  Pairwise-sort_by [] h = tt
  Pairwise-sort_by (x ∷ xs) h =
      let (near, rest) = Pairwise-insert x (sort_by le xs) h in
      (All-sort_by le (R x) xs near, Pairwise-sort_by xs rest)

module _ {ℓ} {A : Type ℓ} (le : A → A → Bool) (total : (a b : A) → le a b ≡ false → le b a ≡ true)
    (trans : (a b c : A) → le a b ≡ true → le b c ≡ true → le a c ≡ true) where
  All-trans :
      (x y : A) (zs : List A)
      → le x y ≡ true
      → All (λ z. le y z ≡ true) zs
      → All (λ z. le x z ≡ true) zs
  All-trans x y [] e h = tt
  All-trans x y (z ∷ zs) e h = (trans x y z e h.0, All-trans x y zs e h.1)

  insert-IsSorted : (x : A) (ys : List A) → IsSorted le ys → IsSorted le (insert le x ys)
  unfolding insert
  insert-IsSorted x [] h = (tt, tt)
  insert-IsSorted x (y ∷ ys) h = elim (Bool-cases (le x y)) [
    | inl e ↦ rw e ((e, All-trans x y ys e h.0), h)
    | inr e ↦
        rw e (insert-All le (λ z. le y z ≡ true) x ys (total x y e) h.0, insert-IsSorted x ys h.1)
  ]

  pub sort_by-IsSorted : (xs : List A) → IsSorted le (sort_by le xs)
  unfolding sort_by
  sort_by-IsSorted [] = tt
  sort_by-IsSorted (x ∷ xs) = insert-IsSorted x (sort_by le xs) (sort_by-IsSorted xs)
