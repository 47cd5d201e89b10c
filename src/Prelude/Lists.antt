-- ===== src/Prelude/Lists.antt =====
-- Lists measured by native numbers and searched by Boolean tests, and predicates on all elements.
use Prim.Native.Nat.{ℕ, zero, suc, ◌+◌, ◌≤◌}
use Prim.Native.String.{String}
use mathlib.Core.Path.{◌≡◌, refl, subst}
use mathlib.Core.Bool.{Bool, true, false, ◌&&◌, ◌||◌}
use mathlib.Core.List.{List, [], ◌∷◌, ◌++◌}
use mathlib.Core.Option.{Option, none, some}
use native.Mathlib.Omega.{arith}
use text.Mathlib.TextEquality.{eq_iff}
use mathlib.Core.Logic.{inl, inr}
use nestai.Prelude.Tests.{if◌then◌else◌, str_eq, Bool-cases}

module _ {ℓ} {A : Type ℓ} where
  abbrev pub length : List A → ℕ
  length [] = 0
  length (x ∷ xs) = suc (length xs)

  abbrev pub head? : List A → Option A
  head? [] = none
  head? (x ∷ xs) = some x

  abbrev pub tail : List A → List A
  tail [] = []
  tail (x ∷ xs) = xs

  -- `xs.filter(p)`
  abbrev pub filter : (A → Bool) → List A → List A
  filter p [] = []
  filter p (x ∷ xs) = if p x then x ∷ filter p xs else filter p xs

  -- `xs.find(p)`
  abbrev pub find : (A → Bool) → List A → Option A
  find p [] = none
  find p (x ∷ xs) = if p x then some x else find p xs

  -- `xs.some(p)` and `xs.every(p)`
  abbrev pub any : (A → Bool) → List A → Bool
  any p [] = false
  any p (x ∷ xs) = p x || any p xs

  abbrev pub all : (A → Bool) → List A → Bool
  all p [] = true
  all p (x ∷ xs) = p x && all p xs

  -- `xs.slice(0, n)`
  abbrev pub take : ℕ → List A → List A
  take zero xs = []
  take (suc n) [] = []
  take (suc n) (x ∷ xs) = x ∷ take n xs

  pub length-append : (xs ys : List A) → length (xs ++ ys) ≡ length xs + length ys
  length-append [] ys = omega arith
  length-append (x ∷ xs) ys = omega (arith, length-append xs ys)

  pub length-filter-le : (p : A → Bool) (xs : List A) → length (filter p xs) ≤ length xs
  length-filter-le p [] = omega arith
  length-filter-le p (x ∷ xs) = ground (arith, length-filter-le p xs)

-- `xs.includes(s)`
abbrev pub includes : String → List String → Bool
includes s xs = any (λ x. str_eq x s) xs

-- `P` holds of every element.
abbrev pub All {ℓ κ} : {A : Type ℓ} → (A → Type κ) → List A → Type κ
All P [] = Unit
All P (x ∷ xs) = P x × All P xs

-- `P` holds of some element, which is given by its place.
pub data Some {ℓ κ} {A : Type ℓ} (P : A → Type κ) : List A → Type (ℓ ⊔ κ) where
  here : {x : A} {xs : List A} → P x → Some P (x ∷ xs)
  there : {x : A} {xs : List A} → Some P xs → Some P (x ∷ xs)

module _ {ℓ κ} {A : Type ℓ} (P : A → Type κ) where
  pub All-append : (xs ys : List A) → All P xs → All P ys → All P (xs ++ ys)
  All-append [] ys hx hy = hy
  All-append (x ∷ xs) ys hx hy = (hx.0, All-append xs ys hx.1 hy)

module _ {ℓ κ} {A : Type ℓ} {P : A → Type κ} where
  pub All-all :
      (p : A → Bool) → ((x : A) → p x ≡ true → P x) → (xs : List A) → all p xs ≡ true → All P xs
  All-all p h [] e = tt
  All-all p h (x ∷ xs) e = (h x (ground arith), All-all p h xs (ground arith))

  pub all-All :
      (p : A → Bool) → ((x : A) → P x → p x ≡ true) → (xs : List A) → All P xs → all p xs ≡ true
  all-All p h [] e = refl
  all-All p h (x ∷ xs) e = ground (arith, h x e.0, all-All p h xs e.1)

pub any→Some {ℓ} :
    {A : Type ℓ} (p : A → Bool) (xs : List A) → any p xs ≡ true → Some (λ x. p x ≡ true) xs
any→Some p [] h = cc
any→Some p (x ∷ xs) h = elim (Bool-cases (p x)) [
  | inl e ↦ here e
  | inr e ↦ there (any→Some p xs (ground arith))
]

pub Some→any {ℓ} :
    {A : Type ℓ} (p : A → Bool) {xs : List A} → Some (λ x. p x ≡ true) xs → any p xs ≡ true
Some→any p (here e) = rw e
Some→any p (there {x} s) = ground (arith, Some→any p s)

pub Some-map {ℓ κ ι} :
    {A : Type ℓ} {P : A → Type κ} {Q : A → Type ι} {xs : List A}
    → ((x : A) → P x → Q x)
    → Some P xs
    → Some Q xs
Some-map f (here {x} p) = here (f x p)
Some-map f (there s) = there (Some-map f s)

pub includes→Some : (s : String) (xs : List String) → includes s xs ≡ true → Some (λ x. x ≡ s) xs
includes→Some s xs h = Some-map (λ x e. (eq_iff x s).0 e) (any→Some _ xs h)

pub Some→includes : (s : String) {xs : List String} → Some (λ x. x ≡ s) xs → includes s xs ≡ true
Some→includes s m = Some→any _ (Some-map (λ x e. (eq_iff x s).1 e) m)

-- What holds of all elements and of the place of one holds of that one.
pub All-Some {ℓ κ ι θ} :
    {A : Type ℓ} {P : A → Type κ} {Q : A → Type ι} {R : A → Type θ} (xs : List A)
    → ((x : A) → P x → Q x → R x)
    → All P xs
    → Some Q xs
    → Some R xs
All-Some [] f h s = elim s [ ]
All-Some (x ∷ xs) f h (here q) = here (f x h.0 q)
All-Some (x ∷ xs) f h (there s) = there (All-Some xs f h.1 s)

pub All-map {ℓ κ ι} :
    {A : Type ℓ} {P : A → Type κ} {Q : A → Type ι} (xs : List A)
    → ((x : A) → P x → Q x)
    → All P xs
    → All Q xs
All-map [] f h = tt
All-map (x ∷ xs) f h = (f x h.0, All-map xs f h.1)

pub filter-All {ℓ κ} :
    {A : Type ℓ} (P : A → Type κ) (p : A → Bool) (xs : List A) → All P xs → All P (filter p xs)
filter-All P p [] h = tt
filter-All P p (x ∷ xs) h = elim (Bool-cases (p x)) [
  | inl e ↦ rw e (h.0, filter-All P p xs h.1)
  | inr e ↦ rw e (filter-All P p xs h.1)
]

-- Every element that the filter keeps passes its test.
pub filter-passes {ℓ} :
    {A : Type ℓ} (p : A → Bool) (xs : List A) → All (λ x. p x ≡ true) (filter p xs)
filter-passes p [] = tt
filter-passes p (x ∷ xs) = elim (Bool-cases (p x)) [
  | inl e ↦ rw e (e, filter-passes p xs)
  | inr e ↦ rw e (filter-passes p xs)
]

pub filter-Some {ℓ κ} :
    {A : Type ℓ} (P : A → Type κ) (p : A → Bool) {xs : List A}
    → ((x : A) → P x → p x ≡ true)
    → Some P xs
    → Some P (filter p xs)
filter-Some P p f (here {x} q) = rw (f x q) (here q)
filter-Some P p f (there {x} s) = elim (Bool-cases (p x)) [
  | inl e ↦ rw e (there (filter-Some P p f s))
  | inr e ↦ rw e (filter-Some P p f s)
]

pub All-both {ℓ κ ι θ} :
    {A : Type ℓ} {P : A → Type κ} {Q : A → Type ι} {R : A → Type θ} (xs : List A)
    → ((x : A) → P x → Q x → R x)
    → All P xs
    → All Q xs
    → All R xs
All-both [] f h k = tt
All-both (x ∷ xs) f h k = (f x h.0 k.0, All-both xs f h.1 k.1)

pub Some-⊥ {ℓ} : {A : Type ℓ} {xs : List A} → Some (λ (x : A). ⊥) xs → ⊥
Some-⊥ (here p) = p
Some-⊥ (there s) = Some-⊥ s

-- A property that fails no element which the filter drops, and holds of those it keeps.
pub All-unfilter {ℓ κ} :
    {A : Type ℓ} (P : A → Type κ) (p : A → Bool) (xs : List A)
    → ((x : A) → p x ≡ false → P x)
    → All P (filter p xs)
    → All P xs
All-unfilter P p [] f h = tt
All-unfilter P p (x ∷ xs) f h = elim (Bool-cases (p x)) [
  | inl e ↦ let k : P x × All P (filter p xs) = rw e at h in (k.0, All-unfilter P p xs f k.1)
  | inr e ↦ let k : All P (filter p xs) = rw e at h in (f x e, All-unfilter P p xs f k)
]

-- What `find` returns passes its test, and has what all elements have.
pub find-All {ℓ κ} :
    {A : Type ℓ} (P : A → Type κ) (p : A → Bool) (xs : List A) (x : A)
    → find p xs ≡ some x
    → All P xs
    → P x × (p x ≡ true)
find-All P p [] x e h = cc
find-All P p (y ∷ ys) x e h = elim (Bool-cases (p y)) [
  | inl q ↦ let same : y ≡ x = ground arith in (subst P same h.0, subst (λ z. p z ≡ true) same q)
  | inr q ↦ find-All P p ys x (rw q at e) h.1
]

pub All-append_parts {ℓ κ} :
    {A : Type ℓ} (P : A → Type κ) (xs ys : List A) → All P (xs ++ ys) → All P xs × All P ys
All-append_parts P [] ys h = (tt, h)
All-append_parts P (x ∷ xs) ys h = let (hx, hy) = All-append_parts P xs ys h.1 in ((h.0, hx), hy)

-- An element of which it holds.
pub Some-element {ℓ κ} :
    {A : Type ℓ} {P : A → Type κ} {xs : List A} → Some P xs → (x : A) × P x × Some (λ y. y ≡ x) xs
Some-element (here {x} p) = (x, p, here refl)
Some-element (there s) = let (x, p, listed) = Some-element s in (x, p, there listed)
