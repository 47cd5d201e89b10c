-- ===== src/Prelude/Results.antt =====
-- Results of code that can throw, with the errors that the program throws.
use mathlib.Core.Path.{◌≡◌, refl}
use mathlib.Core.Logic.{◌⊎◌, inl, inr}
use mathlib.Core.List.{List, [], ◌∷◌, map}
use native.Mathlib.Omega.{arith}
use nestai.Prelude.Lists.{All, Some, here, there}

-- What is thrown: `Error`, `RangeError` (of `toISOString`), the HTTP exceptions, and those of the
-- database's client.
pub data Fault : Type 0 where
  invalid_date : Fault
  range_error : Fault
  no_goal_date : Fault
  no_interval : Fault
  not_found : Fault
  unauthorized : Fault
  no_tenant : Fault
  record_missing : Fault
  id_taken : Fault
  invalid_argument : Fault

pub data Result {ℓ} (A : Type ℓ) : Type ℓ where
  ok : A → Result A
  throw : Fault → Result A

infixl 5 ◌>>=◌
abbrev pub ◌>>=◌ {ℓ κ} : {A : Type ℓ} {B : Type κ} → Result A → (A → Result B) → Result B
ok a >>= f = f a
throw e >>= f = throw e

-- The same, where another bind is written `>>=`.
abbrev pub and_then {ℓ κ} : {A : Type ℓ} {B : Type κ} → Result A → (A → Result B) → Result B
and_then m f = m >>= f

-- `xs.map(f)`, for a function that can throw.
unfoldable pub each {ℓ κ} : {A : Type ℓ} {B : Type κ} → (A → Result B) → List A → Result (List B)
each f [] = ok []
each f (x ∷ xs) = f x >>= λ y. each f xs >>= λ ys. ok (y ∷ ys)

-- A chain that returns has a first action that returns, and returns what the second one does with
-- its value.
pub >>=-eq-ok {ℓ κ} :
    {A : Type ℓ} {B : Type κ} (first : Result A) (next : A → Result B) {out : B}
    → (first >>= next) ≡ ok out
    → (x : A) × (first ≡ ok x) × (next x ≡ ok out)
>>=-eq-ok (throw fault) next returns = cc
>>=-eq-ok (ok x) next returns = (x, refl, returns)

-- A chain that throws has an action that throws the same.
pub >>=-eq-throw {ℓ κ} :
    {A : Type ℓ} {B : Type κ} (first : Result A) (next : A → Result B) {fault : Fault}
    → (first >>= next) ≡ throw fault
    → (first ≡ throw fault) ⊎ ((x : A) × (first ≡ ok x) × (next x ≡ throw fault))
>>=-eq-throw (throw other) next e = inl (ground arith)
>>=-eq-throw (ok x) next e = inr (x, refl, e)

pub ok_inj {ℓ} : {A : Type ℓ} {a b : A} → ok a ≡ ok b → a ≡ b
ok_inj e = ground arith

-- To split on the outcome of code that can throw.
pub Result-cases {ℓ} :
    {A : Type ℓ} (r : Result A) → ((x : A) × (r ≡ ok x)) ⊎ ((fault : Fault) × (r ≡ throw fault))
Result-cases (ok x) = inl (x, refl)
Result-cases (throw fault) = inr (fault, refl)

module _ {ℓ κ} {A : Type ℓ} {B : Type κ} (f : A → Result B) where
  pub each-map :
      (g : A → B) (xs : List A) → All (λ x. f x ≡ ok (g x)) xs → each f xs ≡ ok (map g xs)
  unfolding each
  each-map g [] h = refl
  each-map g (x ∷ xs) (h, rest) = rw (h, each-map g xs rest) refl

  -- What the chain throws, one of its actions throws.
  pub each-throw :
      (xs : List A) {fault : Fault} → each f xs ≡ throw fault → Some (λ x. f x ≡ throw fault) xs
  unfolding each
  each-throw [] e = cc
  each-throw (x ∷ xs) e = elim (>>=-eq-throw (f x) (λ y. each f xs >>= λ ys. ok (y ∷ ys)) e) [
    | inl throws ↦ here throws
    | inr (y, returns, e') ↦ elim (>>=-eq-throw (each f xs) (λ ys. ok (y ∷ ys)) e') [
      | inl rest ↦ there (each-throw xs rest)
      | inr (ys, rest, absurdity) ↦ cc
    ]
  ]
