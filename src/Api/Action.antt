-- ===== src/Api/Action.antt =====
-- What a service does: a change of the stored state, and a result. What is thrown leaves the writes
-- before it in place, as the services open no transaction.
use nestai.Prelude.{◌≡◌, ap, inl, inr}
use nestai.Prelude.Results.{Fault, Result, ok, throw, Result-cases}

abbrev pub Action {ℓ κ} : Type ℓ → Type κ → Type (ℓ ⊔ κ)
Action S A = S → S × Result A

infixl 5 ◌>>=◌
abbrev pub ◌>>=◌ {ℓ κ ι} :
    {S : Type ℓ} {A : Type κ} {B : Type ι} → Action S A → (A → Action S B) → Action S B
(m >>= k) s = elim (m s).1 [ ok a ↦ k a (m s).0 | throw fault ↦ ((m s).0, throw fault) ]

abbrev pub return {ℓ κ} : {S : Type ℓ} {A : Type κ} → A → Action S A
return a s = (s, ok a)

abbrev pub fail {ℓ κ} : {S : Type ℓ} {A : Type κ} → Fault → Action S A
fail fault s = (s, throw fault)

-- A computation that reads and writes nothing.
abbrev pub lift {ℓ κ} : {S : Type ℓ} {A : Type κ} → Result A → Action S A
lift r s = (s, r)

-- The chain from the outcome of its first action.
module _ {ℓ κ ι} {S : Type ℓ} {A : Type κ} {B : Type ι} (m : Action S A) (k : A → Action S B)
    (s : S) where
  abbrev step : S × Result A → S × Result B
  step r = elim r.1 [ ok a ↦ k a r.0 | throw fault ↦ (r.0, throw fault) ]

  pub >>=-ok : {u : S} {a : A} → m s ≡ (u, ok a) → (m >>= k) s ≡ k a u
  >>=-ok e = ap step e

  pub >>=-throw : {u : S} {fault : Fault} → m s ≡ (u, throw fault) → (m >>= k) s ≡ (u, throw fault)
  >>=-throw e = ap step e

-- An action, and what is made of its outcome, which can throw after the action has written.
abbrev pub checked {ℓ κ ι} :
    {S : Type ℓ} {A : Type κ} {B : Type ι} → (A → Result B) → Action S A → Action S B
checked f m = m >>= λ a. lift (f a)

abbrev pub answered {ℓ κ ι} :
    {S : Type ℓ} {A : Type κ} {B : Type ι} → (A → B) → Action S A → Action S B
answered f m = checked (λ a. ok (f a)) m

pub checked-writes {ℓ κ ι} :
    {S : Type ℓ} {A : Type κ} {B : Type ι} (f : A → Result B) (m : Action S A) (s : S)
    → (checked f m s).0 ≡ (m s).0
checked-writes f m s = elim (Result-cases (m s).1) [
  | inl (a, e) ↦ ap (λ x. x.0) (>>=-ok m (λ x. lift (f x)) s (ap (λ r. ((m s).0, r)) e))
  | inr (fault, e) ↦ ap (λ x. x.0) (>>=-throw m (λ x. lift (f x)) s (ap (λ r. ((m s).0, r)) e))
]

pub answered-ok {ℓ κ ι} :
    {S : Type ℓ} {A : Type κ} {B : Type ι} (f : A → B) (m : Action S A) (s : S) {a : A}
    → (m s).1 ≡ ok a
    → (answered f m s).1 ≡ ok (f a)
answered-ok f m s e = ap (λ x. x.1) (>>=-ok m (λ x. lift (ok (f x))) s (ap (λ r. ((m s).0, r)) e))
