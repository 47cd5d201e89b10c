-- ===== src/Api/Queue/Timers.antt =====
-- Timers, maps and lists of the queue: what filters, appends and clears do to them.
use nestai.Prelude.{
  ℕ, ◌≡◌, refl, subst, inl, inr, Bool, false, not, String, List, [], ◌∷◌, ◌++◌, none, some, arith,
  ◌==◌, str_eq, eq_iff, if◌then◌else◌, filter, filter-passes, All-both, Some-⊥, All, All-map, Some,
  here, there, Bool-cases, filter-All, All-Some, Some-element,
}
use nestai.Prelude.Sorting.{Pairwise}
use nestai.Api.Queue.{
  Timer, Host, clear_timer, clear_timers, map_get, map_set, map_delete, map_values,
}

module _ {A : Type 0} where
  pub Some-append_left :
      {P : A → Type 0} {xs : List A} (ys : List A) → Some P xs → Some P (xs ++ ys)
  Some-append_left ys (here p) = here p
  Some-append_left ys (there s) = there (Some-append_left ys s)

  pub Some-append_last : {P : A → Type 0} (xs : List A) (x : A) → P x → Some P (xs ++ x ∷ [])
  Some-append_last [] x p = here p
  Some-append_last (y ∷ ys) x p = there (Some-append_last ys x p)

  pub All-append_last :
      (P : A → Type 0) (xs : List A) {x : A} → All P xs → P x → All P (xs ++ x ∷ [])
  All-append_last P [] h p = (p, tt)
  All-append_last P (y ∷ ys) h p = (h.0, All-append_last P ys h.1 p)

  pub Pairwise-append_last :
      (R : A → A → Type 0) (xs : List A) (x : A)
      → Pairwise R xs
      → All (λ y. R y x) xs
      → Pairwise R (xs ++ x ∷ [])
  Pairwise-append_last R [] x h r = (tt, tt)
  Pairwise-append_last R (y ∷ ys) x h r =
      (All-append_last (R y) ys h.0 r.0, Pairwise-append_last R ys x h.1 r.1)

  pub Pairwise-filter :
      (R : A → A → Type 0) (p : A → Bool) (xs : List A) → Pairwise R xs → Pairwise R (filter p xs)
  Pairwise-filter R p [] h = tt
  Pairwise-filter R p (x ∷ xs) h = elim (Bool-cases (p x)) [
    | inl e ↦ rw e (filter-All (R x) p xs h.0, Pairwise-filter R p xs h.1)
    | inr e ↦ rw e (Pairwise-filter R p xs h.1)
  ]

  -- A key that no entry has is put at the end.
  pub map_set-append :
      (k : String) (v : A) (entries : List (String × A))
      → All (λ e. str_eq e.0 k ≡ false) entries
      → map_set k v entries ≡ entries ++ (k, v) ∷ []
  map_set-append k v [] h = refl
  map_set-append k v ((x, a) ∷ entries) h = rw (h.0, map_set-append k v entries h.1) refl

  pub map_get-append_last :
      (j k : String) (v : A) (entries : List (String × A))
      → All (λ e. str_eq e.0 k ≡ false) entries
      → map_get j (entries ++ (k, v) ∷ []) ≡ (if str_eq k j then some v else map_get j entries)
  map_get-append_last j k v [] h = refl
  map_get-append_last j k v ((x, a) ∷ entries) h =
      ground (arith, map_get-append_last j k v entries h.1, h.0, eq_iff x j, eq_iff k j, eq_iff x k)

  pub map_get-map_delete :
      (j k : String) (entries : List (String × A))
      → map_get j (map_delete k entries) ≡ (if str_eq k j then none else map_get j entries)
  map_get-map_delete j k [] = ground arith
  map_get-map_delete j k ((x, a) ∷ entries) =
      ground (arith, map_get-map_delete j k entries, eq_iff x j, eq_iff k j, eq_iff x k)

  -- Where every entry has its own key, what an entry has is what the map gives for its key.
  pub map_get-listed :
      (k : String) (v : A) {entries : List (String × A)}
      → Pairwise (λ a b. str_eq a.0 b.0 ≡ false) entries
      → Some (λ e. (e.0 ≡ k) × (e.1 ≡ v)) entries
      → map_get k entries ≡ some v
  map_get-listed k v keyed (here {x} same) = ground (arith, same, eq_iff x.0 k)
  map_get-listed k v keyed (there {x} {xs} listed) =
      let apart : Some (λ e. str_eq x.0 k ≡ false) xs =
        All-Some xs (λ e differs same. subst (λ j. str_eq x.0 j ≡ false) same.0 differs) keyed.0
          listed in
      let (e, other, in_rest) = Some-element apart in
      rw (other, map_get-listed k v keyed.1 listed) refl

-- A timer whose handle is cleared is not set any more; the others stay.
module _ {P : Type 0} where
  pub clear_timers-All :
      (hs : List ℕ) (Q : Timer P → Type 0) (host : Host P)
      → All Q host.timers
      → All (λ t. Q t × All (λ h. (t.handle == h) ≡ false) hs) (clear_timers hs host).timers
  clear_timers-All [] Q host h = All-map host.timers (λ t q. (q, tt)) h
  clear_timers-All (x ∷ xs) Q host h =
      let kept = filter-All Q (λ t. not (t.handle == x)) host.timers h in
      let passed = filter-passes (λ t. not (t.handle == x)) host.timers in
      let both : All (λ t. Q t × ((t.handle == x) ≡ false)) (clear_timer x host).timers =
        All-both (clear_timer x host).timers (λ t q p. (q, ground arith)) kept passed in
      All-map {P = λ t. (Q t × ((t.handle == x) ≡ false)) × All (λ h. (t.handle == h) ≡ false) xs}
        {Q = λ t. Q t × All (λ h. (t.handle == h) ≡ false) (x ∷ xs)} _
        (λ t r. (r.0.0, (r.0.1, r.1)))
        (clear_timers-All xs (λ t. Q t × ((t.handle == x) ≡ false)) (clear_timer x host) both)

  pub None-empty : (xs : List (Timer P)) → All (λ t. ⊥) xs → xs ≡ []
  None-empty [] h = refl
  None-empty (x ∷ xs) h = absurd h.0

pub map_values-Some :
    (h : ℕ) {entries : List (String × ℕ)}
    → Some (λ e. e.1 ≡ h) entries
    → Some (λ x. x ≡ h) (map_values entries)
map_values-Some h (here {x} same) = here same
map_values-Some h (there s) = there (map_values-Some h s)

-- A handle that is in a list is not apart from all of it.
pub apart-⊥ : (h : ℕ) {hs : List ℕ} → All (λ x. (h == x) ≡ false) hs → Some (λ x. x ≡ h) hs → ⊥
apart-⊥ h {hs} apart listed = Some-⊥ (All-Some hs (λ x differs same. ground arith) apart listed)

pub clear_timers_next :
    {P : Type 0} (hs : List ℕ) (host : Host P) → (clear_timers hs host).next ≡ host.next
clear_timers_next [] host = refl
clear_timers_next (h ∷ hs) host = clear_timers_next hs (clear_timer h host)
