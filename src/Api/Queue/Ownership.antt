-- ===== src/Api/Queue/Ownership.antt =====
-- in-memory-job-queue.ts: every timer that is set belongs to the queue, so that none is left when it
-- closes, and the repeatable jobs are a map from their keys.
use nestai.Prelude.{
  ℕ, suc, ◌≤◌, ◌<◌, ◌≡◌, refl, sym, ap, subst, inl, inr, false, String, List, [], ◌∷◌, ◌++◌, Option,
  none, some, arith, ◌==◌, str_eq, eq_iff, All, All-map, Some, Bool-cases, Option-cases,
}
use nestai.Prelude.Sorting.{Pairwise}
use nestai.Core.Text.Numerals.{number_of, number_of-decimal}
use nestai.Api.Queue.{
  Timer, Queue, EnqueueOptions, RepeatOptions, set_timer, clear_timers, map_set, map_values, key_of,
  repeat_every, register, enqueue, repeat, close, wait, delay_of, host_delay,
}
use nestai.Api.Queue.Timers.{
  Some-append_left, Some-append_last, All-append_last, Pairwise-append_last, map_set-append,
  clear_timers-All, None-empty, map_values-Some, apart-⊥,
}

abbrev pub Distinct : {P : Type 0} → Timer P → Timer P → Type 0
Distinct a b = (a.handle == b.handle) ≡ false

abbrev pub Apart : String × ℕ → String × ℕ → Type 0
Apart a b = str_eq a.0 b.0 ≡ false

-- A one-shot is in the set of timeouts, another timer is the value of a key.
abbrev pub Holds : List ℕ → List (String × ℕ) → Option ℕ → ℕ → Type 0
Holds timeouts intervals none h = Some (λ x. x ≡ h) timeouts
Holds timeouts intervals (some ms) h = Some (λ e. e.1 ≡ h) intervals

abbrev pub IsOwned : {P : Type 0} → List ℕ → List (String × ℕ) → Timer P → Type 0
IsOwned timeouts intervals t = Holds timeouts intervals t.every t.handle

-- Handles are issued once, keys are numbered and differ, and every timer belongs to the queue.
pub record IsValid {P H : Type 0} (q : Queue P H) : Type 0 where
  pub issued : All (λ t. t.handle < q.host.next) q.host.timers
  pub distinct : Pairwise Distinct q.host.timers
  pub owned : All (IsOwned q.timeouts q.intervals) q.host.timers
  pub numbered : All (λ e. number_of e.0 ≤ q.seq) q.intervals
  pub keyed : Pairwise Apart q.intervals

pub Holds-map :
    (timeouts timeouts' : List ℕ) (intervals intervals' : List (String × ℕ)) (every : Option ℕ)
    (h : ℕ)
    → (Some (λ x. x ≡ h) timeouts → Some (λ x. x ≡ h) timeouts')
    → (Some (λ e. e.1 ≡ h) intervals → Some (λ e. e.1 ≡ h) intervals')
    → Holds timeouts intervals every h
    → Holds timeouts' intervals' every h
Holds-map ts ts' is is' none h f g held = f held
Holds-map ts ts' is is' (some ms) h f g held = g held

Holds-⊥ :
    (timeouts : List ℕ) (intervals : List (String × ℕ)) (every : Option ℕ) (h : ℕ)
    → All (λ x. (h == x) ≡ false) timeouts
    → All (λ x. (h == x) ≡ false) (map_values intervals)
    → Holds timeouts intervals every h
    → ⊥
Holds-⊥ ts is none h apart_ts apart_is held = apart-⊥ h apart_ts held
Holds-⊥ ts is (some ms) h apart_ts apart_is held = apart-⊥ h apart_is (map_values-Some h held)

module _ {P H : Type 0} (q : Queue P H) where
  pub close-empty : IsValid q → (close q).host.timers ≡ []
  unfolding close
  close-empty v =
      let Owned : Timer P → Type 0 = IsOwned q.timeouts q.intervals in
      let Left : Timer P → Type 0 = λ t. Owned t × All (λ h. (t.handle == h) ≡ false) q.timeouts in
      let left = clear_timers-All q.timeouts Owned q.host v.owned in
      let none_left =
        clear_timers-All (map_values q.intervals) Left (clear_timers q.timeouts q.host) left in
      None-empty _ (
        All-map {P = λ t. Left t × All (λ h. (t.handle == h) ≡ false) (map_values q.intervals)}
          {Q = λ t. ⊥} _ (λ t r. Holds-⊥ q.timeouts q.intervals t.every t.handle r.0.1 r.1 r.0.0)
          none_left)

  set_timer_issued :
      (delay : ℕ) (every : Option ℕ) (name : String) (payload : P)
      → IsValid q
      → All (λ t. t.handle < suc q.host.next) (set_timer delay every name payload q.host).timers
        × Pairwise Distinct (set_timer delay every name payload q.host).timers
  set_timer_issued delay every name payload v = (
    (omega arith, All-map q.host.timers (λ t h. omega (arith, h)) v.issued),
    (All-map q.host.timers (λ t h. ground (arith, h)) v.issued, v.distinct),
  )

  pub register-IsValid :
      (name : String) (handler : H) → IsValid q → IsValid (register name handler q)
  unfolding register
  register-IsValid name handler v = record {
    issued = v.issued;
    distinct = v.distinct;
    owned = v.owned;
    numbered = v.numbered;
    keyed = v.keyed;
  }

  pub wait-IsValid : (ms : ℕ) → IsValid q → IsValid (wait ms q)
  unfolding wait
  wait-IsValid ms v = record {
    issued = v.issued;
    distinct = v.distinct;
    owned = v.owned;
    numbered = v.numbered;
    keyed = v.keyed;
  }

  pub enqueue-IsValid :
      (name : String) (payload : P) (opts : EnqueueOptions)
      → IsValid q
      → IsValid (enqueue name payload opts q)
  unfolding enqueue
  enqueue-IsValid name payload opts v =
      let (issued, distinct) = set_timer_issued (delay_of opts.delay_ms) none name payload v in
      record {
        issued = issued;
        distinct = distinct;
        owned = (
          Some-append_last q.timeouts q.host.next refl,
          All-map q.host.timers
              (λ t held.
                Holds-map q.timeouts (q.timeouts ++ q.host.next ∷ []) q.intervals q.intervals
                  t.every t.handle (Some-append_left (q.host.next ∷ [])) (λ s. s) held)
              v.owned,
        );
        numbered = v.numbered;
        keyed = v.keyed;
      }

  -- The key is not in the map, as its number is above those of all keys.
  pub new_key_lem :
      (name : String)
      → IsValid q
      → All (λ e. str_eq e.0 (key_of name (suc q.seq)) ≡ false) q.intervals
  new_key_lem name v =
      let key : String = key_of name (suc q.seq) in
      All-map q.intervals
        (λ e h. elim (Bool-cases (str_eq e.0 key)) [
          | inr differs ↦ differs
          | inl same ↦ absurd (
              omega (
                arith,
                h,
                ap number_of ((eq_iff e.0 key).0 same),
                number_of-decimal name (suc q.seq),
              ))
        ])
        v.numbered

  repeat_every-IsValid :
      (name : String) (payload : P) (ms : ℕ) → IsValid q → IsValid (repeat_every name payload ms q)
  repeat_every-IsValid name payload ms v =
      let (issued, distinct) = set_timer_issued ms (some (host_delay ms)) name payload v in
      let key : String = key_of name (suc q.seq) in
      let unused = new_key_lem name v in
      let put = sym (map_set-append key q.host.next q.intervals unused) in
      let entry : String × ℕ = (key, q.host.next) in
      record {
        issued = issued;
        distinct = distinct;
        owned = (
          subst (λ es. Some (λ e. e.1 ≡ q.host.next) es) put
              (Some-append_last q.intervals entry refl),
          All-map q.host.timers
              (λ t held.
                Holds-map q.timeouts q.timeouts q.intervals (map_set key q.host.next q.intervals)
                  t.every t.handle (λ s. s)
                  (λ s.
                    subst (λ es. Some (λ e. e.1 ≡ t.handle) es) put
                      (Some-append_left (entry ∷ []) s))
                  held)
              v.owned,
        );
        numbered = subst (All (λ e. number_of e.0 ≤ suc q.seq)) put (
            All-append_last (λ e. number_of e.0 ≤ suc q.seq) q.intervals
              (All-map q.intervals (λ e h. omega (arith, h)) v.numbered)
              (omega (arith, number_of-decimal name (suc q.seq))));
        keyed =
            subst (Pairwise Apart) put
              (Pairwise-append_last Apart q.intervals entry v.keyed unused);
      }

  pub repeat-IsValid :
      (name : String) (payload : P) (opts : RepeatOptions)
      → IsValid q
      → IsValid (repeat name payload opts q).0
  unfolding repeat
  repeat-IsValid name payload opts v = elim (Option-cases opts.every_ms) [
    | inl missing ↦ rw missing v
    | inr (ms, given) ↦ rw given (repeat_every-IsValid name payload ms v)
  ]

  pub close-IsValid : IsValid q → IsValid (close q)
  unfolding close
  close-IsValid v =
      let none_left = sym (close-empty v) in
      record {
        issued = subst (All (λ t. t.handle < (close q).host.next)) none_left tt;
        distinct = subst (Pairwise Distinct) none_left tt;
        owned = subst (All (IsOwned [] [])) none_left tt;
        numbered = tt;
        keyed = tt;
      }
