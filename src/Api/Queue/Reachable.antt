-- ===== src/Api/Queue/Reachable.antt =====
-- in-memory-job-queue.ts: what holds in every state that calls and timers lead to.
use nestai.Prelude.{
  ℕ, ◌<◌, ◌≡◌, sym, ◌∙◌, ap, subst, inl, inr, true, false, not, String, List, [], Option, none,
  some, arith, ◌==◌, str_eq, eq_iff, filter, filter-All, filter-Some, filter-passes, All-map,
  All-both, All-Some, Some, Some-element, Some-map, Bool-cases, Option-cases, Bool, ◌+◌, ◌∷◌,
}
use nestai.Prelude.Sorting.{Pairwise}
use nestai.Api.Queue.{
  Timer, Queue, Step, Reach, registers, enqueues, repeats, removes, closes, fires, waits, start,
  next, map_get, map_delete, spend, settle, drop_interval, run, remove_repeatable, close, fire,
  empty,
}
use nestai.Api.Queue.Timers.{Pairwise-filter, map_get-listed}
use nestai.Api.Queue.Ownership.{
  IsValid, IsOwned, Holds-map, Distinct, Apart, register-IsValid, wait-IsValid, enqueue-IsValid,
  repeat-IsValid, close-IsValid, close-empty,
}

-- What is apart from a handle in the list that the filter leaves.
keep_handle :
    (h k : ℕ) {hs : List ℕ}
    → (h == k) ≡ false
    → Some (λ x. x ≡ h) hs
    → Some (λ x. x ≡ h) (filter (λ x. not (x == k)) hs)
keep_handle h k differs listed =
    filter-Some (λ x. x ≡ h) (λ x. not (x == k)) (λ x same. ground arith) listed

-- An entry with another handle than the one of a key has another key, and stays.
keep_entry :
    (key : String) (h k : ℕ) (entries : List (String × ℕ))
    → Pairwise Apart entries
    → map_get key entries ≡ some k
    → (h == k) ≡ false
    → Some (λ e. e.1 ≡ h) entries
    → Some (λ e. e.1 ≡ h) (map_delete key entries)
keep_entry key h k entries keyed found differs listed =
    let (e, same, at_e) = Some-element listed in
    elim (Bool-cases (str_eq e.0 key)) [
      | inl of_key ↦
          let given : map_get key entries ≡ some h = map_get-listed key h keyed (
            Some-map
              (λ x equal.
                (ap (λ y. y.0) equal ∙ (eq_iff e.0 key).0 of_key, ap (λ y. y.1) equal ∙ same))
              at_e) in
          absurd (ground (arith, given, found, differs))
      | inr other ↦
          Some-map (λ x equal. ap (λ y. y.1) equal ∙ same)
            (filter-Some (λ x. x ≡ e) (λ x. not (str_eq x.0 key))
              (λ x equal.
                subst (λ y. not (str_eq y.0 key) ≡ true) (sym equal) (ground (arith, other)))
              at_e)
    ]

module _ {P H : Type 0} (q : Queue P H) where
  -- The timers but that of a handle.
  abbrev but : ℕ → List (Timer P)
  but h = filter (λ t. not (t.handle == h)) q.host.timers

  drop_interval-IsValid :
      (key : String) (h : ℕ)
      → map_get key q.intervals ≡ some h
      → IsValid q
      → IsValid (drop_interval key (some h) q)
  drop_interval-IsValid key h found v =
      let p = λ (t : Timer P). not (t.handle == h) in
      record {
        issued = filter-All _ p q.host.timers v.issued;
        distinct = Pairwise-filter Distinct p q.host.timers v.distinct;
        owned =
            All-both (filter p q.host.timers)
              (λ t held passes.
                Holds-map q.timeouts q.timeouts q.intervals (map_delete key q.intervals) t.every
                  t.handle (λ s. s)
                  (keep_entry key t.handle h q.intervals v.keyed found (ground arith)) held)
              (filter-All (IsOwned q.timeouts q.intervals) p q.host.timers v.owned)
              (filter-passes p q.host.timers);
        numbered = filter-All _ (λ e. not (str_eq e.0 key)) q.intervals v.numbered;
        keyed = Pairwise-filter Apart (λ e. not (str_eq e.0 key)) q.intervals v.keyed;
      }

  remove_repeatable-IsValid : (key : String) → IsValid q → IsValid (remove_repeatable key q)
  unfolding remove_repeatable
  remove_repeatable-IsValid key v = elim (Option-cases (map_get key q.intervals)) [
    | inl missing ↦ rw missing v
    | inr (h, found) ↦ rw found (drop_interval-IsValid key h found v)
  ]

  -- A timer that runs is over, or set again.
  abbrev pub spent : Option ℕ → Timer P → Queue P H
  spent every t = record q {
    timeouts = settle every t.handle q.timeouts;
    host = spend every t q.host;
  }

  one_shot-IsValid :
      (t : Timer P)
      → IsValid q
      → IsValid (record q {
        timeouts = filter (λ h. not (h == t.handle)) q.timeouts;
        host = record q.host { timers = but t.handle };
      })
  one_shot-IsValid t v =
      let p : Timer P → Bool = λ x. not (x.handle == t.handle) in
      record {
        issued = filter-All _ p q.host.timers v.issued;
        distinct = Pairwise-filter Distinct p q.host.timers v.distinct;
        owned =
            All-both (filter p q.host.timers)
              (λ x held passes.
                Holds-map q.timeouts (filter (λ h. not (h == t.handle)) q.timeouts) q.intervals
                  q.intervals x.every x.handle (keep_handle x.handle t.handle (ground arith))
                  (λ s. s) held)
              (filter-All (IsOwned q.timeouts q.intervals) p q.host.timers v.owned)
              (filter-passes p q.host.timers);
        numbered = v.numbered;
        keyed = v.keyed;
      }

  set_again-IsValid :
      (t : Timer P) (due : ℕ)
      → Some (λ x. x ≡ t) q.host.timers
      → IsValid q
      → IsValid
          (record q { host = record q.host { timers = record t { due = due } ∷ but t.handle } })
  set_again-IsValid t due listed v =
      let p : Timer P → Bool = λ x. not (x.handle == t.handle) in
      let (x, (issued, owned), at_x) = Some-element (
        All-Some q.host.timers
          (λ y facts same.
            subst (λ z. (z.handle < q.host.next) × IsOwned q.timeouts q.intervals z) same facts)
          (All-both q.host.timers (λ y a b. (a, b)) v.issued v.owned) listed) in
      record {
        issued = (issued, filter-All _ p q.host.timers v.issued);
        distinct = (
          All-map (but t.handle) (λ y passes. ground arith) (filter-passes p q.host.timers),
          Pairwise-filter Distinct p q.host.timers v.distinct,
        );
        owned = (owned, filter-All (IsOwned q.timeouts q.intervals) p q.host.timers v.owned);
        numbered = v.numbered;
        keyed = v.keyed;
      }

  spent-IsValid :
      (every : Option ℕ) (t : Timer P)
      → Some (λ x. x ≡ t) q.host.timers
      → IsValid q
      → IsValid (spent every t)
  spent-IsValid none t listed v = one_shot-IsValid t v
  spent-IsValid (some ms) t listed v = set_again-IsValid t (q.host.now + ms) listed v

run-IsValid :
    {P H : Type 0} (t : Timer P) (handler : Option H) (q : Queue P H)
    → IsValid q
    → IsValid (run t handler q)
run-IsValid t none q v = v
run-IsValid t (some handler) q v = record {
  issued = v.issued;
  distinct = v.distinct;
  owned = v.owned;
  numbered = v.numbered;
  keyed = v.keyed;
}

module _ {P H : Type 0} where
  pub Step-IsValid : {q r : Queue P H} → Step q r → IsValid q → IsValid r
  unfolding fire
  Step-IsValid {q} (registers name handler) v = register-IsValid q name handler v
  Step-IsValid {q} (enqueues name payload opts) v = enqueue-IsValid q name payload opts v
  Step-IsValid {q} (repeats name payload opts) v = repeat-IsValid q name payload opts v
  Step-IsValid {q} (removes key) v = remove_repeatable-IsValid q key v
  Step-IsValid {q} closes v = close-IsValid q v
  Step-IsValid {q} (fires t listed due) v =
      run-IsValid t (map_get t.name q.handlers) (spent q t.every t)
        (spent-IsValid q t.every t listed v)
  Step-IsValid {q} (waits ms) v = wait-IsValid q ms v

  pub empty-IsValid : (now : ℕ) → IsValid (empty {P = P} {H = H} now)
  empty-IsValid now = record { issued = tt; distinct = tt; owned = tt; numbered = tt; keyed = tt }

  -- In every state that a new queue leads to, by calls and by timers in any order, handles and keys
  -- are each issued once, and every timer that is set belongs to the queue.
  pub Reach-IsValid : {now : ℕ} {q : Queue P H} → Reach (empty now) q → IsValid q
  Reach-IsValid {now} start = empty-IsValid now
  Reach-IsValid (next r step) = Step-IsValid step (Reach-IsValid r)

  -- A queue that closes leaves no timer set, whatever calls and timers went before.
  pub close-leaves_none :
      {now : ℕ} {q : Queue P H} → Reach (empty now) q → (close q).host.timers ≡ []
  close-leaves_none {q} r = close-empty q (Reach-IsValid r)
