-- ===== src/Api/Queue/Runs.antt =====
-- in-memory-job-queue.ts: which runs follow which.
use nestai.Prelude.{
  ℕ, ◌≤◌, ◌<◌, ◌≡◌, refl, sym, subst, inl, inr, false, not, String, List, Option, none, some, arith,
  ◌==◌, filter, filter-All, filter-passes, All, All-map, All-both, All-Some, Some, Some-element,
  Option-cases,
}
use nestai.Prelude.Sorting.{Pairwise}
use nestai.Api.Queue.{
  Timer, Host, Run, Queue, RepeatOptions, Step, Reach, registers, enqueues, repeats, removes,
  closes, fires, waits, start, next, clear_timers, map_get, map_values, run, register, enqueue,
  repeat, remove_repeatable, close, fire, wait, empty,
}
use nestai.Api.Queue.Timers.{clear_timers-All, clear_timers_next}
use nestai.Api.Queue.Ownership.{IsValid}
use nestai.Api.Queue.Reachable.{Reach-IsValid, spent}

-- A handle that is not the one of a one-shot that has run.
abbrev pub AfterAs : Option ℕ → ℕ → ℕ → Type 0
AfterAs none h ran = (h == ran) ≡ false
AfterAs (some ms) h ran = Unit

abbrev pub After : {P H : Type 0} → ℕ → Run P H → Type 0
After h r = AfterAs r.every h r.handle

-- No run is early, and no timer that is set and no later run is that of a one-shot that has run.
pub record IsPunctual {P H : Type 0} (q : Queue P H) : Type 0 where
  pub in_time : All (λ r. r.due ≤ r.at) q.runs
  pub ran : All (λ r. r.handle < q.host.next) q.runs
  pub over : All (λ t. All (After t.handle) q.runs) q.host.timers
  pub once : Pairwise (λ later earlier. After later.handle earlier) q.runs

After_newer : (every : Option ℕ) (h ran : ℕ) → ran < h → AfterAs every h ran
After_newer none h ran lt = ground arith
After_newer (some ms) h ran lt = tt

module _ {P H : Type 0} (q : Queue P H) where
  -- Other timers, and handles that are newer than all, under the same runs.
  with_timers :
      (r : Queue P H)
      → r.runs ≡ q.runs
      → q.host.next ≤ r.host.next
      → All (λ t. All (After t.handle) q.runs) r.host.timers
      → IsPunctual q
      → IsPunctual r
  with_timers r same grows over p = record {
    in_time = subst (All (λ x. x.due ≤ x.at)) (sym same) p.in_time;
    ran =
        subst (All (λ x. x.handle < r.host.next)) (sym same)
          (All-map q.runs (λ x h. omega (arith, h, grows)) p.ran);
    over = subst (λ runs. All (λ t. All (After t.handle) runs) r.host.timers) (sym same) over;
    once = subst (Pairwise (λ later earlier. After later.handle earlier)) (sym same) p.once;
  }

  newest : IsPunctual q → All (After q.host.next) q.runs
  newest p = All-map q.runs (λ r h. After_newer r.every q.host.next r.handle h) p.ran

  cleared :
      (hs : List ℕ) (host : Host P)
      → All (λ t. All (After t.handle) q.runs) host.timers
      → All (λ t. All (After t.handle) q.runs) (clear_timers hs host).timers
  cleared hs host h =
      let Q : Timer P → Type 0 = λ t. All (After t.handle) q.runs in
      All-map {P = λ t. Q t × All (λ x. (t.handle == x) ≡ false) hs} {Q = Q} _ (λ t r. r.0)
        (clear_timers-All hs Q host h)

  repeat-IsPunctual :
      (name : String) (payload : P) (opts : RepeatOptions)
      → IsPunctual q
      → IsPunctual (repeat name payload opts q).0
  unfolding repeat
  repeat-IsPunctual name payload opts p = elim (Option-cases opts.every_ms) [
    | inl missing ↦ rw missing p
    | inr (ms, given) ↦ rw given (with_timers _ refl (omega arith) (newest p, p.over) p)
  ]

  remove_repeatable-IsPunctual :
      (key : String) → IsPunctual q → IsPunctual (remove_repeatable key q)
  unfolding remove_repeatable
  remove_repeatable-IsPunctual key p = elim (Option-cases (map_get key q.intervals)) [
    | inl missing ↦ rw missing p
    | inr (h, found) ↦ rw found (
        with_timers _ refl (omega arith)
          (filter-All _ (λ t. not (t.handle == h)) q.host.timers p.over) p)
  ]

  -- Every timer that is then set is after that run too.
  spent_over :
      (every : Option ℕ) (t : Timer P)
      → All (After t.handle) q.runs
      → IsPunctual q
      → All
          (λ x. AfterAs every x.handle t.handle × All (After x.handle) q.runs)
          (spent q every t).host.timers
  spent_over none t after p =
      All-both (filter (λ x. not (x.handle == t.handle)) q.host.timers)
        (λ x passes kept. (ground (arith, passes), kept))
        (filter-passes (λ x. not (x.handle == t.handle)) q.host.timers)
        (filter-All (λ x. All (After x.handle) q.runs) (λ x. not (x.handle == t.handle))
          q.host.timers p.over)
  spent_over (some ms) t after p = (
    (tt, after),
    All-map (filter (λ x. not (x.handle == t.handle)) q.host.timers) (λ x kept. (tt, kept))
        (filter-All (λ x. All (After x.handle) q.runs) (λ x. not (x.handle == t.handle))
          q.host.timers p.over),
  )

  spent_kept :
      (every : Option ℕ) (t : Timer P)
      → All (After t.handle) q.runs
      → IsPunctual q
      → All (λ x. All (After x.handle) q.runs) (spent q every t).host.timers
  spent_kept every t after p =
      All-map (spent q every t).host.timers (λ x both. both.1) (spent_over every t after p)

  pub spent_next : (every : Option ℕ) (t : Timer P) → (spent q every t).host.next ≡ q.host.next
  spent_next none t = refl
  spent_next (some ms) t = refl

  pub spent_now : (every : Option ℕ) (t : Timer P) → (spent q every t).host.now ≡ q.host.now
  spent_now none t = refl
  spent_now (some ms) t = refl

  run-IsPunctual :
      (t : Timer P) (handler : Option H)
      → t.handle < q.host.next
      → All (After t.handle) q.runs
      → t.due ≤ q.host.now
      → IsPunctual q
      → IsPunctual (run t handler (spent q t.every t))
  run-IsPunctual t none issued after due p =
      with_timers (spent q t.every t) refl (omega (arith, spent_next t.every t))
        (spent_kept t.every t after p) p
  run-IsPunctual t (some handler) issued after due p = record {
    in_time = (omega (arith, due, spent_now t.every t), p.in_time);
    ran = (
      omega (arith, issued, spent_next t.every t),
      All-map q.runs (λ r h. omega (arith, h, spent_next t.every t)) p.ran,
    );
    over = spent_over t.every t after p;
    once = (after, p.once);
  }

  fire-IsPunctual :
      (t : Timer P)
      → Some (λ x. x ≡ t) q.host.timers
      → t.due ≤ q.host.now
      → IsValid q
      → IsPunctual q
      → IsPunctual (fire t q)
  unfolding fire
  fire-IsPunctual t listed due v p =
      let (x, (issued, after), at_x) = Some-element (
        All-Some q.host.timers
          (λ y facts same.
            subst (λ z. (z.handle < q.host.next) × All (After z.handle) q.runs) same facts)
          (All-both q.host.timers (λ y a b. (a, b)) v.issued p.over) listed) in
      run-IsPunctual t (map_get t.name q.handlers) issued after due p

module _ {P H : Type 0} where
  Step-IsPunctual : {q r : Queue P H} → Step q r → IsValid q → IsPunctual q → IsPunctual r
  unfolding register enqueue close wait
  Step-IsPunctual {q} (registers name handler) v p = with_timers q _ refl (omega arith) p.over p
  Step-IsPunctual {q} (enqueues name payload opts) v p =
      with_timers q _ refl (omega arith) (newest q p, p.over) p
  Step-IsPunctual {q} (repeats name payload opts) v p = repeat-IsPunctual q name payload opts p
  Step-IsPunctual {q} (removes key) v p = remove_repeatable-IsPunctual q key p
  Step-IsPunctual {q} closes v p =
      with_timers q _ refl
        (omega (
          arith,
          clear_timers_next (map_values q.intervals) (clear_timers q.timeouts q.host),
          clear_timers_next q.timeouts q.host,
        ))
        (cleared q (map_values q.intervals) (clear_timers q.timeouts q.host)
          (cleared q q.timeouts q.host p.over))
        p
  Step-IsPunctual {q} (fires t listed due) v p = fire-IsPunctual q t listed due v p
  Step-IsPunctual {q} (waits ms) v p = with_timers q _ refl (omega arith) p.over p

  -- In every state that a new queue leads to, by calls and by timers in any order: no job has run
  -- before it was due, and no timer that has run as a one-shot runs again or is still set.
  pub Reach-IsPunctual : {now : ℕ} {q : Queue P H} → Reach (empty now) q → IsPunctual q
  Reach-IsPunctual start = record { in_time = tt; ran = tt; over = tt; once = tt }
  Reach-IsPunctual (next r step) = Step-IsPunctual step (Reach-IsValid r) (Reach-IsPunctual r)
