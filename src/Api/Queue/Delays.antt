-- ===== src/Api/Queue/Delays.antt =====
-- in-memory-job-queue.ts, enqueue: when a job runs, how often, and with what.
use nestai.Prelude.{
  ℕ, ◌+◌, ◌≤◌, ◌<◌, ◌≡◌, ◌≢◌, ◌⊎◌, refl, sym, subst, inl, inr, false, not, String, List, [], ◌∷◌,
  Option, none, some, arith, ◌==◌, filter-All, All, All-map, All-both, All-Some, Some-element,
  Bool-cases, Option-cases,
}
use nestai.Prelude.Int.{pos}
use nestai.Prelude.Sorting.{Pairwise}
use nestai.Api.Queue.{
  Timer, Host, Run, Queue, RepeatOptions, EnqueueOptions, Step, Reach, registers, enqueues, repeats,
  removes, closes, fires, waits, start, next, clear_timers, map_get, map_values, run, register,
  enqueue, repeat, remove_repeatable, close, fire, wait, empty, run_of,
}
use nestai.Api.Queue.Timers.{clear_timers-All, clear_timers_next}
use nestai.Api.Queue.Reachable.{Reach-IsValid, spent}
use nestai.Api.Queue.Runs.{IsPunctual, After, AfterAs, Reach-IsPunctual, spent_next, spent_now}

module _ {P : Type 0} (h due : ℕ) (payload : P) where
  -- A timer of another job, or of the job of handle `h` as it was enqueued.
  abbrev IsTimer : Timer P → Type 0
  IsTimer t = (t.handle ≢ h) ⊎ ((t.every ≡ none) × (due ≤ t.due) × (t.payload ≡ payload))

  cleared :
      (hs : List ℕ) (host : Host P)
      → All IsTimer host.timers
      → All IsTimer (clear_timers hs host).timers
  cleared hs host i =
      All-map {P = λ t. IsTimer t × All (λ x. (t.handle == x) ≡ false) hs} {Q = IsTimer} _
        (λ t r. r.0) (clear_timers-All hs IsTimer host i)

  one_shot : (t : Timer P) → IsTimer t → (t.handle ≢ h) ⊎ (t.every ≡ none)
  one_shot t (inl other) = inl other
  one_shot t (inr (every, late, p)) = inr every

module _ {P H : Type 0} (h due : ℕ) (payload : P) where
  -- A run of another job, or of that one.
  abbrev IsRun : Run P H → Type 0
  IsRun r = (r.handle ≢ h) ⊎ ((r.every ≡ none) × (due ≤ r.at) × (r.payload ≡ payload))

  record IsTracked (q : Queue P H) : Type 0 where
    newer : h < q.host.next
    timers : All (IsTimer h due payload) q.host.timers
    ran : All IsRun q.runs

  -- Other timers, and no new run.
  retimed :
      (q r : Queue P H)
      → r.runs ≡ q.runs
      → q.host.next ≤ r.host.next
      → All (IsTimer h due payload) r.host.timers
      → IsTracked q
      → IsTracked r
  retimed q r same grows timers i = record {
    newer = omega (arith, i.newer, grows);
    timers = timers;
    ran = subst (All IsRun) (sym same) i.ran;
  }

  next_other : (q : Queue P H) → IsTracked q → q.host.next ≢ h
  next_other q i e = ground (arith, i.newer, e)

  repeat-IsTracked :
      (q : Queue P H) (name : String) (p : P) (opts : RepeatOptions)
      → IsTracked q
      → IsTracked (repeat name p opts q).0
  unfolding repeat
  repeat-IsTracked q name p opts i = elim (Option-cases opts.every_ms) [
    | inl missing ↦ rw missing i
    | inr (ms, given) ↦ rw given (retimed q _ refl (omega arith) (inl (next_other q i), i.timers) i)
  ]

  remove_repeatable-IsTracked :
      (q : Queue P H) (key : String) → IsTracked q → IsTracked (remove_repeatable key q)
  unfolding remove_repeatable
  remove_repeatable-IsTracked q key i = elim (Option-cases (map_get key q.intervals)) [
    | inl missing ↦ rw missing i
    | inr (x, found) ↦ rw found (
        retimed q _ refl (omega arith)
          (filter-All (IsTimer h due payload) (λ t. not (t.handle == x)) q.host.timers i.timers) i)
  ]

  spent_timers :
      (q : Queue P H) (every : Option ℕ) (t : Timer P)
      → (t.handle ≢ h) ⊎ (every ≡ none)
      → All (IsTimer h due payload) q.host.timers
      → All (IsTimer h due payload) (spent q every t).host.timers
  spent_timers q none t other i =
      filter-All (IsTimer h due payload) (λ x. not (x.handle == t.handle)) q.host.timers i
  spent_timers q (some ms) t (inl other) i = (
    inl other,
    filter-All (IsTimer h due payload) (λ x. not (x.handle == t.handle)) q.host.timers i,
  )
  spent_timers q (some ms) t (inr e) i = cc

  ran_as :
      (t : Timer P) (now : ℕ) (handler : H)
      → t.due ≤ now
      → IsTimer h due payload t
      → IsRun (run_of t handler now)
  ran_as t now handler ready (inl other) = inl other
  ran_as t now handler ready (inr (every, late, p)) = inr (every, omega arith, p)

  run-IsTracked :
      (q : Queue P H) (t : Timer P) (handler : Option H)
      → IsTimer h due payload t
      → t.due ≤ q.host.now
      → IsTracked q
      → IsTracked (run t handler (spent q t.every t))
  run-IsTracked q t none own ready i =
      retimed q (spent q t.every t) refl (omega (arith, spent_next q t.every t))
        (spent_timers q t.every t (one_shot h due payload t own) i.timers) i
  run-IsTracked q t (some handler) own ready i = record {
    newer = omega (arith, i.newer, spent_next q t.every t);
    timers = spent_timers q t.every t (one_shot h due payload t own) i.timers;
    ran = (
      ran_as t (spent q t.every t).host.now handler (omega (arith, ready, spent_now q t.every t))
          own,
      i.ran,
    );
  }

  Step-IsTracked : {q r : Queue P H} → Step q r → IsTracked q → IsTracked r
  unfolding register enqueue close wait fire
  Step-IsTracked {q} (registers name handler) i = retimed q _ refl (omega arith) i.timers i
  Step-IsTracked {q} (enqueues name p opts) i =
      retimed q _ refl (omega arith) (inl (next_other q i), i.timers) i
  Step-IsTracked {q} (repeats name p opts) i = repeat-IsTracked q name p opts i
  Step-IsTracked {q} (removes key) i = remove_repeatable-IsTracked q key i
  Step-IsTracked {q} closes i =
      retimed q _ refl
        (omega (
          arith,
          clear_timers_next (map_values q.intervals) (clear_timers q.timeouts q.host),
          clear_timers_next q.timeouts q.host,
        ))
        (cleared h due payload (map_values q.intervals) (clear_timers q.timeouts q.host)
          (cleared h due payload q.timeouts q.host i.timers))
        i
  Step-IsTracked {q} (fires t listed ready) i =
      let (x, own, at_x) = Some-element (
        All-Some q.host.timers (λ y own same. subst (IsTimer h due payload) same own) i.timers
          listed) in
      run-IsTracked q t (map_get t.name q.handlers) own ready i
  Step-IsTracked {q} (waits ms) i = retimed q _ refl (omega arith) i.timers i

  Reach-IsTracked : {q r : Queue P H} → Reach q r → IsTracked q → IsTracked r
  Reach-IsTracked start i = i
  Reach-IsTracked (next r step) i = Step-IsTracked step (Reach-IsTracked r i)

  -- Two runs, of which the later one is not of a one-shot that has run, are not both of the job.
  two_runs :
      (later earlier : Run P H)
      → IsRun earlier
      → After later.handle earlier
      → (later.handle ≢ h) ⊎ (earlier.handle ≢ h)
  two_runs later earlier (inl other) after = inr other
  two_runs later earlier (inr (every, late, p)) after =
      let fresh : AfterAs none later.handle earlier.handle =
        subst (λ e. AfterAs e later.handle earlier.handle) every after in
      elim (Bool-cases (later.handle == h)) [
        | inr other ↦ inl (λ e. ground (arith, other, e))
        | inl same ↦ inr (λ e. ground (arith, same, e, fresh))
      ]

  once :
      (runs : List (Run P H))
      → All IsRun runs
      → Pairwise (λ later earlier. After later.handle earlier) runs
      → Pairwise (λ later earlier. (later.handle ≢ h) ⊎ (earlier.handle ≢ h)) runs
  once [] i o = tt
  once (r ∷ rs) (i, is) (o, os) =
      (All-both rs (λ earlier own after. two_runs r earlier own after) is o, once rs is os)

module _ {P H : Type 0} where
  Reach-append : {p q r : Queue P H} → Reach p q → Reach q r → Reach p r
  Reach-append before start = before
  Reach-append before (next r step) = next (Reach-append before r) step

  -- A job is enqueued in a state that a new queue leads to, with a delay that the host keeps (1 to
  -- 2 ^ 31 - 1 milliseconds). Then, whatever calls, timers and time follow: no run of the job is earlier
  -- than the delay after that, each has its payload, and of any two runs one is not the job's.
  pub enqueue-runs_once :
      {begin : ℕ} {q r : Queue P H} (name : String) (payload : P) (ms : ℕ)
      → Reach (empty begin) q
      → 1 ≤ ms
      → ms ≤ 2_147_483_647
      → Reach (enqueue name payload (record { delay_ms = some (pos ms) }) q) r
      → All
          (λ x.
            (x.handle ≢ q.host.next)
            ⊎ ((x.every ≡ none) × (q.host.now + ms ≤ x.at) × (x.payload ≡ payload)))
          r.runs
        × Pairwise
            (λ later earlier. (later.handle ≢ q.host.next) ⊎ (earlier.handle ≢ q.host.next))
            r.runs
  unfolding enqueue
  enqueue-runs_once {begin} {q} {r} name payload ms before low high after =
      let opts : EnqueueOptions = record { delay_ms = some (pos ms) } in
      let p : IsPunctual q = Reach-IsPunctual before in
      let old : (x : Run P H) → x.handle < q.host.next → x.handle ≢ q.host.next =
        λ x lt e. ground (arith, lt, e) in
      let first : IsTracked q.host.next (q.host.now + ms) payload (enqueue name payload opts q) =
        record {
          newer = omega arith;
          timers = (
            inr (refl, ground (arith, low, high), refl),
            All-map q.host.timers (λ t lt. inl (λ e. ground (arith, lt, e)))
                (Reach-IsValid before).issued,
          );
          ran = All-map q.runs (λ x lt. inl (old x lt)) p.ran;
        } in
      let tracked = Reach-IsTracked q.host.next (q.host.now + ms) payload after first in
      (
        tracked.ran,
        once q.host.next (q.host.now + ms) payload r.runs tracked.ran
            (Reach-IsPunctual (Reach-append (next before (enqueues name payload opts)) after)).once,
      )
