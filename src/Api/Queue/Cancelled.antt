-- ===== src/Api/Queue/Cancelled.antt =====
-- in-memory-job-queue.ts, close: what was set before does not run any more.
use nestai.Prelude.{
  ℕ, ◌≤◌, ◌≡◌, refl, sym, ap, ◌∙◌, subst, inl, inr, not, String, List, [], ◌∷◌, ◌++◌, Option, none,
  some, arith, ◌==◌, filter-All, All, All-map, All-Some, Some, Some-element, Option-cases, false,
}
use nestai.Api.Queue.{
  Timer, Host, Run, Queue, RepeatOptions, Step, Reach, registers, enqueues, repeats, removes,
  closes, fires, waits, start, next, clear_timers, map_get, map_values, run, register, enqueue,
  repeat, remove_repeatable, close, fire, wait, empty, run_of,
}
use nestai.Api.Queue.Timers.{clear_timers-All, clear_timers_next}
use nestai.Api.Queue.Reachable.{spent, close-leaves_none}
use nestai.Api.Queue.Runs.{spent_next}

-- The timers and the runs that came after `old` have handles from `n` on.
pub record IsSince {P H : Type 0} (n : ℕ) (old : List (Run P H)) (q : Queue P H) : Type 0 where
  pub grown : n ≤ q.host.next
  pub newer : All (λ t. n ≤ t.handle) q.host.timers
  pub later : List (Run P H)
  pub runs_since : q.runs ≡ later ++ old
  pub later_newer : All (λ r. n ≤ r.handle) later

module _ {P H : Type 0} (n : ℕ) (old : List (Run P H)) (q : Queue P H) where
  with_timers :
      (r : Queue P H)
      → r.runs ≡ q.runs
      → q.host.next ≤ r.host.next
      → All (λ t. n ≤ t.handle) r.host.timers
      → IsSince n old q
      → IsSince n old r
  with_timers r same grows newer s = record {
    grown = omega (arith, s.grown, grows);
    newer = newer;
    later = s.later;
    runs_since = same ∙ s.runs_since;
    later_newer = s.later_newer;
  }

  repeat-IsSince :
      (name : String) (payload : P) (opts : RepeatOptions)
      → IsSince n old q
      → IsSince n old (repeat name payload opts q).0
  unfolding repeat
  repeat-IsSince name payload opts s = elim (Option-cases opts.every_ms) [
    | inl missing ↦ rw missing s
    | inr (ms, given) ↦ rw given (with_timers _ refl (omega arith) (s.grown, s.newer) s)
  ]

  remove_repeatable-IsSince :
      (key : String) → IsSince n old q → IsSince n old (remove_repeatable key q)
  unfolding remove_repeatable
  remove_repeatable-IsSince key s = elim (Option-cases (map_get key q.intervals)) [
    | inl missing ↦ rw missing s
    | inr (h, found) ↦ rw found (
        with_timers _ refl (omega arith)
          (filter-All _ (λ t. not (t.handle == h)) q.host.timers s.newer) s)
  ]

  cleared :
      (hs : List ℕ) (host : Host P)
      → All (λ t. n ≤ t.handle) host.timers
      → All (λ t. n ≤ t.handle) (clear_timers hs host).timers
  cleared hs host h =
      let Q : Timer P → Type 0 = λ t. n ≤ t.handle in
      All-map {P = λ t. Q t × All (λ x. (t.handle == x) ≡ false) hs} {Q = Q} _ (λ t r. r.0)
        (clear_timers-All hs Q host h)

  spent_newer :
      (every : Option ℕ) (t : Timer P)
      → n ≤ t.handle
      → IsSince n old q
      → All (λ x. n ≤ x.handle) (spent q every t).host.timers
  spent_newer none t h s = filter-All _ (λ x. not (x.handle == t.handle)) q.host.timers s.newer
  spent_newer (some ms) t h s =
      (h, filter-All _ (λ x. not (x.handle == t.handle)) q.host.timers s.newer)

  run-IsSince :
      (t : Timer P) (handler : Option H)
      → n ≤ t.handle
      → IsSince n old q
      → IsSince n old (run t handler (spent q t.every t))
  run-IsSince t none h s =
      with_timers (spent q t.every t) refl (omega (arith, spent_next q t.every t))
        (spent_newer t.every t h s) s
  run-IsSince t (some handler) h s = record {
    grown = omega (arith, s.grown, spent_next q t.every t);
    newer = spent_newer t.every t h s;
    later = run_of t handler (spent q t.every t).host.now ∷ s.later;
    runs_since = ap (λ rs. run_of t handler (spent q t.every t).host.now ∷ rs) s.runs_since;
    later_newer = (h, s.later_newer);
  }

  fire-IsSince :
      (t : Timer P) → Some (λ x. x ≡ t) q.host.timers → IsSince n old q → IsSince n old (fire t q)
  unfolding fire
  fire-IsSince t listed s =
      let (x, newer, at_x) =
        Some-element
          (All-Some q.host.timers (λ y h same. subst (λ z. n ≤ z.handle) same h) s.newer listed) in
      run-IsSince t (map_get t.name q.handlers) newer s

module _ {P H : Type 0} {n : ℕ} {old : List (Run P H)} where
  Step-IsSince : {q r : Queue P H} → Step q r → IsSince n old q → IsSince n old r
  unfolding register enqueue close wait
  Step-IsSince {q} (registers name handler) s = with_timers n old q _ refl (omega arith) s.newer s
  Step-IsSince {q} (enqueues name payload opts) s =
      with_timers n old q _ refl (omega arith) (s.grown, s.newer) s
  Step-IsSince {q} (repeats name payload opts) s = repeat-IsSince n old q name payload opts s
  Step-IsSince {q} (removes key) s = remove_repeatable-IsSince n old q key s
  Step-IsSince {q} closes s =
      let once = clear_timers q.timeouts q.host in
      let gone : List ℕ = map_values q.intervals in
      with_timers n old q _ refl
        (omega (arith, clear_timers_next gone once, clear_timers_next q.timeouts q.host))
        (cleared n old q gone once (cleared n old q q.timeouts q.host s.newer)) s
  Step-IsSince {q} (fires t listed due) s = fire-IsSince n old q t listed s
  Step-IsSince {q} (waits ms) s = with_timers n old q _ refl (omega arith) s.newer s

  Reach-IsSince : {q r : Queue P H} → Reach q r → IsSince n old q → IsSince n old r
  Reach-IsSince start s = s
  Reach-IsSince (next r step) s = Step-IsSince step (Reach-IsSince r s)

module _ {P H : Type 0} {now : ℕ} {q r : Queue P H} where
  -- Whatever happens after a queue has closed, the runs that are added are of timers that were set
  -- after it closed.
  pub close-cancels :
      Reach (empty now) q
      → Reach (close q) r
      → (later : List (Run P H)) × (r.runs ≡ later ++ q.runs)
        × All (λ x. q.host.next ≤ x.handle) later
  unfolding close
  close-cancels before after =
      let closed : IsSince q.host.next q.runs (close q) = record {
        grown = omega (
          arith,
          clear_timers_next (map_values q.intervals) (clear_timers q.timeouts q.host),
          clear_timers_next q.timeouts q.host,
        );
        newer = subst (All (λ t. q.host.next ≤ t.handle)) (sym (close-leaves_none before)) tt;
        later = [];
        runs_since = refl;
        later_newer = tt;
      } in
      let since = Reach-IsSince after closed in (since.later, since.runs_since, since.later_newer)
