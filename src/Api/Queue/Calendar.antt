-- ===== src/Api/Queue/Calendar.antt =====
-- job-queue.ts: the abstract view of the repeatable jobs, a map from keys to timers, and that the
-- in-memory queue keeps it.
use nestai.Prelude.{
  ℕ, suc, ◌≡◌, refl, sym, ◌∙◌, ap, inl, inr, eq_iff, Bool-cases, String, List, [], ◌∷◌, Option,
  none, some, str_eq, if◌then◌else◌, All, Option-cases, false, ◌≢◌, ◌+◌, ◌==◌, not, true, arith,
  filter, filter-passes, All-map,
}
use mathlib.Core.Path.{fun_ext}
use nestai.Prelude.Results.{Result, ok, throw, no_interval}
use nestai.Api.Queue.{
  host_delay, Timer, Queue, Step, Reach, registers, enqueues, repeats, removes, closes, fires,
  waits, map_get, key_of, run, register, enqueue, repeat, remove_repeatable, close, fire, wait,
  empty,
}
use nestai.Api.Queue.Timers.{map_set-append, map_get-append_last, map_get-map_delete}
use nestai.Api.Queue.Ownership.{IsValid, new_key_lem}
use nestai.Api.Queue.Reachable.{Reach-IsValid}

-- The timer of a key, if the key is that of a repeatable job.
abbrev pub Calendar : Type 0
Calendar = String → Option ℕ

abbrev pub update : Calendar → String → Option ℕ → Calendar
update f key job k = if str_eq key k then job else f k

abbrev pub calendar : {P H : Type 0} → Queue P H → Calendar
calendar q key = map_get key q.intervals

unused_key :
    (key : String) (entries : List (String × ℕ))
    → All (λ e. str_eq e.0 key ≡ false) entries
    → map_get key entries ≡ none
unused_key key [] h = refl
unused_key key ((x, n) ∷ entries) h = rw h.0 (unused_key key entries h.1)

unknown-same : (f : Calendar) (key : String) → f key ≡ none → f ≡ update f key none
unknown-same f key missing = fun_ext λ k. elim (Bool-cases (str_eq key k)) [
  | inl same ↦ rw same (ap f (sym ((eq_iff key k).0 same)) ∙ missing)
  | inr other ↦ rw other refl
]

-- What `repeat` promises of the map before and after, and of what it returns: without an interval it
-- throws and changes nothing; with one it returns a key that no job has, and adds a job under it.
-- Its timer is set for the name and the payload, first after the interval and then again at each.
abbrev pub Repeats :
    {P H : Type 0} → String → P → Option ℕ → Queue P H → Queue P H → Result String → Type 0
Repeats name payload none q r answer = (answer ≡ throw no_interval) × (calendar r ≡ calendar q)
Repeats name payload (some ms) q r answer =
    (key : String) × (job : ℕ) × (answer ≡ ok key)
    × (calendar q key ≡ none)
    × (calendar r ≡ update (calendar q) key (some job))
    × (r.host.timers
        ≡ record {
          handle = job;
          due = q.host.now + host_delay ms;
          every = some (host_delay ms);
          name = name;
          payload = payload;
        }
          ∷ q.host.timers)

module _ {P H : Type 0} where
  -- What each step does to the map: `repeat` as above, `removeRepeatable` takes the job of its key
  -- out, and its timer, `close` takes all out, and the other calls, the timers and time leave the map
  -- as it is.
  abbrev pub Refines : {q r : Queue P H} → Step q r → Type 0
  Refines {q} {r} (repeats name payload opts) =
      Repeats name payload opts.every_ms q r (repeat name payload opts q).1
  Refines {q} {r} (removes key) =
      (calendar r ≡ update (calendar q) key none)
      × All (λ t. calendar q key ≢ some t.handle) r.host.timers
  Refines {q} {r} closes = calendar r ≡ (λ k. none)
  Refines {q} {r} (registers name handler) = calendar r ≡ calendar q
  Refines {q} {r} (enqueues name payload opts) = calendar r ≡ calendar q
  Refines {q} {r} (fires t listed due) = calendar r ≡ calendar q
  Refines {q} {r} (waits ms) = calendar r ≡ calendar q

module _ {P H : Type 0} (q : Queue P H) where
  repeat-Repeats :
      (name : String) (payload : P) (every : Option ℕ) (cron : Option String)
      → IsValid q
      → Repeats name payload every q
          (repeat name payload (record { every_ms = every; cron = cron }) q).0
          (repeat name payload (record { every_ms = every; cron = cron }) q).1
  unfolding repeat
  repeat-Repeats name payload none cron v = (refl, refl)
  repeat-Repeats name payload (some ms) cron v =
      let key : String = key_of name (suc q.seq) in
      let unused = new_key_lem q name v in
      (
        key,
        q.host.next,
        refl,
        unused_key key q.intervals unused,
        fun_ext λ k.
            ap (map_get k) (map_set-append key q.host.next q.intervals unused)
            ∙ map_get-append_last k key q.host.next q.intervals unused,
        refl,
      )

  remove_repeatable-update :
      (key : String) → calendar (remove_repeatable key q) ≡ update (calendar q) key none
  unfolding remove_repeatable
  remove_repeatable-update key = elim (Option-cases (map_get key q.intervals)) [
    | inl missing ↦ rw missing (unknown-same (calendar q) key missing)
    | inr (h, found) ↦ rw found (fun_ext λ k. map_get-map_delete k key q.intervals)
  ]

other_handle : (a b : ℕ) → not (a == b) ≡ true → some b ≢ some a
other_handle a b differ same = ground arith

module _ {P H : Type 0} (q : Queue P H) where
  remove_repeatable-timers :
      (key : String)
      → All (λ t. calendar q key ≢ some t.handle) (remove_repeatable key q).host.timers
  unfolding remove_repeatable
  remove_repeatable-timers key = elim (Option-cases (map_get key q.intervals)) [
    | inl missing ↦ rw missing (All-map q.host.timers (λ t h e. cc) (all_of q.host.timers))
    | inr (h, found) ↦ rw found (
        All-map (filter (λ t. not (t.handle == h)) q.host.timers)
          (λ t differ e. other_handle t.handle h differ e)
          (filter-passes (λ t. not (t.handle == h)) q.host.timers))
  ]
    where
      all_of : (ts : List (Timer P)) → All (λ t. Unit {0}) ts
      all_of [] = tt
      all_of (t ∷ ts) = (tt, all_of ts)

calendar-run :
    {P H : Type 0} (t : Timer P) (handler : Option H) (q : Queue P H)
    → calendar (run t handler q) ≡ calendar q
calendar-run t none q = refl
calendar-run t (some handler) q = refl

module _ {P H : Type 0} where
  Step-Refines : {q r : Queue P H} (step : Step q r) → IsValid q → Refines step
  unfolding register enqueue close wait fire
  Step-Refines (registers name handler) v = refl
  Step-Refines (enqueues name payload opts) v = refl
  Step-Refines {q} (repeats name payload opts) v =
      repeat-Repeats q name payload opts.every_ms opts.cron v
  Step-Refines {q} (removes key) v =
      (remove_repeatable-update q key, remove_repeatable-timers q key)
  Step-Refines closes v = refl
  Step-Refines {q} (fires t listed due) v = calendar-run t (map_get t.name q.handlers) _
  Step-Refines (waits ms) v = refl

  -- From every state that a new queue leads to, each step changes the repeatable jobs as the
  -- abstract map does: `repeat` without an interval throws and changes nothing, and with one it
  -- returns a key that no job has, adds a job under it and sets the job's timer; `removeRepeatable`
  -- takes out the job of its key, if there is one, with its timer, and no other job; `close` takes out
  -- all; and no other step changes any.
  pub queue-Refines :
      {now : ℕ} {q r : Queue P H} → Reach (empty now) q → (step : Step q r) → Refines step
  queue-Refines before step = Step-Refines step (Reach-IsValid before)
