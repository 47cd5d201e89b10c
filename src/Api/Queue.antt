-- ===== src/Api/Queue.antt =====
-- services/api/src/queue: job-queue.ts and in-memory-job-queue.ts, with the timers of the host that
-- the queue sets and clears. A job's payload and handler are of any types `P` and `H`.
pub mod Timers
pub mod Ownership
pub mod Reachable
pub mod Calendar
pub mod Cancelled
pub mod Runs
pub mod Delays
mod Tests
use nestai.Prelude.{
  ℕ, suc, ◌+◌, ◌≤◌, ◌≡◌, Bool, true, false, not, ◌&&◌, String, List, [], ◌∷◌, ◌++◌, Option, none,
  some, max, ltb, leb, ◌==◌, str_eq, if◌then◌else◌, filter, find, any, Some,
}
use nestai.Prelude.Int.{ℤ, pos_part}
use nestai.Prelude.Results.{Result, ok, throw, no_interval}
use nestai.Core.Text.{◌+++◌, decimal}

-- A timer of the host: a one-shot, or one that is set again after each run. The callback runs the
-- job of the name with the payload.
pub record Timer (P : Type 0) : Type 0 where
  pub handle : ℕ
  pub due : ℕ
  pub every : Option ℕ
  pub name : String
  pub payload : P

-- The timers that are set, the time, and the next handle.
pub record Host (P : Type 0) : Type 0 where
  pub now : ℕ
  pub next : ℕ
  pub timers : List (Timer P)

-- A call of a handler: the timer, the times at which it was due and at which it ran.
pub record Run (P H : Type 0) : Type 0 where
  pub handle : ℕ
  pub every : Option ℕ
  pub due : ℕ
  pub at : ℕ
  pub handler : H
  pub payload : P

-- The maps are lists of their entries in the order of insertion.
pub record Queue (P H : Type 0) : Type 0 where
  pub handlers : List (String × H)
  pub timeouts : List ℕ
  pub intervals : List (String × ℕ)
  pub seq : ℕ
  pub host : Host P
  pub runs : List (Run P H)

pub record EnqueueOptions : Type 0 where
  pub delay_ms : Option ℤ

pub record RepeatOptions : Type 0 where
  pub every_ms : Option ℕ
  pub cron : Option String

-- The host takes a delay that is 0 or over 2 ^ 31 - 1 for 1.
abbrev pub host_delay : ℕ → ℕ
host_delay ms = if leb 1 ms && leb ms 2_147_483_647 then ms else 1

abbrev pub set_timer : {P : Type 0} → ℕ → Option ℕ → String → P → Host P → Host P
set_timer delay every name payload host = record host {
  next = suc host.next;
  timers =
      record {
        handle = host.next;
        due = host.now + host_delay delay;
        every = every;
        name = name;
        payload = payload;
      }
      ∷ host.timers;
}

abbrev pub clear_timer : {P : Type 0} → ℕ → Host P → Host P
clear_timer h host = record host { timers = filter (λ t. not (t.handle == h)) host.timers }

abbrev pub clear_timers : {P : Type 0} → List ℕ → Host P → Host P
clear_timers [] host = host
clear_timers (h ∷ hs) host = clear_timers hs (clear_timer h host)

-- `map.get`, `map.set` and `map.delete`.
module _ {A : Type 0} where
  abbrev pub map_get : String → List (String × A) → Option A
  map_get k [] = none
  map_get k ((x, a) ∷ entries) = if str_eq x k then some a else map_get k entries

  abbrev pub map_set : String → A → List (String × A) → List (String × A)
  map_set k v [] = (k, v) ∷ []
  map_set k v ((x, a) ∷ entries) =
      let rest : List (String × A) = map_set k v entries in
      if str_eq x k then (k, v) ∷ entries else (x, a) ∷ rest

  abbrev pub map_delete : String → List (String × A) → List (String × A)
  map_delete k entries = filter (λ e. not (str_eq e.0 k)) entries

  abbrev pub map_values : List (String × A) → List A
  map_values [] = []
  map_values ((x, a) ∷ entries) = a ∷ map_values entries

-- `Math.max(0, opts.delayMs ?? 0)`
abbrev pub delay_of : Option ℤ → ℕ
delay_of none = 0
delay_of (some ms) = pos_part ms

abbrev pub key_of : String → ℕ → String
key_of name seq = name +++ "#" +++ decimal seq

module _ {P : Type 0} where
  -- What the host does with a timer that runs: a one-shot is over, another one is set again.
  abbrev pub spend : Option ℕ → Timer P → Host P → Host P
  spend none t host = clear_timer t.handle host
  spend (some ms) t host = record host {
    timers =
        record t { due = host.now + ms } ∷ filter (λ x. not (x.handle == t.handle)) host.timers;
  }

-- The callback of a one-shot takes it out of the set before the job runs.
abbrev pub settle : Option ℕ → ℕ → List ℕ → List ℕ
settle none handle timeouts = filter (λ h. not (h == handle)) timeouts
settle (some ms) handle timeouts = timeouts

module _ {P H : Type 0} where
  abbrev pub empty : ℕ → Queue P H
  empty now = record {
    handlers = [];
    timeouts = [];
    intervals = [];
    seq = 0;
    host = record { now = now; next = 0; timers = [] };
    runs = [];
  }

  unfoldable pub register : String → H → Queue P H → Queue P H
  register name handler q = record q { handlers = map_set name handler q.handlers }

  -- The host clock only moves on between calls.
  unfoldable pub enqueue : String → P → EnqueueOptions → Queue P H → Queue P H
  enqueue name payload opts q = record q {
    timeouts = q.timeouts ++ q.host.next ∷ [];
    host = set_timer (delay_of opts.delay_ms) none name payload q.host;
  }

  abbrev pub repeat_every : String → P → ℕ → Queue P H → Queue P H
  repeat_every name payload ms q = record q {
    seq = suc q.seq;
    intervals = map_set (key_of name (suc q.seq)) q.host.next q.intervals;
    host = set_timer ms (some (host_delay ms)) name payload q.host;
  }

  unfoldable pub repeat : String → P → RepeatOptions → Queue P H → Queue P H × Result String
  repeat name payload opts q = elim opts.every_ms [
    | none ↦ (q, throw no_interval)
    | some ms ↦ (repeat_every name payload ms q, ok (key_of name (suc q.seq)))
  ]

  abbrev pub drop_interval : String → Option ℕ → Queue P H → Queue P H
  drop_interval key none q = q
  drop_interval key (some h) q = record q {
    intervals = map_delete key q.intervals;
    host = clear_timer h q.host;
  }

  unfoldable pub remove_repeatable : String → Queue P H → Queue P H
  remove_repeatable key q = drop_interval key (map_get key q.intervals) q

  unfoldable pub close : Queue P H → Queue P H
  close q = record q {
    timeouts = [];
    intervals = [];
    host = clear_timers (map_values q.intervals) (clear_timers q.timeouts q.host);
  }

  abbrev pub run_of : Timer P → H → ℕ → Run P H
  run_of t handler now = record {
    handle = t.handle;
    every = t.every;
    due = t.due;
    at = now;
    handler = handler;
    payload = t.payload;
  }

  -- `run`: a job without a handler is dropped; what a handler throws is caught.
  abbrev pub run : Timer P → Option H → Queue P H → Queue P H
  run t none q = q
  run t (some handler) q = record q { runs = run_of t handler q.host.now ∷ q.runs }

  unfoldable pub fire : Timer P → Queue P H → Queue P H
  fire t q =
      run t (map_get t.name q.handlers)
        (record q { timeouts = settle t.every t.handle q.timeouts; host = spend t.every t q.host })

  unfoldable pub wait : ℕ → Queue P H → Queue P H
  wait ms q = record q { host = record q.host { now = q.host.now + ms } }

  -- A call of the queue, a timer of the host that is due, or time that goes by.
  pub data Step (q : Queue P H) : Queue P H → Type 0 where
    registers : (name : String) (handler : H) → Step q (register name handler q)
    enqueues :
        (name : String) (payload : P) (opts : EnqueueOptions) → Step q (enqueue name payload opts q)
    repeats :
        (name : String) (payload : P) (opts : RepeatOptions) → Step q (repeat name payload opts q).0
    removes : (key : String) → Step q (remove_repeatable key q)
    closes : Step q (close q)
    fires : (t : Timer P) → Some (λ x. x ≡ t) q.host.timers → t.due ≤ q.host.now → Step q (fire t q)
    waits : (ms : ℕ) → Step q (wait ms q)

  pub data Reach (q : Queue P H) : Queue P H → Type 0 where
    start : Reach q q
    next : {r s : Queue P H} → Reach q r → Step r s → Reach q s
