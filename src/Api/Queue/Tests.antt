-- ===== src/Api/Queue/Tests.antt =====
-- A run of the queue, and its theorems at it.
use nestai.Prelude.{
  ℕ, ◌≤◌, ◌≡◌, refl, String, List, [], ◌∷◌, ◌++◌, none, some, arith, here, All, there, ◌≢◌, ◌⊎◌,
  ◌+◌,
}
use nestai.Prelude.Int.{pos}
use nestai.Prelude.Results.{ok, throw, no_interval}
use nestai.Api.Queue.{
  Timer, Run, Queue, EnqueueOptions, RepeatOptions, Reach, registers, enqueues, repeats, removes,
  fires, waits, start, next, register, enqueue, repeat, remove_repeatable, close, fire, wait, empty,
}
use nestai.Api.Queue.Delays.{enqueue-runs_once}
use nestai.Prelude.Sorting.{Pairwise}
use nestai.Api.Queue.Cancelled.{close-cancels}
use nestai.Api.Queue.Calendar.{update, calendar, queue-Refines}
use nestai.Core.Text.{decimal}

queue : Unit {0}
unfolding register enqueue repeat remove_repeatable close fire wait decimal
queue = tt

-- Handlers are numbers, and payloads texts.
abbrev Jobs : Type 0
Jobs = Queue String ℕ

abbrev soon : EnqueueOptions
soon = record { delay_ms = some (pos 5) }

abbrev hourly : RepeatOptions
hourly = record { every_ms = some 3_600_000; cron = none }

abbrev by_cron : RepeatOptions
by_cron = record { every_ms = none; cron = some "0 * * * *" }

abbrev registered : Jobs
registered = register "ping" 1 (empty 0)

abbrev enqueued : Jobs
enqueued = enqueue "ping" "hello" soon registered

abbrev repeated : Jobs
repeated = (repeat "ping" "again" hourly enqueued).0

abbrev waited : Jobs
waited = wait 7 repeated

abbrev ping : Timer String
ping = record { handle = 0; due = 5; every = none; name = "ping"; payload = "hello" }

abbrev fired : Jobs
fired = fire ping waited

to_repeated : Reach (empty 0) repeated
to_repeated =
    next (next (next start (registers "ping" 1)) (enqueues "ping" "hello" soon))
      (repeats "ping" "again" hourly)

to_fired : Reach (empty 0) fired
unfolding queue
to_fired = next (next to_repeated (waits 7)) (fires ping (there (here refl)) (omega arith))

one_run :
    fired.runs
    ≡ record { handle = 0; every = none; due = 5; at = 7; handler = 1; payload = "hello" } ∷ []
unfolding queue
one_run = refl

keys_are_numbered : (repeat "ping" "again" hourly enqueued).1 ≡ ok "ping#1"
unfolding queue
keys_are_numbered = refl

cron_is_refused : repeat "ping" "again" by_cron enqueued ≡ (enqueued, throw no_interval)
unfolding queue
cron_is_refused = refl

removed : (remove_repeatable "ping#1" fired).host.timers ≡ []
unfolding queue
removed = refl

-- A delay of more than 2 ^ 31 - 1 milliseconds is one of a millisecond.
long_delay :
    (enqueue "ping" "late" (record { delay_ms = some (pos 2_147_483_648) }) registered).host.timers
    ≡ record { handle = 0; due = 1; every = none; name = "ping"; payload = "late" } ∷ []
unfolding queue
long_delay = refl

from_enqueued : Reach enqueued fired
unfolding queue
from_enqueued =
    next (next (next start (repeats "ping" "again" hourly)) (waits 7))
      (fires ping (there (here refl)) (omega arith))

enqueue-runs_once_example :
    All
      (λ x.
        (x.handle ≢ registered.host.next)
        ⊎ ((x.every ≡ none) × (registered.host.now + 5 ≤ x.at) × (x.payload ≡ "hello")))
      fired.runs
    × Pairwise
        (λ later earlier.
          (later.handle ≢ registered.host.next) ⊎ (earlier.handle ≢ registered.host.next))
        fired.runs
enqueue-runs_once_example =
    enqueue-runs_once "ping" "hello" 5 (next start (registers "ping" 1)) (omega arith) (omega arith)
      from_enqueued

abbrev reopened : Jobs
reopened = enqueue "ping" "hello" soon (close repeated)

close-cancels_example :
    (later : List (Run String ℕ)) × (reopened.runs ≡ later ++ repeated.runs)
    × All (λ x. repeated.host.next ≤ x.handle) later
close-cancels_example = close-cancels to_repeated (next start (enqueues "ping" "hello" soon))

queue-Refines_example :
    (calendar (remove_repeatable "ping#1" waited) ≡ update (calendar waited) "ping#1" none)
    × All
        (λ t. calendar waited "ping#1" ≢ some t.handle)
        (remove_repeatable "ping#1" waited).host.timers
queue-Refines_example = queue-Refines (next to_repeated (waits 7)) (removes "ping#1")
