-- ===== src/Api/Scheduler.antt =====
-- services/api/src/scheduler/scheduler.service.ts. `number` is what `Number` makes of the texts of
-- natural numbers, none for NaN; `local` is the hour and the minute that the host's `Intl` gives for
-- a time in a time zone, none when it throws. The sweeps run one after the other.
pub mod Sweeps
pub mod Shutdown
mod Tests
use Prim.Native.Char.{code}
use Prim.Native.String
use nestai.Prelude.{
  ℕ, suc, ◌+◌, ◌-◌, ◌*◌, ◌/◌, ◌%◌, Bool, true, false, not, ◌&&◌, String, List, [], ◌∷◌, ◌++◌, map,
  Option, none, some, ltb, leb, ◌==◌, str_eq, if◌then◌else◌, filter, length, includes,
}
use nestai.Prelude.Results.{Result, ok, throw, ◌>>=◌}
use nestai.Contracts.Entities.{
  IsoDateTime, Household, Milestone, RawMessage, AvailabilityBlock, EscalationEvent,
}
use nestai.Core.Escalation.{decide_critical_override, is_set}
use nestai.Core.Text.{◌+++◌}
use nestai.Core.Time.{date, minute, day}
use nestai.Api.Queue.{Queue, RepeatOptions, register, repeat, remove_repeatable, close}
use nestai.Api.Table.{Table}
use nestai.Api.TaskRows.{state_of}

-- The names of the jobs.
pub data Job : Type 0 where
  daily_digest sunday_checkin milestone_fire purge_sweep_job escalation_timer_job : Job

abbrev pub job_name : Job → String
job_name daily_digest = "daily-digest"
job_name sunday_checkin = "sunday-checkin"
job_name milestone_fire = "milestone-fire"
job_name purge_sweep_job = "purge-sweep"
job_name escalation_timer_job = "escalation-timer"

abbrev hour : ℕ
hour = 60 * minute

abbrev pub jobs : List Job
jobs = daily_digest ∷ sunday_checkin ∷ milestone_fire ∷ purge_sweep_job ∷ escalation_timer_job ∷ []

-- How often a job runs on the in-memory queue, and its schedule on the other one.
abbrev pub repeat_options : Job → RepeatOptions
repeat_options daily_digest = record { every_ms = some (15 * minute); cron = some "*/15 * * * *" }
repeat_options sunday_checkin = record { every_ms = some (15 * minute); cron = some "*/15 * * * *" }
repeat_options milestone_fire = record { every_ms = some (5 * minute); cron = some "*/5 * * * *" }
repeat_options purge_sweep_job = record { every_ms = some hour; cron = some "0 * * * *" }
repeat_options escalation_timer_job = record { every_ms = some minute; cron = some "* * * * *" }

-- The service's keys, and its queue, whose handlers are the jobs and whose payloads are all `{}`.
pub record Scheduler : Type 0 where
  pub repeat_keys : List String
  pub queue : Queue (Unit {0}) Job

abbrev pub register_all : List Job → Queue (Unit {0}) Job → Queue (Unit {0}) Job
register_all [] q = q
register_all (job ∷ rest) q = register_all rest (register (job_name job) job q)

unfoldable pub register_handlers : Scheduler → Scheduler
register_handlers s = record s { queue = register_all jobs s.queue }

abbrev pub with_key :
    Result String
    → Queue (Unit {0}) Job
    → Queue (Unit {0}) Job × Result (List String)
    → Queue (Unit {0}) Job × Result (List String)
with_key (throw fault) q rest = (q, throw fault)
with_key (ok key) q (q', keys) = (q', keys >>= λ ks. ok (key ∷ ks))

-- `push` comes after all the calls have returned a key.
abbrev pub repeat_all :
    List Job → Queue (Unit {0}) Job → Queue (Unit {0}) Job × Result (List String)
repeat_all [] q = (q, ok [])
repeat_all (job ∷ rest) q =
    let (q', key) = repeat (job_name job) tt (repeat_options job) q in
    with_key key q' (repeat_all rest q')

abbrev pub add_keys :
    Scheduler → Queue (Unit {0}) Job × Result (List String) → Scheduler × Result (Unit {0})
add_keys s (q, throw fault) = (record s { queue = q }, throw fault)
add_keys s (q, ok keys) = (record { repeat_keys = s.repeat_keys ++ keys; queue = q }, ok tt)

unfoldable pub schedule_repeatables : Scheduler → Scheduler × Result (Unit {0})
schedule_repeatables s = add_keys s (repeat_all jobs s.queue)

-- `disabled`: in tests, and where the environment says so.
unfoldable pub on_module_init : Bool → Scheduler → Scheduler × Result (Unit {0})
on_module_init disabled s =
    let started : Scheduler × Result (Unit {0}) = schedule_repeatables (register_handlers s) in
    if disabled then (register_handlers s, ok tt) else started

abbrev pub remove_all : List String → Queue (Unit {0}) Job → Queue (Unit {0}) Job
remove_all [] q = q
remove_all (key ∷ keys) q = remove_all keys (remove_repeatable key q)

unfoldable pub on_module_destroy : Scheduler → Scheduler
on_module_destroy s = record s { queue = close (remove_all s.repeat_keys s.queue) }

-- `hhmm.split(':')`: the first part, and the second if there is one.
abbrev up_to_colon : String → String
up_to_colon String.[] = ""
up_to_colon (String.◌∷◌ c s) = if code c == b':' then "" else String.◌∷◌ c (up_to_colon s)

abbrev after_colon : String → Option String
after_colon String.[] = none
after_colon (String.◌∷◌ c s) = if code c == b':' then some s else after_colon s

abbrev second_part : Option String → Option String
second_part none = none
second_part (some rest) = some (up_to_colon rest)

-- The UTC hour and minute.
abbrev pub utc : IsoDateTime → ℕ × ℕ
utc t = (t / hour % 24, t / minute % 60)

-- `Math.abs(a - b)`
abbrev distance : ℕ → ℕ → ℕ
distance a b = if leb a b then b - a else a - b

abbrev pub in_window : ℕ × ℕ → Option ℕ → Option ℕ → Bool
in_window (local_hour, local_min) (some h) (some m) =
    local_hour == h && ltb (distance local_min m) 15
in_window now h m = false

-- 1970-01-01 was a Thursday, a hundred million days after the earliest date.
abbrev utc_day : IsoDateTime → ℕ
utc_day t = (t / day + 2) % 7

module _ (number : String → Option ℕ) (local : String → IsoDateTime → Option (ℕ × ℕ)) where
  abbrev number_of_part : Option String → Option ℕ
  number_of_part none = none
  number_of_part (some text) = number text

  abbrev local_or_utc : String → IsoDateTime → ℕ × ℕ
  local_or_utc timezone now = elim (local timezone now) [ none ↦ utc now | some fields ↦ fields ]

  unfoldable pub matches_local_time : String → String → IsoDateTime → Bool
  matches_local_time hhmm timezone now =
      in_window (local_or_utc timezone now) (number (up_to_colon hhmm))
        (number_of_part (second_part (after_colon hhmm)))

  unfoldable pub run_daily_digest : List Household → IsoDateTime → ℕ
  run_daily_digest households now =
      length (filter (λ h. matches_local_time h.digest_time_local h.timezone now) households)

  unfoldable pub run_sunday_checkin : List Household → IsoDateTime → ℕ
  run_sunday_checkin households now =
      if not (utc_day now == 0)
      then 0
      else length
          (filter (λ h. matches_local_time h.sunday_checkin_time_local h.timezone now) households)

-- `{ fired: false, fireAt: { lte: now } }`
abbrev pub is_due : IsoDateTime → Milestone → Bool
is_due now m = not m.fired && leb m.fire_at now

abbrev is_empty : List Milestone → Bool
is_empty [] = true
is_empty (m ∷ ms) = false

abbrev pub listed_in : List Milestone → Milestone → Bool
listed_in due m = includes m.id (map (λ x. x.id) due)

abbrev pub set_fired : Milestone → Milestone
set_fired m = record m { fired = true }

unfoldable pub fire_milestones :
    (table : Table Milestone (λ m. m.id)) → IsoDateTime → table.Rows → table.Rows × ℕ
fire_milestones table now rows =
    let due : List Milestone = table.find_many (is_due now) rows in
    if is_empty due
    then (rows, 0)
    else (table.update_many (listed_in due) set_fired rows, length due)

-- A column that may be null passes no comparison when it is.
abbrev pub passed : Option IsoDateTime → IsoDateTime → Bool
passed none now = false
passed (some t) now = leb t now

-- `{ purgeAfter: { lte: now }, rawText: { not: '' } }`
abbrev pub is_overdue : IsoDateTime → RawMessage → Bool
is_overdue now m = passed m.purge_after now && not (str_eq m.raw_text "")

-- A column that is set to undefined keeps its value: `tokenMap` stays.
abbrev pub blank : RawMessage → RawMessage
blank m = record m { raw_text = ""; scrubbed_text = none; media_url = none; media_type = none }

abbrev pub is_expired : IsoDateTime → AvailabilityBlock → Bool
is_expired now b = passed b.purge_raw_after now

pub record Purged : Type 0 where
  pub messages : ℕ
  pub blocks : ℕ

unfoldable pub purge_sweep :
    (messages : Table RawMessage (λ m. m.id)) (blocks : Table AvailabilityBlock (λ b. b.id))
    → IsoDateTime
    → messages.Rows × blocks.Rows
    → (messages.Rows × blocks.Rows) × Purged
purge_sweep messages blocks now (ms, bs) = (
  (messages.update_many (is_overdue now) blank ms, blocks.delete_many (is_expired now) bs),
  record {
    messages = length (messages.find_many (is_overdue now) ms);
    blocks = length (blocks.find_many (is_expired now) bs);
  },
)

-- The open events that are to be broadcast: `createdAt` at least ten minutes ago.
abbrev pub is_waiting : IsoDateTime → EscalationEvent → Bool
is_waiting now e = not (is_set e.broadcast_at) && leb (e.created_at + 10 * minute) now

pub record TimerResult : Type 0 where
  pub broadcast : ℕ
  pub overrides : ℕ

module _ (table : Table EscalationEvent (λ e. e.id)) (now : IsoDateTime) where
  abbrev broadcast_row : EscalationEvent → table.Rows → table.Rows
  broadcast_row e rows = table.update e.id (λ x. record x { broadcast_at = some now }) rows

  abbrev plus : Bool → ℕ → ℕ
  plus b n = if b then suc n else n

  -- The loop over the open events; what is thrown leaves the earlier updates in place.
  unfoldable pub time_events :
      List EscalationEvent → table.Rows → TimerResult → table.Rows × Result TimerResult
  time_events [] rows total = (rows, ok total)
  time_events (e ∷ es) rows total =
      let rows' : table.Rows = if is_waiting now e then broadcast_row e rows else rows in
      let counted : Bool → TimerResult = λ override. record {
        broadcast = plus (is_waiting now e) total.broadcast;
        overrides = plus override total.overrides;
      } in
      elim (decide_critical_override (state_of e.household_id e.task_id e) (date now)) [
        | throw fault ↦ (rows', throw fault)
        | ok decision ↦ time_events es rows' (counted decision.override)
      ]

  unfoldable pub escalation_timer : table.Rows → table.Rows × Result TimerResult
  escalation_timer rows =
      time_events (table.find_many (λ e. not (is_set e.resolved_at)) rows) rows
        (record { broadcast = 0; overrides = 0 })
