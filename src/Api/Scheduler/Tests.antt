-- ===== src/Api/Scheduler/Tests.antt =====
-- Runs of the scheduler, and its theorems at them.
use nestai.Prelude.{
  ℕ, ◌+◌, ◌-◌, ◌*◌, ◌≡◌, refl, true, false, not, String, List, [], ◌∷◌, map, Option, none, some,
  length, str_eq, if◌then◌else◌, leb, ◌&&◌,
}
use nestai.Prelude.Results.{ok}
use nestai.Contracts.Enums.{
  MilestoneStage, ProcessingStatus, AvailabilityState, AvailabilitySource, PiiTokenType,
}
use nestai.Contracts.Entities.{
  IsoDateTime, Household, Milestone, RawMessage, AvailabilityBlock, EscalationEvent,
}
use nestai.Core.Escalation.{decide_critical_override}
use nestai.Core.Samples.{noon}
use nestai.Core.Time.{minute, day, diff_minutes}
use nestai.Core.Text.{decimal}
use nestai.Api.Queue.{start, next, waits, register, repeat, remove_repeatable, close, wait}
use nestai.Api.Table.{Table}
use nestai.Api.Table.Rows.{list_table, distinct}
use nestai.Api.Scheduler.{
  register_handlers, schedule_repeatables, on_module_init, on_module_destroy, matches_local_time,
  run_daily_digest, run_sunday_checkin, fire_milestones, purge_sweep, time_events, escalation_timer,
}
use nestai.Api.Scheduler.Sweeps.{
  FiresAt, Blanks, Deletes, fire_milestones_once, purge_sweep-IsClean,
}
use nestai.Api.Scheduler.Shutdown.{started, stopped, on_module_destroy-leaves_none}

scheduler : Unit {0}
unfolding register_handlers schedule_repeatables on_module_init on_module_destroy matches_local_time
    run_daily_digest run_sunday_checkin fire_milestones purge_sweep time_events escalation_timer
    register repeat remove_repeatable close wait decimal distinct decide_critical_override
    diff_minutes
scheduler = tt

started_keys :
    (started false 0).repeat_keys
    ≡ "daily-digest#1" ∷ "sunday-checkin#2" ∷ "milestone-fire#3" ∷ "purge-sweep#4"
      ∷ "escalation-timer#5" ∷ []
unfolding scheduler
started_keys = refl

not_started : length (started true 0).queue.host.timers ≡ 0
unfolding scheduler
not_started = refl

on_module_destroy-leaves_none_example :
    (stopped false 0 (wait 7 (started false 0).queue)).host.timers ≡ []
on_module_destroy-leaves_none_example = on_module_destroy-leaves_none false 0 (next start (waits 7))

-- The two texts of the seed data's times.
abbrev number : String → Option ℕ
number s = if str_eq s "16" then some 16 else if str_eq s "30" then some 30 else none

abbrev no_zones : String → IsoDateTime → Option (ℕ × ℕ)
no_zones zone t = none

abbrev home : Household
home = record {
  id = "h-1";
  name = "Home";
  timezone = "Etc/UTC";
  digest_time_local = "16:30";
  sunday_checkin_time_local = "16:30";
}

-- Two checks that are fifteen minutes apart both find the same digest time.
fires_twice :
    map
      (λ t. run_daily_digest number no_zones (home ∷ []) t)
      ((noon + 260 * minute) ∷ (noon + 275 * minute) ∷ (noon + 290 * minute) ∷ [])
    ≡ 1 ∷ 1 ∷ 0 ∷ []
unfolding scheduler
fires_twice = refl

-- 4 June 2026 is a Thursday.
sundays :
    map
      (λ d. run_sunday_checkin number no_zones (home ∷ []) (noon + 275 * minute + d * day))
      (0 ∷ 3 ∷ [])
    ≡ 0 ∷ 1 ∷ []
unfolding scheduler
sundays = refl

abbrev milestones : Table Milestone (λ m. m.id)
milestones = list_table (λ m. m.id)

abbrev milestone : String → IsoDateTime → Milestone
milestone id at = record {
  id = id;
  household_id = "h-1";
  seasonal_project_id = "p-1";
  stage = MilestoneStage.jit_15m;
  fire_at = at;
  content = "Go";
  fired = false;
}

abbrev two_milestones : List Milestone
two_milestones = milestone "m-1" noon ∷ milestone "m-2" (noon + day) ∷ []

one_fires :
    fire_milestones milestones noon two_milestones
    ≡ (record (milestone "m-1" noon) { fired = true } ∷ milestone "m-2" (noon + day) ∷ [], 1)
unfolding scheduler
one_fires = refl

fire_milestones_once_example :
    ((k : String)
      → FiresAt noon
          (milestones.find_unique k two_milestones)
          (milestones.find_unique k (fire_milestones milestones noon two_milestones).0))
    × ((fire_milestones milestones noon two_milestones).1
        ≡ length (milestones.find_many (λ m. not m.fired && leb m.fire_at noon) two_milestones))
    × (fire_milestones milestones noon (fire_milestones milestones noon two_milestones).0
        ≡ ((fire_milestones milestones noon two_milestones).0, 0))
fire_milestones_once_example = fire_milestones_once milestones noon two_milestones

abbrev messages : Table RawMessage (λ m. m.id)
messages = list_table (λ m. m.id)

abbrev blocks : Table AvailabilityBlock (λ b. b.id)
blocks = list_table (λ b. b.id)

-- A message with the address that was taken out of its text.
abbrev old_message : RawMessage
old_message = record {
  id = "r-1";
  household_id = "h-1";
  source_id = none;
  raw_text = "Pick up at 1 Main St";
  scrubbed_text = some "Pick up at [ADDRESS_1]";
  token_map = some (
      record { token = "[ADDRESS_1]"; type = PiiTokenType.address; original = some "1 Main St" }
      ∷ []);
  media_url = none;
  media_type = none;
  received_at = noon - day;
  processed_at = none;
  purge_after = some noon;
  status = ProcessingStatus.processed;
}

abbrev old_block : AvailabilityBlock
old_block = record {
  id = "b-1";
  household_id = "h-1";
  member_id = "mum";
  kind = AvailabilityState.busy;
  starts_at = noon + day;
  ends_at = noon + 2 * day;
  source = AvailabilitySource.nl_text;
  purge_raw_after = some noon;
}

abbrev rows : List RawMessage × List AvailabilityBlock
rows = (old_message ∷ [], old_block ∷ [])

-- The map of tokens keeps what the sweep takes out of the text, and the block is gone a day before
-- it starts.
originals_stay : purge_sweep messages blocks noon rows ≡ (
  (record old_message { raw_text = ""; scrubbed_text = none } ∷ [], []),
  record { messages = 1; blocks = 1 },
)
unfolding scheduler
originals_stay = refl

purge_sweep-IsClean_example :
    ((k : String)
      → Blanks noon
          (messages.find_unique k rows.0)
          (messages.find_unique k (purge_sweep messages blocks noon rows).0.0))
    × ((k : String)
        → Deletes noon
            (blocks.find_unique k rows.1)
            (blocks.find_unique k (purge_sweep messages blocks noon rows).0.1))
    × ((purge_sweep messages blocks noon (purge_sweep messages blocks noon rows).0).1
        ≡ record { messages = 0; blocks = 0 })
purge_sweep-IsClean_example = purge_sweep-IsClean messages blocks noon rows

abbrev events : Table EscalationEvent (λ e. e.id)
events = list_table (λ e. e.id)

abbrev event : EscalationEvent
event = record {
  id = "e-1";
  household_id = "h-1";
  task_id = "t-1";
  tier = 1;
  broadcast_at = none;
  claimed_by_id = none;
  resolved_at = none;
  deadline = noon + 20 * minute;
  created_at = noon - 10 * minute;
}

timed :
    escalation_timer events noon (event ∷ [])
    ≡ (record event { broadcast_at = some noon } ∷ [], ok (record { broadcast = 1; overrides = 1 }))
unfolding scheduler
timed = refl
