-- ===== src/Api/Escalations/Tests.antt =====
-- Runs of escalation.service.ts on a small store, and its theorems at concrete inputs.
use nestai.Prelude.{◌+◌, ◌*◌, ◌≡◌, ◌↔◌, refl, false, String, [], ◌∷◌, none, some, Some, length}
use nestai.Prelude.Results.{ok}
use nestai.Prelude.Sorting.{sort_by}
use nestai.Contracts.Enums.{TaskUrgency, AvailabilityState, AvailabilitySource}
use nestai.Contracts.Entities.{EscalationEvent, AvailabilityBlock}
use nestai.Core.Time.{minute, diff_minutes, windows_overlap}
use nestai.Core.Samples.{code_points, noon, mum, family}
use nestai.Core.Escalation.{
  select_backup, collect, consider, candidate, has_cleared_schedule, classify_urgency_cascade,
  decide_critical_override, selected_because,
}
use nestai.Core.Escalation.Selection.{LeavesFree}
use nestai.Api.Table.Rows.{list_table, distinct}
use nestai.Api.Database.{Database, Store}
use nestai.Api.Tasks.Writes.{Spares}
use nestai.Api.Escalations
use nestai.Api.Escalations.{
  BroadcastResult, SweepResult, overrides_of, open_events, sweep_critical_overrides, window_start,
}
use nestai.Api.Escalations.Sweep.{IsReported, sweep_critical_overrides_iff}
use nestai.Api.Escalations.Backup.{IsBackup, broadcast-IsBackup}

abbrev db : Database
db = record {
  task = list_table (λ t. t.id);
  member = list_table (λ m. m.id);
  routing_rule = list_table (λ r. r.id);
  escalation_event = list_table (λ e. e.id);
  availability_block = list_table (λ b. b.id);
}

-- The deadline is twenty minutes and a half away.
abbrev event : EscalationEvent
event = record {
  id = "e-1";
  household_id = "h-1";
  task_id = "t-1";
  tier = 0;
  broadcast_at = none;
  claimed_by_id = none;
  resolved_at = none;
  deadline = noon + 1_230_000;
  created_at = noon;
}

-- Mum is busy three hours from now.
abbrev evening : AvailabilityBlock
evening = record {
  id = "b-1";
  household_id = "h-1";
  member_id = "mum";
  kind = AvailabilityState.busy;
  starts_at = noon + 180 * minute;
  ends_at = noon + 240 * minute;
  source = AvailabilitySource.nl_text;
  purge_raw_after = none;
}

abbrev store : Store db
store = record {
  tasks = [];
  members = family;
  rules = [];
  escalations = event ∷ record event { id = "e-2"; deadline = noon + 21 * minute } ∷ [];
  availability = evening ∷ [];
}

sweep_run :
    (sweep_critical_overrides db (some "h-1") noon store).1
    ≡ ok (record { checked = 2; overrides = "e-1" ∷ [] })
unfolding sweep_critical_overrides overrides_of distinct decide_critical_override diff_minutes
sweep_run = refl

sweep_critical_overrides_iff_example :
    (r : SweepResult) × (sweep_critical_overrides db (some "h-1") noon store ≡ (store, ok r))
    × (r.checked ≡ length (open_events db (some "h-1") "h-1" store))
    × ((k : String)
        → Some (λ x. x ≡ k) r.overrides ↔ IsReported db (some "h-1") "h-1" refl noon store k)
sweep_critical_overrides_iff_example =
    sweep_critical_overrides_iff db (some "h-1") "h-1" refl noon store

selecting : Unit {0}
unfolding Escalations.broadcast select_backup collect consider candidate has_cleared_schedule
    classify_urgency_cascade distinct sort_by
selecting = tt

abbrev selects_mum : BroadcastResult
selects_mum = record {
  cascade = classify_urgency_cascade TaskUrgency.med;
  selected = some mum;
  candidates = candidate false mum ∷ [];
  rationale = selected_because "mum" (candidate false mum).reasons;
}

broadcast_run :
    (Escalations.broadcast db (some "h-1") code_points noon "e-1" ("dad" ∷ []) store).1
    ≡ ok selects_mum
unfolding selecting windows_overlap
broadcast_run = refl

broadcast-IsBackup_example :
    IsBackup db "h-1" store ("dad" ∷ []) mum
    × LeavesFree "mum" noon (noon + 120 * minute) evening
    × (event.household_id ≡ "h-1")
    × Spares db "h-1" store
        (Escalations.broadcast db (some "h-1") code_points noon "e-1" ("dad" ∷ []) store).0
broadcast-IsBackup_example =
    broadcast-IsBackup db (some "h-1") "h-1" refl code_points noon "e-1" ("dad" ∷ []) store event
      selects_mum mum evening refl broadcast_run refl refl refl
