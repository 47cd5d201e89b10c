-- ===== src/Api/Escalations.antt =====
-- services/api/src/modules/escalation/escalation.service.ts: the broadcast of an escalation to a
-- backup, and the sweep for critical overrides. The time is an argument.
pub mod Sweep
pub mod Backup
mod Tests
use nestai.Prelude.{
  ℕ, ◌+◌, ◌*◌, Bool, true, false, ◌&&◌, String, List, [], ◌∷◌, Option, none, some, str_eq, length,
  if◌then◌else◌,
}
use nestai.Prelude.Int.{pos}
use nestai.Prelude.Results
use nestai.Prelude.Results.{Result, ok, throw}
use nestai.Contracts.Enums.{TaskUrgency}
use nestai.Contracts.Entities.{IsoDateTime, Member, Task, EscalationEvent}
use nestai.Core.Locale.{Locale}
use nestai.Core.Time.{date, minute, shift}
use nestai.Core.Escalation.{
  CascadeDecision, SelectBackupInput, BackupCandidate, SelectionRationale, EscalationState,
  classify_urgency_cascade, select_backup, decide_critical_override, is_set, now_iso,
}
use nestai.Api.Database.{
  Database, Store, TenantContext, household_id, find_task, find_escalation, update_escalation,
}
use nestai.Api.Action.{Action, ◌>>=◌, return, lift}
use nestai.Api.TaskRows.{or_else, state_of}
use nestai.Api.Tasks.{owned_or_404}

pub record BroadcastResult : Type 0 where
  pub cascade : CascadeDecision
  pub selected : Option Member
  pub candidates : List BackupCandidate
  pub rationale : SelectionRationale

pub record SweepResult : Type 0 where
  pub checked : ℕ
  pub overrides : List String

-- `task?.dueAt ?? new Date()`.
abbrev pub window_start : Option Task → IsoDateTime → IsoDateTime
window_start none now = now
window_start (some task) now = or_else task.due_at now

abbrev pub urgency_of : Option Task → TaskUrgency
urgency_of none = TaskUrgency.med
urgency_of (some task) = task.urgency

-- The loop over the open events.
unfoldable pub overrides_of : String → IsoDateTime → List EscalationEvent → Result (List String)
overrides_of household now [] = ok []
overrides_of household now (e ∷ es) =
    Results.and_then (decide_critical_override (state_of household e.task_id e) (date now))
      (λ decision.
        Results.and_then (overrides_of household now es)
          (λ rest. ok (if decision.override then e.id ∷ rest else rest)))

-- `where: { resolvedAt: null, householdId }`.
abbrev pub is_unresolved : String → EscalationEvent → Bool
is_unresolved household e =
    (if is_set e.resolved_at then false else true) && str_eq e.household_id household

module _ (db : Database) (tenant : TenantContext) where
  -- What the engine is asked: the active members and the availability of the household, over two
  -- hours. No driving and no radius are asked for.
  abbrev pub backup_input :
      String → List String → IsoDateTime → IsoDateTime → Store db → SelectBackupInput
  backup_input household exclude start end s = record {
    members = db.member.find_many (λ m. m.active && str_eq m.household_id household) s.members;
    window_start = date start;
    window_end = date end;
    availability =
        db.availability_block.find_many (λ b. str_eq b.household_id household) s.availability;
    requires_driving = false;
    max_commute_minutes = none;
    exclude_member_ids = exclude;
  }

  unfoldable pub broadcast :
      Locale → IsoDateTime → String → List String → Action (Store db) BroadcastResult
  broadcast locale now escalation_id exclude = do
    row ← find_escalation db escalation_id
    event ← owned_or_404 db tenant (λ e. e.household_id) row
    task ← find_task db event.task_id
    household ← lift (household_id tenant)
    end ← lift (now_iso (shift (window_start task now) (pos (120 * minute))))
    selection ← λ s.
        (s, select_backup locale (backup_input household exclude (window_start task now) end s))
    updated ← update_escalation db escalation_id (λ e. record e { broadcast_at = some now })
    return (record {
      cascade = classify_urgency_cascade (urgency_of task);
      selected = selection.selected;
      candidates = selection.candidates;
      rationale = selection.rationale;
    })

  -- The events that the sweep looks at.
  abbrev pub open_events : String → Store db → List EscalationEvent
  open_events household s = db.escalation_event.find_many (is_unresolved household) s.escalations

  unfoldable pub sweep_critical_overrides : IsoDateTime → Action (Store db) SweepResult
  sweep_critical_overrides now = do
    household ← lift (household_id tenant)
    unresolved ← λ s. (s, ok (open_events household s))
    overrides ← lift (overrides_of household now unresolved)
    return (record { checked = length unresolved; overrides = overrides })
