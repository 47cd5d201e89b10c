-- ===== src/Core/Escalation/Tests.antt =====
-- Runs of escalation.ts, and its theorems at concrete inputs.
use nestai.Prelude.{◌+◌, ◌*◌, ◌<◌, ◌≡◌, ◌↔◌, refl, true, [], ◌∷◌, none, some, All}
use nestai.Prelude.Sorting.{sort_by}
use nestai.Prelude.Results.{ok}
use nestai.Contracts.Enums.{AvailabilityState, AvailabilitySource}
use nestai.Contracts.Entities.{AvailabilityBlock}
use nestai.Core.Samples.{code_points, noon, dad, family}
use nestai.Core.Time.{date, minute, windows_overlap, diff_minutes}
use nestai.Core.Escalation.{
  SelectBackupInput, SelectBackupResult, EscalationState, ClaimResult, CriticalOverrideDecision,
  selection_of, candidate, collect, consider, has_cleared_schedule, select_backup, claim, reject,
  decide_critical_override, already_claimed,
}
use nestai.Core.Escalation.Selection.{IsEligible}
use nestai.Core.Escalation.Best.{IsBest, select_backup-IsBest, select_backup-none}
use nestai.Core.Escalation.Lifecycle.{
  Reach, IsLocked, Keeps, claim-claim, locked-Reach, Reach-Keeps,
}
use nestai.Core.Escalation.Override.{decide_critical_override_iff}

-- Mum's schedule is taken; dad is free.
abbrev busy_mum : AvailabilityBlock
busy_mum = record {
  id = "b-1";
  household_id = "h-1";
  member_id = "mum";
  kind = AvailabilityState.busy;
  starts_at = noon;
  ends_at = noon + 30 * minute;
  source = AvailabilitySource.nl_text;
  purge_raw_after = none;
}

abbrev pickup : SelectBackupInput
pickup = record {
  members = family;
  window_start = date noon;
  window_end = date (noon + 60 * minute);
  availability = busy_mum ∷ [];
  requires_driving = true;
  max_commute_minutes = some 45;
  exclude_member_ids = [];
}

escalation : Unit {0}
unfolding select_backup collect consider has_cleared_schedule candidate sort_by windows_overlap
    claim reject decide_critical_override diff_minutes
escalation = tt

abbrev picked : SelectBackupResult
picked = selection_of (candidate true dad ∷ [])

select_backup_runs : select_backup code_points pickup ≡ ok picked
unfolding escalation
select_backup_runs = refl

dad_scores : (candidate true dad).score ≡ 80
unfolding escalation
dad_scores = refl

select_backup-IsBest_example : IsBest pickup noon (noon + 60 * minute) dad
unfolding escalation
select_backup-IsBest_example =
    select_backup-IsBest code_points pickup noon (noon + 60 * minute) refl refl picked dad
      select_backup_runs refl

select_backup-none_example :
    (r : SelectBackupResult) × (select_backup code_points pickup ≡ ok r)
    × ((r.selected ≡ none) ↔ All (λ x. ¬ IsEligible pickup noon (noon + 60 * minute) x) family)
select_backup-none_example =
    select_backup-none code_points pickup noon (noon + 60 * minute) refl refl

abbrev dropped : EscalationState
dropped = record {
  household_id = "h-1";
  task_id = "t-1";
  tier = 0;
  deadline = date (noon + 20 * minute);
  broadcast_at = none;
  claimed_by_id = none;
  resolved_at = none;
}

abbrev locked : EscalationState
locked = record dropped { claimed_by_id = some "dad"; resolved_at = some noon }

abbrev dads_claim : ClaimResult
dads_claim = record {
  event = locked;
  task_patch = record {
    status = some nestai.Contracts.Enums.TaskStatus.claimed;
    assigned_member_id = some "dad";
  };
  succeeded = true;
  reason = nestai.Core.Escalation.claimed_and_locked "dad";
}

claim_runs : claim dropped "dad" (date noon) ≡ ok dads_claim
unfolding escalation
claim_runs = refl

locked_history : Reach locked (reject locked "mum").event
locked_history = Reach.next Reach.here (nestai.Core.Escalation.Lifecycle.rejects "mum" refl)

locked-Reach_example : (reject locked "mum").event ≡ locked
locked-Reach_example = locked-Reach (record { claimed = refl; resolved = refl }) locked_history

claimed_history : Reach dropped locked
claimed_history =
    Reach.next Reach.here
      (nestai.Core.Escalation.Lifecycle.claims "dad" (date noon) dads_claim claim_runs refl)

Reach-Keeps_example : Keeps dropped locked
Reach-Keeps_example = Reach-Keeps refl claimed_history

decide_critical_override_iff_example :
    (d : CriticalOverrideDecision) × (decide_critical_override dropped (date noon) ≡ ok d)
    × ((d.override ≡ true) ↔ (
        (dropped.claimed_by_id ≡ none)
        × (dropped.resolved_at ≡ none)
        × (noon + 20 * minute < noon + 21 * minute)))
decide_critical_override_iff_example =
    decide_critical_override_iff dropped (noon + 20 * minute) noon refl
