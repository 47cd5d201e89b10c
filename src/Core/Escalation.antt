-- ===== src/Core/Escalation.antt =====
-- packages/core/src/escalation/escalation.ts. A reason or rationale that the code builds as a text
-- is a constructor over the values that it interpolates.
pub mod Selection
pub mod Best
pub mod Lifecycle
pub mod Override
mod Tests
use nestai.Prelude.{
  ℕ, suc, ◌+◌, ◌-◌, Bool, true, false, not, ◌&&◌, ◌||◌, String, List, [], ◌∷◌, ◌++◌, Option, none,
  some, ltb, leb, ◌==◌, str_eq, if◌then◌else◌, includes, head?, map,
}
use nestai.Prelude.Int.{ℤ, pos, leb_ℤ}
use nestai.Prelude.Results.{Result, ok, throw, range_error, ◌>>=◌}
use nestai.Prelude.Sorting.{sort_by}
use nestai.Contracts.Enums.{
  Role, AvailabilityState, TaskUrgency, TaskStatus, is_dependent, is_available,
}
use nestai.Contracts.Entities.{IsoDateTime, Member, AvailabilityBlock}
use nestai.Core.Locale.{Locale}
use nestai.Core.Time.{Clock, date, invalid, windows_overlap, diff_minutes}

-- Urgency cascade

pub data CascadeMode : Type 0 where
  offer broadcast : CascadeMode

pub record CascadeDecision : Type 0 where
  pub mode : CascadeMode
  pub urgency : TaskUrgency

unfoldable pub classify_urgency_cascade : TaskUrgency → CascadeDecision
classify_urgency_cascade TaskUrgency.high = record { mode = broadcast; urgency = TaskUrgency.high }
classify_urgency_cascade TaskUrgency.critical = record {
  mode = broadcast;
  urgency = TaskUrgency.critical;
}
classify_urgency_cascade urgency = record { mode = offer; urgency = urgency }

-- Backup selection

pub record SelectBackupInput : Type 0 where
  pub members : List Member
  pub window_start : Clock
  pub window_end : Clock
  pub availability : List AvailabilityBlock
  pub requires_driving : Bool
  pub max_commute_minutes : Option ℕ
  pub exclude_member_ids : List String

pub data Reason : Type 0 where
  has_driving_privileges : Reason
  schedule_cleared : Reason
  available_now : Reason
  travelling : Reason
  can_drive : Reason
  commute : (minutes proximity : ℕ) → Reason

pub record BackupCandidate : Type 0 where
  pub member : Member
  pub score : ℕ
  pub reasons : List Reason

pub data SelectionRationale : Type 0 where
  selected_because : (display_name : String) → List Reason → SelectionRationale
  no_eligible_backup : SelectionRationale

pub record SelectBackupResult : Type 0 where
  pub selected : Option Member
  pub candidates : List BackupCandidate
  pub rationale : SelectionRationale

-- The loop of `hasClearedSchedule`; what a `let` binds waits for the tests before it.
unfoldable pub has_cleared_schedule : String → Clock → Clock → List AvailabilityBlock → Result Bool
has_cleared_schedule member_id window_start window_end [] = ok true
has_cleared_schedule member_id window_start window_end (block ∷ blocks) =
    let rest = has_cleared_schedule member_id window_start window_end blocks in
    if not (str_eq block.member_id member_id) || is_available block.kind
    then rest
    else (windows_overlap (date block.starts_at) (date block.ends_at) window_start window_end
        >>= λ overlaps. if overlaps then ok false else rest)

abbrev pub beyond_radius : Option ℕ → Option ℕ → Bool
beyond_radius none minutes = false
beyond_radius (some most) none = false
beyond_radius (some most) (some minutes) = ltb most minutes

abbrev pub state_score : AvailabilityState → ℕ
state_score AvailabilityState.available = 50
state_score AvailabilityState.travel = 10
state_score AvailabilityState.busy = 0

abbrev pub state_reasons : AvailabilityState → List Reason
state_reasons AvailabilityState.available = available_now ∷ []
state_reasons AvailabilityState.travel = travelling ∷ []
state_reasons AvailabilityState.busy = []

abbrev pub commute_score : Option ℕ → ℕ
commute_score none = 0
commute_score (some minutes) = 60 - minutes

abbrev pub commute_reasons : Option ℕ → List Reason
commute_reasons none = []
commute_reasons (some minutes) = commute minutes (60 - minutes) ∷ []

-- The candidate that the loop body pushes for an eligible member. `Math.max(0, 60 - m)` is the
-- difference of natural numbers.
unfoldable pub candidate : Bool → Member → BackupCandidate
candidate requires_driving m = record {
  member = m;
  score =
      state_score m.availability_state
      + (if m.driving_privileges then 10 else 0)
      + commute_score m.commute_minutes;
  reasons =
      (if requires_driving then has_driving_privileges ∷ [] else [])
      ++ (schedule_cleared ∷ state_reasons m.availability_state)
      ++ (if m.driving_privileges then can_drive ∷ [] else [])
      ++ commute_reasons m.commute_minutes;
}

-- The tests before the schedule is looked at.
abbrev pub ruled_out : SelectBackupInput → Member → Bool
ruled_out input m =
    includes m.id input.exclude_member_ids
    || not m.active
    || is_dependent m.role
    || (input.requires_driving && not m.driving_privileges)

-- One round of the loop: the member's candidate, if it is eligible.
unfoldable pub consider : SelectBackupInput → Member → Result (Option BackupCandidate)
consider input m =
    if ruled_out input m
    then ok none
    else (has_cleared_schedule m.id input.window_start input.window_end input.availability
        >>= λ cleared.
            if not cleared || beyond_radius input.max_commute_minutes m.commute_minutes
            then ok none
            else ok (some (candidate input.requires_driving m)))

abbrev pub push_some {ℓ} : {A : Type ℓ} → Option A → List A → List A
push_some none xs = xs
push_some (some x) xs = x ∷ xs

unfoldable pub collect : SelectBackupInput → List Member → Result (List BackupCandidate)
collect input [] = ok []
collect input (m ∷ ms) = do
  found ← consider input m
  rest ← collect input ms
  ok (push_some found rest)

-- The comparator: higher scores first, ties by member id.
abbrev pub before : Locale → BackupCandidate → BackupCandidate → Bool
before locale a b =
    if a.score == b.score then locale.le a.member.id b.member.id else ltb b.score a.score

abbrev pub selection_of : List BackupCandidate → SelectBackupResult
selection_of [] = record { selected = none; candidates = []; rationale = no_eligible_backup }
selection_of (best ∷ rest) = record {
  selected = some best.member;
  candidates = best ∷ rest;
  rationale = selected_because best.member.display_name best.reasons;
}

unfoldable pub select_backup : Locale → SelectBackupInput → Result SelectBackupResult
select_backup locale input = do
  candidates ← collect input input.members
  ok (selection_of (sort_by (before locale) candidates))

-- Claim and reject

pub record EscalationState : Type 0 where
  pub household_id : String
  pub task_id : String
  pub tier : ℕ
  pub deadline : Clock
  pub broadcast_at : Option IsoDateTime
  pub claimed_by_id : Option String
  pub resolved_at : Option IsoDateTime

pub record TaskPatch : Type 0 where
  pub status : Option TaskStatus
  pub assigned_member_id : Option String

pub data Outcome : Type 0 where
  already_claimed : Outcome
  claimed_and_locked : String → Outcome
  reject_ignored : Outcome
  rejected_to_tier : String → ℕ → Outcome

pub record ClaimResult : Type 0 where
  pub event : EscalationState
  pub task_patch : TaskPatch
  pub succeeded : Bool
  pub reason : Outcome

abbrev pub is_set {ℓ} : {A : Type ℓ} → Option A → Bool
is_set none = false
is_set (some a) = true

-- `new Date(toMs(now)).toISOString()`.
abbrev pub now_iso : Clock → Result IsoDateTime
now_iso (date t) = ok t
now_iso invalid = throw range_error

unfoldable pub claim : EscalationState → String → Clock → Result ClaimResult
claim event member_id now =
    if is_set event.resolved_at || is_set event.claimed_by_id
    then ok (record {
      event = event;
      task_patch = record { status = none; assigned_member_id = none };
      succeeded = false;
      reason = already_claimed;
    })
    else (now_iso now >>= λ t. ok (record {
      event = record event { claimed_by_id = some member_id; resolved_at = some t };
      task_patch = record { status = some TaskStatus.claimed; assigned_member_id = some member_id };
      succeeded = true;
      reason = claimed_and_locked member_id;
    }))

-- The patch that marks the rejecting member BUSY names the member.
pub record MemberPatch : Type 0 where
  pub id : String
  pub availability_state : AvailabilityState

pub record RejectResult : Type 0 where
  pub event : EscalationState
  pub member_patch : MemberPatch
  pub succeeded : Bool
  pub reason : Outcome

unfoldable pub reject : EscalationState → String → RejectResult
reject event member_id =
    if is_set event.resolved_at
    then record {
      event = event;
      member_patch = record { id = member_id; availability_state = AvailabilityState.busy };
      succeeded = false;
      reason = reject_ignored;
    }
    else record {
      event = record event { tier = event.tier + 1 };
      member_patch = record { id = member_id; availability_state = AvailabilityState.busy };
      succeeded = true;
      reason = rejected_to_tier member_id (event.tier + 1);
    }

-- Critical override

abbrev pub critical_override_minutes : ℕ
critical_override_minutes = 20

pub data OverrideReason : Type 0 where
  no_override_needed : OverrideReason
  critical_override : ℤ → OverrideReason
  still_open : ℤ → OverrideReason

pub record CriticalOverrideDecision : Type 0 where
  pub override : Bool
  pub minutes_to_deadline : ℤ
  pub reason : OverrideReason

unfoldable pub decide_critical_override : EscalationState → Clock → Result CriticalOverrideDecision
decide_critical_override event now = do
  minutes ← diff_minutes event.deadline now
  ok (
      if is_set event.claimed_by_id || is_set event.resolved_at
      then record { override = false; minutes_to_deadline = minutes; reason = no_override_needed }
      else if leb_ℤ minutes (pos critical_override_minutes)
      then record {
        override = true;
        minutes_to_deadline = minutes;
        reason = critical_override minutes;
      }
      else record { override = false; minutes_to_deadline = minutes; reason = still_open minutes })
