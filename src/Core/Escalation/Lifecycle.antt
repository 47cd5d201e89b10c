-- ===== src/Core/Escalation/Lifecycle.antt =====
-- escalation.ts, claim and reject: the event as a state machine, and what its lock guarantees.
use nestai.Prelude.{◌≤◌, ◌≡◌, refl, ◌∙◌, true, false, String, none, some, arith}
use nestai.Prelude.Results.{ok}
use nestai.Core.Time.{Clock, date, invalid}
use nestai.Core.Escalation.{EscalationState, ClaimResult, claim, reject, is_set, already_claimed}

-- One call on an event: a claim that does not throw, or a reject.
pub data Step (e u : EscalationState) : Type 0 where
  claims :
      (m : String) (now : Clock) (r : ClaimResult) → claim e m now ≡ ok r → u ≡ r.event → Step e u
  rejects : (m : String) → u ≡ (reject e m).event → Step e u

pub data Reach (e : EscalationState) : EscalationState → Type 0 where
  here : Reach e e
  next : {t u : EscalationState} → Reach e t → Step t u → Reach e u

-- Claimed and resolved together, as `claim` leaves an event.
pub record IsLocked (e : EscalationState) (m : String) : Type 0 where
  pub claimed : e.claimed_by_id ≡ some m
  pub resolved : is_set e.resolved_at ≡ true

-- A claim that succeeds locks the event for its member: whoever claims it again, at any time, even
-- an invalid one, is told that the event is already claimed, with an empty patch for the task and
-- the event as it was.
pub claim-claim :
    (e : EscalationState) (m m' : String) (now now' : Clock) (r : ClaimResult)
    → claim e m now ≡ ok r
    → r.succeeded ≡ true
    → (claim r.event m' now'
        ≡ ok (record {
          event = r.event;
          task_patch = record { status = none; assigned_member_id = none };
          succeeded = false;
          reason = already_claimed;
        }))
      × IsLocked r.event m
unfolding claim
claim-claim e m m' (date t) now' r h s = ground arith
claim-claim e m m' invalid now' r h s = ground arith

locked-Step : {e u : EscalationState} {m : String} → IsLocked e m → Step e u → u ≡ e
unfolding claim reject
locked-Step l (claims m' now r h s) = ground arith
locked-Step l (rejects m' s) = ground arith

-- A locked event never changes again, whatever claims and rejects follow.
pub locked-Reach : {e u : EscalationState} {m : String} → IsLocked e m → Reach e u → u ≡ e
locked-Reach l here = refl
locked-Reach {e} {m} l (next {t} r s) =
    let same = locked-Reach l r in let l' : IsLocked t m = rw same l in locked-Step l' s ∙ same

-- What calls keep of an event: its task, household and deadline stay, its tier never falls, and
-- it is claimed exactly when it is resolved.
pub record Keeps (e u : EscalationState) : Type 0 where
  pub task : u.task_id ≡ e.task_id
  pub household : u.household_id ≡ e.household_id
  pub deadline : u.deadline ≡ e.deadline
  pub tier : e.tier ≤ u.tier
  pub consistent : is_set u.claimed_by_id ≡ is_set u.resolved_at

Step-Keeps : {e t u : EscalationState} → Keeps e t → Step t u → Keeps e u
unfolding claim reject
Step-Keeps k (claims m (date now) r h s) = ground arith
Step-Keeps k (claims m invalid r h s) = ground arith
Step-Keeps k (rejects m s) = ground arith

-- From an event that is claimed exactly when it is resolved (a new one is neither), every sequence
-- of claims and rejects keeps the task, the household and the deadline, never lowers the tier, and
-- leaves the event claimed exactly when it is resolved.
pub Reach-Keeps :
    {e u : EscalationState} → is_set e.claimed_by_id ≡ is_set e.resolved_at → Reach e u → Keeps e u
Reach-Keeps c here = record {
  task = refl;
  household = refl;
  deadline = refl;
  tier = omega arith;
  consistent = c;
}
Reach-Keeps c (next r s) = Step-Keeps (Reach-Keeps c r) s
