-- ===== src/Core/Escalation/Override.antt =====
-- escalation.ts, decideCriticalOverride.
use nestai.Prelude.{ℕ, ◌+◌, ◌*◌, ◌<◌, ◌≡◌, refl, ◌↔◌, true, none, arith}
use nestai.Prelude.Results.{ok}
use nestai.Core.Time.{date, minute, diff_minutes}
use nestai.Core.Escalation.{EscalationState, CriticalOverrideDecision, decide_critical_override}

-- For a valid deadline and a valid time, `decideCriticalOverride` never throws, and it fires exactly
-- when the event is neither claimed nor resolved and the deadline is less than 21 minutes away or
-- past: the minutes left are rounded down before they are compared with 20.
pub decide_critical_override_iff :
    (e : EscalationState) (deadline now : ℕ)
    → e.deadline ≡ date deadline
    → (d : CriticalOverrideDecision) × (decide_critical_override e (date now) ≡ ok d)
      × ((d.override ≡ true)
          ↔ ((e.claimed_by_id ≡ none) × (e.resolved_at ≡ none) × (deadline < now + 21 * minute)))
unfolding decide_critical_override diff_minutes
decide_critical_override_iff e deadline now valid = rw valid (_, refl, ground arith)
