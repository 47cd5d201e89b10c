-- ===== src/Api/Approvals/Decisions.antt =====
-- approvals.service.ts: what a decision writes, and where.
use nestai.Prelude.{◌≡◌, ◌⊎◌, refl, inl, inr, false, String, none, some, str_eq, if◌then◌else◌}
use nestai.Prelude.Results.{ok, throw, not_found}
use nestai.Contracts.Enums.{ApprovalStatus}
use nestai.Contracts.Entities.{IsoDateTime, Approval}
use nestai.Api.Approvals.{Decision, approve, reject, decided, decide}
use nestai.Api.Owned.Writes.{IsWritten, update_own-IsWritten}
use nestai.Api.Owned.Views.{view}
use nestai.Api.Table.{Table}

-- The status that a decision asks for.
abbrev pub IsStatus : Decision → ApprovalStatus → Type 0
IsStatus approve status = status ≡ ApprovalStatus.approved
IsStatus reject status = status ≡ ApprovalStatus.rejected

-- The approval `new` is `old` with the decision, who took it and when, and nothing else changed.
pub record IsDecided (decision : Decision) (by : String) (now : IsoDateTime) (old new : Approval)
    : Type 0 where
  pub status : IsStatus decision new.status
  pub who : new.decided_by_id ≡ some by
  pub when : new.decided_at ≡ some now
  pub same_id : new.id ≡ old.id
  pub same_household : new.household_id ≡ old.household_id
  pub same_task : new.task_id ≡ old.task_id
  pub same_requester : new.requested_by_id ≡ old.requested_by_id
  pub same_reason : new.reason ≡ old.reason
  pub same_amount : new.amount ≡ old.amount

decided-IsDecided :
    (decision : Decision) (by : String) (now : IsoDateTime) (old : Approval)
    → IsDecided decision by now old (decided by decision now old)
decided-IsDecided approve by now old = record {
  status = refl;
  who = refl;
  when = refl;
  same_id = refl;
  same_household = refl;
  same_task = refl;
  same_requester = refl;
  same_reason = refl;
  same_amount = refl;
}
decided-IsDecided reject by now old = record {
  status = refl;
  who = refl;
  when = refl;
  same_id = refl;
  same_household = refl;
  same_task = refl;
  same_requester = refl;
  same_reason = refl;
  same_amount = refl;
}

module _ (table : Table Approval (λ a. a.id)) (h : String) (id decided_by : String)
    (decision : Decision) (now : IsoDateTime) (rows : table.Rows) where
  -- In a household whose id is not empty, a decision on an approval that the household does not have
  -- is a 404 that writes nothing. On one that it has, whatever its status, the approval is stored and
  -- returned as APPROVED or REJECTED, as the decision says, with who took it and when and with all
  -- else as it was, and every other id has the approval that it had.
  pub decide-IsDecided :
      str_eq h "" ≡ false
      → ((view table (λ a. a.household_id) h id rows ≡ none)
          × ((decide table (some h) id decided_by decision now rows).0 ≡ rows)
          × ((decide table (some h) id decided_by decision now rows).1 ≡ throw not_found))
        ⊎ ((old : Approval) × (new : Approval) × (view table (λ a. a.household_id) h id rows
              ≡ some old)
            × ((decide table (some h) id decided_by decision now rows).1 ≡ ok new)
            × IsDecided decision decided_by now old new
            × ((k : String)
                → table.find_unique k (decide table (some h) id decided_by decision now rows).0
                  ≡ (if str_eq id k then some new else table.find_unique k rows)))
  unfolding IsWritten
  decide-IsDecided set =
      elim (update_own-IsWritten table (λ a. a.household_id) h id (decided decided_by decision now)
        rows (λ x. refl) set) [
          | inl refused ↦ inl refused
          | inr (old, found, returned, stored) ↦ inr (
            old,
            decided decided_by decision now old,
            found,
            returned,
            decided-IsDecided decision decided_by now old,
            stored,
          )
        ]
