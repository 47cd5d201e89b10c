-- ===== src/Api/Approvals.antt =====
-- services/api/src/modules/approvals/approvals.service.ts. The time and the id that the database draws
-- are arguments.
pub mod Decisions
mod Tests
use nestai.Prelude.{ℕ, Bool, true, ◌&&◌, String, List, Option, none, some, str_eq, if◌then◌else◌}
use nestai.Prelude.Results.{Result, ok, throw, invalid_argument}
use nestai.Contracts.Enums.{ApprovalReason, ApprovalStatus}
use nestai.Contracts.Enums
use nestai.Contracts.Entities.{IsoDateTime, Approval}
use nestai.Api.Action.{Action}
use nestai.Api.Database.{TenantContext, household_id}
use nestai.Api.Owned.{create_own, update_own}
use nestai.Api.Table.{Table}

pub record CreateApprovalInput : Type 0 where
  pub task_id : String
  pub requested_by_id : String
  pub reason : ApprovalReason
  pub amount : Option ℕ

pub data Decision : Type 0 where
  approve reject : Decision

-- A new approval, with the default status of the schema.
abbrev pub new_approval : String → CreateApprovalInput → String → Approval
new_approval id input household = record {
  id = id;
  household_id = household;
  task_id = input.task_id;
  requested_by_id = input.requested_by_id;
  status = ApprovalStatus.pending;
  decided_by_id = none;
  decided_at = none;
  reason = input.reason;
  amount = input.amount;
}

abbrev pub status_after : Decision → ApprovalStatus
status_after approve = ApprovalStatus.approved
status_after reject = ApprovalStatus.rejected

-- `data: { status, decidedById, decidedAt }`.
abbrev pub decided : String → Decision → IsoDateTime → Approval → Approval
decided decided_by decision now row = record row {
  status = status_after decision;
  decided_by_id = some decided_by;
  decided_at = some now;
}

abbrev pub same_status : ApprovalStatus → ApprovalStatus → Bool
same_status ApprovalStatus.pending ApprovalStatus.pending = true
same_status ApprovalStatus.approved ApprovalStatus.approved = true
same_status ApprovalStatus.rejected ApprovalStatus.rejected = true
same_status ApprovalStatus.cancelled ApprovalStatus.cancelled = true
same_status a b = Bool.false

-- The filter of a list: none for an empty or missing text; the client refuses a text that is no
-- status.
abbrev read_status : String → Result (Option ApprovalStatus)
read_status text =
    if str_eq text ""
    then ok none
    else if str_eq text "PENDING"
    then ok (some ApprovalStatus.pending)
    else if str_eq text "APPROVED"
    then ok (some ApprovalStatus.approved)
    else if str_eq text "REJECTED"
    then ok (some ApprovalStatus.rejected)
    else if str_eq text "CANCELLED"
    then ok (some ApprovalStatus.cancelled)
    else throw invalid_argument

abbrev pub status_filter : Option String → Result (Option ApprovalStatus)
status_filter none = ok none
status_filter (some text) = read_status text

abbrev pub passes : String → Option ApprovalStatus → Approval → Bool
passes household none row = str_eq row.household_id household
passes household (some status) row =
    same_status row.status status && str_eq row.household_id household

module _ (table : Table Approval (λ a. a.id)) (tenant : TenantContext) where
  abbrev pub list : Option String → Action table.Rows (List Approval)
  list status rows = elim (household_id tenant) [
    | throw fault ↦ (rows, throw fault)
    | ok household ↦ elim (status_filter status) [
      | throw fault ↦ (rows, throw fault)
      | ok wanted ↦ (rows, ok (table.find_many (passes household wanted) rows))
    ]
  ]

  abbrev pub create : String → CreateApprovalInput → Action table.Rows Approval
  create id input = create_own table tenant (new_approval id input)

  abbrev pub decide : String → String → Decision → IsoDateTime → Action table.Rows Approval
  decide approval_id decided_by decision now =
      update_own table (λ a. a.household_id) tenant approval_id (decided decided_by decision now)
