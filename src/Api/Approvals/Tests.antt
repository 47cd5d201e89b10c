-- ===== src/Api/Approvals/Tests.antt =====
-- A run of approvals.service.ts, and its theorem at a concrete input.
use nestai.Prelude.{◌≡◌, ◌⊎◌, refl, String, str_eq, if◌then◌else◌, List, [], ◌∷◌, none, some}
use nestai.Prelude.Results.{ok, throw, invalid_argument, not_found}
use nestai.Contracts.Enums.{ApprovalReason}
use nestai.Contracts.Entities.{Approval}
use nestai.Core.Samples.{noon}
use nestai.Api.Table.{Table}
use nestai.Api.Table.Rows.{list_table, distinct}
use nestai.Api.Approvals.{CreateApprovalInput, approve, new_approval, decided, decide, list}
use nestai.Api.Approvals.Decisions.{IsDecided, decide-IsDecided}
use nestai.Api.Owned.Views.{view}

abbrev approvals : Table Approval (λ a. a.id)
approvals = list_table (λ a. a.id)

abbrev slip : CreateApprovalInput
slip = record {
  task_id = "t-1";
  requested_by_id = "kid";
  reason = ApprovalReason.permission_slip;
  amount = none;
}

abbrev rows : List Approval
rows = new_approval "a-1" slip "h-1" ∷ []

decided_is_listed :
    (list approvals
      (some "h-1")
      (some "APPROVED")
      (decide approvals (some "h-1") "a-1" "mum" approve noon rows).0).1
    ≡ ok (decided "mum" approve noon (new_approval "a-1" slip "h-1") ∷ [])
unfolding distinct
decided_is_listed = refl

unknown_status : (list approvals (some "h-1") (some "approved") rows).1 ≡ throw invalid_argument
unknown_status = refl

decide-IsDecided_example :
    ((view approvals (λ a. a.household_id) "h-1" "a-1" rows ≡ none)
      × ((decide approvals (some "h-1") "a-1" "mum" approve noon rows).0 ≡ rows)
      × ((decide approvals (some "h-1") "a-1" "mum" approve noon rows).1 ≡ throw not_found))
    ⊎ ((old : Approval) × (new : Approval) × (view approvals (λ a. a.household_id) "h-1" "a-1" rows
          ≡ some old)
        × ((decide approvals (some "h-1") "a-1" "mum" approve noon rows).1 ≡ ok new)
        × IsDecided approve "mum" noon old new
        × ((k : String)
            → approvals.find_unique k
                (decide approvals (some "h-1") "a-1" "mum" approve noon rows).0
              ≡ (if str_eq "a-1" k then some new else approvals.find_unique k rows)))
decide-IsDecided_example = decide-IsDecided approvals "h-1" "a-1" "mum" approve noon rows refl
