-- ===== src/Api/Tasks.antt =====
-- services/api/src/modules/tasks/tasks.service.ts: the operations that read or write a task. The
-- time, and the ids that the database gives to new rows, are arguments.
pub mod Steps
pub mod Writes
pub mod Isolation
pub mod Routing
pub mod Tenancy
pub mod Claims
mod Tests
use nestai.Prelude.{
  ℕ, ◌+◌, ◌*◌, ◌≡◌, Bool, true, false, ◌&&◌, ◌||◌, List, [], Option, none, some, String, str_eq,
  if◌then◌else◌,
}
use nestai.Prelude.Results.{Fault, Result, ok, throw}
use nestai.Contracts.Enums.{TaskStatus, TaskUrgency, TaskCategory}
use nestai.Contracts.Entities.{IsoDateTime, Member, Task, TaskDraft, RoutingRule, EscalationEvent}
use nestai.Core.Locale.{Locale}
use nestai.Core.Time.{date, minute}
use nestai.Core.Routing.Engine.{RouteInput, RoutingDecision, route}
use nestai.Core.Escalation
use nestai.Core.Escalation.{EscalationState, ClaimResult, TaskPatch, Outcome, is_set}
use nestai.Api.Database.{
  Database, Store, TenantContext, household_id, assert_owned, find_task, find_member, update_task,
  update_escalation, create_task, create_escalation,
}
use nestai.Api.Action.{Action, ◌>>=◌, return, fail, lift}
use nestai.Api.TaskRows.{
  Answer, CreateTaskInput, DropResult, Reason, already_locked, apply_patch,
  claimed_without_escalation, decided, draft_of, give_to, is_locked, is_open, new_task, or_else,
  resolve, state_of,
}

module _ (db : Database) (tenant : TenantContext) where
  -- A row that is missing or foreign is a 404.
  abbrev pub owned_or_404 : {A : Type 0} → (A → String) → Option A → Action (Store db) A
  owned_or_404 of_row row = lift (assert_owned tenant of_row row) >>= λ owned. elim owned [
    | none ↦ fail Fault.not_found
    | some a ↦ return a
  ]

  unfoldable pub get : String → Action (Store db) Task
  get id = do row ← find_task db id; owned_or_404 (λ t. t.household_id) row

  unfoldable pub set_status : String → TaskStatus → Action (Store db) Task
  set_status task_id status = do
    task ← get task_id
    update_task db task_id (λ t. record t { status = status })

  unfoldable pub assign : String → String → Action (Store db) Task
  assign task_id member_id = do
    task ← get task_id
    row ← find_member db member_id
    member ← owned_or_404 (λ m. m.household_id) row
    update_task db task_id (give_to (some member_id) TaskStatus.assigned)

  abbrev pub find_open : String → String → Action (Store db) (Option EscalationEvent)
  find_open household task_id s = (
    s,
    ok (
        db.escalation_event.find_first (is_open household task_id) (λ e. e.created_at)
          s.escalations),
  )

  -- The claim of the event that the core engine decides.
  unfoldable pub claim_event :
      String → String → String → IsoDateTime → EscalationEvent → Action (Store db) Answer
  claim_event household task_id member_id now event = do
    result ← lift (Escalation.claim (state_of household task_id event) member_id (date now))
    if result.succeeded
        then (do
          resolved ← update_escalation db event.id (resolve member_id now)
          row ← update_task db task_id (apply_patch result.task_patch)
          return (record { succeeded = true; task = some row; reason = decided result.reason }))
        else (do
          current ← find_task db task_id
          return (record { succeeded = false; task = current; reason = decided result.reason }))

  -- A claim of a task that is not locked.
  unfoldable pub claim_unlocked : String → String → IsoDateTime → Action (Store db) Answer
  claim_unlocked task_id member_id now = do
    household ← lift (household_id tenant)
    found ← find_open household task_id
    elim found [
      | some event ↦ claim_event household task_id member_id now event
      | none ↦ update_task db task_id (give_to (some member_id) TaskStatus.claimed) >>= λ row.
          return (record { succeeded = true; task = some row; reason = claimed_without_escalation })
    ]

  unfoldable pub claim : String → String → IsoDateTime → Action (Store db) Answer
  claim task_id member_id now = do
    task ← get task_id
    row ← find_member db member_id
    member ← owned_or_404 (λ m. m.household_id) row
    if is_locked task.status
        then (return
            (record { succeeded = false; task = some task; reason = already_locked task.status }))
        else claim_unlocked task_id member_id now

  -- The event gets the id `fresh`.
  unfoldable pub drop :
      (fresh : String)
      → IsoDateTime
      → String
      → String
      → Option String
      → Action (Store db) DropResult
  drop fresh now task_id member_id reason = do
    task ← get task_id
    updated ← update_task db task_id (give_to none TaskStatus.dropped)
    household ← lift (household_id tenant)
    escalation ← create_escalation db (record {
      id = fresh;
      household_id = household;
      task_id = task_id;
      tier = 0;
      broadcast_at = none;
      claimed_by_id = none;
      resolved_at = none;
      deadline = or_else task.due_at (now + 60 * minute);
      created_at = now;
    })
    return (record {
      task = updated;
      escalation_id = escalation.id;
      dropped_by = member_id;
      reason = reason;
    })

  module _ (locale : Locale) (parse : String → Option IsoDateTime) where
    -- What the engine is asked: the active members and the rules of the household.
    abbrev pub routing_input : String → IsoDateTime → Task → Store db → RouteInput
    routing_input household now task s = record {
      task = draft_of task;
      members = db.member.find_many (λ m. m.active && str_eq m.household_id household) s.members;
      rules = db.routing_rule.find_many (λ r. str_eq r.household_id household) s.rules;
      now = date now;
    }

    unfoldable pub route_and_assign : IsoDateTime → String → Action (Store db) RoutingDecision
    route_and_assign now task_id = do
      task ← get task_id
      household ← lift (household_id tenant)
      decision ← λ s. (s, route locale parse (routing_input household now task s))
      elim decision.assigned_member_id [
        | none ↦ return decision
        | some id ↦
            if str_eq id ""
            then return decision
            else (update_task db task_id (give_to (some id) TaskStatus.assigned) >>= λ row.
                return decision)
      ]

    -- The task as it is stored at the end, and the decision if it was routed.
    unfoldable pub create :
        (fresh : String)
        → IsoDateTime
        → CreateTaskInput
        → Action (Store db) (Option Task × Option RoutingDecision)
    create fresh now input = do
      household ← lift (household_id tenant)
      created ← create_task db (new_task fresh household now input)
      if input.no_route then return (some created, none) else (do
        routing ← route_and_assign now created.id
        row ← find_task db created.id
        return (row, some routing))
