-- ===== src/Api/TaskRows.antt =====
-- services/api/src/modules/tasks/tasks.service.ts: what the service takes, stores and answers.
use nestai.Prelude.{
  ℕ, Bool, true, false, ◌&&◌, List, [], Option, none, some, String, str_eq, if◌then◌else◌,
}
use nestai.Contracts.Enums.{TaskStatus, TaskUrgency, TaskCategory}
use nestai.Contracts.Entities.{IsoDateTime, Task, TaskDraft, EscalationEvent}
use nestai.Core.Time.{date}
use nestai.Core.Escalation.{EscalationState, TaskPatch, Outcome, is_set}

pub record CreateTaskInput : Type 0 where
  pub title : String
  pub description : Option String
  pub due_at : Option IsoDateTime
  pub urgency : Option TaskUrgency
  pub category : TaskCategory
  pub required_skills : Option (List String)
  pub min_age : Option ℕ
  pub max_age : Option ℕ
  pub requires_approval : Option Bool
  pub recurrence_rule : Option String
  pub source_message_id : Option String
  pub confidence : Option ℕ
  pub no_route : Bool

-- `a ?? b`.
abbrev pub or_else {ℓ} : {A : Type ℓ} → Option A → A → A
or_else none b = b
or_else (some a) b = a

-- The row that `create` stores: the input with its defaults, and the database's.
abbrev pub new_task : String → String → IsoDateTime → CreateTaskInput → Task
new_task id household now input = record {
  id = id;
  household_id = household;
  title = input.title;
  description = input.description;
  due_at = input.due_at;
  urgency = or_else input.urgency TaskUrgency.med;
  status = TaskStatus.opened;
  category = input.category;
  assigned_member_id = none;
  required_skills = or_else input.required_skills [];
  min_age = input.min_age;
  max_age = input.max_age;
  recurrence_rule = input.recurrence_rule;
  source_message_id = input.source_message_id;
  requires_approval = or_else input.requires_approval false;
  confidence = or_else input.confidence 100;
  created_at = now;
}

abbrev pub draft_of : Task → TaskDraft
draft_of task = record {
  title = task.title;
  description = task.description;
  due_at = task.due_at;
  urgency = task.urgency;
  category = task.category;
  required_skills = task.required_skills;
  min_age = task.min_age;
  max_age = task.max_age;
  requires_approval = task.requires_approval;
}

-- `data: { assignedMemberId, status }`.
abbrev pub give_to : Option String → TaskStatus → Task → Task
give_to member status task = record task { assigned_member_id = member; status = status }

-- `data: { claimedById, resolvedAt }`.
abbrev pub resolve : String → IsoDateTime → EscalationEvent → EscalationEvent
resolve member now event = record event { claimed_by_id = some member; resolved_at = some now }

abbrev pub state_of : String → String → EscalationEvent → EscalationState
state_of household task_id event = record {
  household_id = household;
  task_id = task_id;
  tier = event.tier;
  deadline = date event.deadline;
  broadcast_at = none;
  claimed_by_id = event.claimed_by_id;
  resolved_at = event.resolved_at;
}

-- `data: result.taskPatch`: a field that the patch leaves out keeps its value.
abbrev pub apply_patch : TaskPatch → Task → Task
apply_patch patch task = record task {
  status = or_else patch.status task.status;
  assigned_member_id = elim patch.assigned_member_id [
    | none ↦ task.assigned_member_id
    | some id ↦ some id
  ];
}

pub data Reason : Type 0 where
  already_locked : TaskStatus → Reason
  claimed_without_escalation : Reason
  decided : Outcome → Reason

-- The answer to a claim; the task is null when it has gone.
pub record Answer : Type 0 where
  pub succeeded : Bool
  pub task : Option Task
  pub reason : Reason

pub record DropResult : Type 0 where
  pub task : Task
  pub escalation_id : String
  pub dropped_by : String
  pub reason : Option String

abbrev pub is_locked : TaskStatus → Bool
is_locked TaskStatus.claimed = true
is_locked TaskStatus.done = true
is_locked _ = false

-- An event of the household for the task, with `resolvedAt: null`.
abbrev pub is_open : String → String → EscalationEvent → Bool
is_open household task_id event =
    str_eq event.task_id task_id
    && (if is_set event.resolved_at then false else true)
    && str_eq event.household_id household
