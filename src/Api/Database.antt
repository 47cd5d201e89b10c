-- ===== src/Api/Database.antt =====
-- The tables that the services read and write, and the client's calls as actions on their state.
use nestai.Prelude.{◌≡◌, refl, Option, none, some, String, str_eq, if◌then◌else◌}
use nestai.Prelude.Results.{Fault, Result, ok, throw}
use nestai.Contracts.Entities.{Member, Task, RoutingRule, EscalationEvent, AvailabilityBlock}
use nestai.Api.Table.{Table}
use nestai.Api.Action.{Action}

pub record Database : Type 1 where
  pub task : Table Task (λ t. t.id)
  pub member : Table Member (λ m. m.id)
  pub routing_rule : Table RoutingRule (λ r. r.id)
  pub escalation_event : Table EscalationEvent (λ e. e.id)
  pub availability_block : Table AvailabilityBlock (λ b. b.id)

pub record Store (db : Database) : Type 0 where
  pub tasks : db.task.Rows
  pub members : db.member.Rows
  pub rules : db.routing_rule.Rows
  pub escalations : db.escalation_event.Rows
  pub availability : db.availability_block.Rows

-- `TenantContext`: the household of the request, once `HouseholdGuard` has set it.
abbrev pub TenantContext : Type 0
TenantContext = Option String

-- `TenantContext.householdId`: unset and empty texts are refused.
abbrev pub household_id : TenantContext → Result String
household_id none = throw Fault.no_tenant
household_id (some h) = if str_eq h "" then throw Fault.no_tenant else ok h

-- `TenantPrisma.assertOwned`, for a row whose household `of_row` gives.
abbrev pub assert_owned : {A : Type 0} → TenantContext → (A → String) → Option A → Result (Option A)
assert_owned tenant of_row none = ok none
assert_owned tenant of_row (some row) = elim (household_id tenant) [
  | throw fault ↦ throw fault
  | ok h ↦ ok (if str_eq (of_row row) h then some row else none)
]

module _ (db : Database) where
  abbrev pub find_task : String → Action (Store db) (Option Task)
  find_task id s = (s, ok (db.task.find_unique id s.tasks))

  abbrev pub find_member : String → Action (Store db) (Option Member)
  find_member id s = (s, ok (db.member.find_unique id s.members))

  abbrev pub find_escalation : String → Action (Store db) (Option EscalationEvent)
  find_escalation id s = (s, ok (db.escalation_event.find_unique id s.escalations))

  -- An update of a row that is not there throws.
  abbrev pub update_task : String → (Task → Task) → Action (Store db) Task
  update_task id f s = elim (db.task.find_unique id s.tasks) [
    | none ↦ (s, throw Fault.record_missing)
    | some row ↦ (record s { tasks = db.task.update id f s.tasks }, ok (f row))
  ]

  abbrev pub update_escalation :
      String → (EscalationEvent → EscalationEvent) → Action (Store db) EscalationEvent
  update_escalation id f s = elim (db.escalation_event.find_unique id s.escalations) [
    | none ↦ (s, throw Fault.record_missing)
    | some row ↦
        (record s { escalations = db.escalation_event.update id f s.escalations }, ok (f row))
  ]

  -- An id that is taken violates the primary key.
  abbrev pub create_task : Task → Action (Store db) Task
  create_task row s = elim (db.task.find_unique row.id s.tasks) [
    | some other ↦ (s, throw Fault.id_taken)
    | none ↦ (record s { tasks = db.task.create row s.tasks }, ok row)
  ]

  abbrev pub create_escalation : EscalationEvent → Action (Store db) EscalationEvent
  create_escalation row s = elim (db.escalation_event.find_unique row.id s.escalations) [
    | some other ↦ (s, throw Fault.id_taken)
    | none ↦ (record s { escalations = db.escalation_event.create row s.escalations }, ok row)
  ]

  pub update_task-found :
      (id : String) (f : Task → Task) (s : Store db) {row : Task}
      → db.task.find_unique id s.tasks ≡ some row
      → update_task id f s ≡ (record s { tasks = db.task.update id f s.tasks }, ok (f row))
  update_task-found id f s e = rw (e, update_task) refl

  pub update_escalation-found :
      (id : String) (f : EscalationEvent → EscalationEvent) (s : Store db) {row : EscalationEvent}
      → db.escalation_event.find_unique id s.escalations ≡ some row
      → update_escalation id f s
        ≡ (record s { escalations = db.escalation_event.update id f s.escalations }, ok (f row))
  update_escalation-found id f s e = rw (e, update_escalation) refl

  pub create_task-fresh :
      (row : Task) (s : Store db)
      → db.task.find_unique row.id s.tasks ≡ none
      → create_task row s ≡ (record s { tasks = db.task.create row s.tasks }, ok row)
  create_task-fresh row s e = rw (e, create_task) refl

  pub create_task-taken :
      (row : Task) (s : Store db) {other : Task}
      → db.task.find_unique row.id s.tasks ≡ some other
      → create_task row s ≡ (s, throw Fault.id_taken)
  create_task-taken row s e = rw (e, create_task) refl

  pub create_escalation-fresh :
      (row : EscalationEvent) (s : Store db)
      → db.escalation_event.find_unique row.id s.escalations ≡ none
      → create_escalation row s
        ≡ (record s { escalations = db.escalation_event.create row s.escalations }, ok row)
  create_escalation-fresh row s e = rw (e, create_escalation) refl

  pub create_escalation-taken :
      (row : EscalationEvent) (s : Store db) {other : EscalationEvent}
      → db.escalation_event.find_unique row.id s.escalations ≡ some other
      → create_escalation row s ≡ (s, throw Fault.id_taken)
  create_escalation-taken row s e = rw (e, create_escalation) refl
