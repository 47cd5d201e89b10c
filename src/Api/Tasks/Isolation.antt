-- ===== src/Api/Tasks/Isolation.antt =====
-- tasks.service.ts: the operations, whoever calls them in whatever order, keep to the rows of the
-- caller's household, and keep the stored rows sound.
use nestai.Prelude.{
  ◌+◌, ◌*◌, ◌≡◌, ◌⊎◌, refl, inl, inr, subst, Option, none, some, String, arith, Option-cases,
  eq_iff,
}
use nestai.Prelude.Results.{Fault, ok, throw}
use nestai.Contracts.Enums.{TaskStatus}
use nestai.Contracts.Entities.{IsoDateTime, Member, Task, EscalationEvent}
use nestai.Core.Time.{minute}
use nestai.Api.Database.{Database, Store, TenantContext, household_id}
use nestai.Api.TaskRows.{give_to, resolve, state_of, is_open, apply_patch, or_else}
use nestai.Api.Tasks.{set_status, assign, claim, claim_event, claim_unlocked, drop, owned_or_404}
use nestai.Api.Tasks.Steps.{owned-cases, get-cases, claim-cases, granted, find_first-found}
use nestai.Api.Tasks.Writes.{
  IsMember, Safe, Safe-refl, Safe-trans, update_task-Safe, update_escalation-Safe,
  create_escalation-Safe,
}

module _ (db : Database) (tenant : TenantContext) (h : String)
    (resolved : household_id tenant ≡ ok h) where
  abbrev Owns : Store db → String → Task → Type 0
  Owns s id t = (db.task.find_unique id s.tasks ≡ some t) × (t.household_id ≡ h)

  pub set_status-Safe :
      (task_id : String) (status : TaskStatus) (s : Store db)
      → Safe db h s (set_status db tenant task_id status s).0
  unfolding set_status
  set_status-Safe task_id status s = elim (get-cases db tenant h resolved task_id s) [
    | inl (f, e) ↦ ground (arith, e, Safe-refl db h s)
    | inr (t, e, found, own) ↦ ground (
      arith,
      e,
      found,
      update_task-Safe db h task_id (λ x. record x { status = status }) s t (λ x. refl) (λ x. refl)
          (λ a is_a. inl is_a) found own,
    )
  ]

  pub member-cases :
      (id : String) (s : Store db)
      → ((f : Fault) × (owned_or_404 db tenant
              (λ m. m.household_id)
              (db.member.find_unique id s.members)
              s
            ≡ (s, throw f)))
        ⊎ ((m : Member) × (owned_or_404 db tenant
                (λ m. m.household_id)
                (db.member.find_unique id s.members)
                s
              ≡ (s, ok m))
            × IsMember db h s id)
  member-cases id s =
      elim (owned-cases db tenant h resolved (λ m. m.household_id)
        (db.member.find_unique id s.members) s) [
          | inl refused ↦ inl refused
          | inr (m, e, listed, at_home) ↦ inr (m, e, (m, listed, at_home))
        ]

  pub assigned_to :
      (s : Store db) (id a : String) → IsMember db h s id → some id ≡ some a → IsMember db h s a
  assigned_to s id a member e =
      let same : id ≡ a = ground arith in subst (IsMember db h s) same member

  pub assign-Safe :
      (task_id member_id : String) (s : Store db)
      → Safe db h s (assign db tenant task_id member_id s).0
  unfolding assign
  assign-Safe task_id member_id s = elim (get-cases db tenant h resolved task_id s) [
    | inl (f, e) ↦ ground (arith, e, Safe-refl db h s)
    | inr (t, e, found, own) ↦ elim (member-cases member_id s) [
      | inl (f, e') ↦ ground (arith, e, e', Safe-refl db h s)
      | inr (m, e', member) ↦ ground (
        arith,
        e,
        e',
        found,
        update_task-Safe db h task_id (give_to (some member_id) TaskStatus.assigned) s t (λ x. refl)
            (λ x. refl) (λ a is_a. inr (assigned_to s member_id a member is_a)) found own,
      )
    ]
  ]

  claim_event-Safe :
      (task_id member_id : String) (now : IsoDateTime) (event : EscalationEvent) (s : Store db)
      (t : Task)
      → Owns s task_id t
      → IsMember db h s member_id
      → db.escalation_event.find_unique event.id s.escalations ≡ some event
      → event.household_id ≡ h
      → Safe db h s (claim_event db tenant h task_id member_id now event s).0
  unfolding claim_event
  claim_event-Safe task_id member_id now event s t (found, own) member found_event own_event =
      elim (claim-cases (state_of h task_id event) member_id now) [
        | inl (e, _) ↦ ground (arith, e, Safe-refl db h s)
        | inr (e, _) ↦
            let s' : Store db = record s {
              escalations =
                  db.escalation_event.update event.id (resolve member_id now) s.escalations;
            } in
            ground (
              arith,
              e,
              found_event,
              found,
              Safe-trans db h
                  (update_escalation-Safe db h event.id (resolve member_id now) s event (λ x. refl)
                    (λ x. refl) refl found_event own_event)
                  (update_task-Safe db h task_id
                    (apply_patch (granted (state_of h task_id event) member_id now).task_patch) s' t
                    (λ x. refl) (λ x. refl) (λ a is_a. inr (assigned_to s member_id a member is_a))
                    found own),
            )
      ]

  claim_unlocked-Safe :
      (task_id member_id : String) (now : IsoDateTime) (s : Store db) (t : Task)
      → Owns s task_id t
      → IsMember db h s member_id
      → Safe db h s (claim_unlocked db tenant task_id member_id now s).0
  unfolding claim_unlocked
  claim_unlocked-Safe task_id member_id now s t (found, own) member =
      elim (Option-cases
        (db.escalation_event.find_first (is_open h task_id) (λ e. e.created_at) s.escalations)) [
          | inl e ↦ ground (
            arith,
            resolved,
            e,
            found,
            update_task-Safe db h task_id (give_to (some member_id) TaskStatus.claimed) s t
                (λ x. refl) (λ x. refl) (λ a is_a. inr (assigned_to s member_id a member is_a))
                found own,
          )
          | inr (event, e) ↦
              let (passes, found_event) =
                find_first-found db.escalation_event (is_open h task_id) (λ e. e.created_at)
                  s.escalations event e in
              let at_home : event.household_id ≡ h = ground (arith, eq_iff event.household_id h) in
              ground (
                arith,
                resolved,
                e,
                claim_event-Safe task_id member_id now event s t (found, own) member found_event
                    at_home,
              )
        ]

  pub claim-Safe :
      (task_id member_id : String) (now : IsoDateTime) (s : Store db)
      → Safe db h s (claim db tenant task_id member_id now s).0
  unfolding claim
  claim-Safe task_id member_id now s = elim (get-cases db tenant h resolved task_id s) [
    | inl (f, e) ↦ ground (arith, e, Safe-refl db h s)
    | inr (t, e, found, own) ↦ elim (member-cases member_id s) [
      | inl (f, e') ↦ ground (arith, e, e', Safe-refl db h s)
      | inr (m, e', member) ↦ ground (
        arith,
        e,
        e',
        Safe-refl db h s,
        claim_unlocked-Safe task_id member_id now s t (found, own) member,
      )
    ]
  ]

  opened_event : String → IsoDateTime → Task → String → EscalationEvent
  opened_event fresh now t task_id = record {
    id = fresh;
    household_id = h;
    task_id = task_id;
    tier = 0;
    broadcast_at = none;
    claimed_by_id = none;
    resolved_at = none;
    deadline = or_else t.due_at (now + 60 * minute);
    created_at = now;
  }

  pub drop-Safe :
      (fresh : String) (now : IsoDateTime) (task_id member_id : String) (reason : Option String)
      (s : Store db)
      → Safe db h s (drop db tenant fresh now task_id member_id reason s).0
  unfolding drop opened_event
  drop-Safe fresh now task_id member_id reason s = elim (get-cases db tenant h resolved task_id s) [
    | inl (f, e) ↦ ground (arith, e, Safe-refl db h s)
    | inr (t, e, found, own) ↦
        let s' : Store db = record s {
          tasks = db.task.update task_id (give_to none TaskStatus.dropped) s.tasks;
        } in
        let released : Safe db h s s' =
          update_task-Safe db h task_id (give_to none TaskStatus.dropped) s t (λ x. refl)
            (λ x. refl) (λ a is_a. cc) found own in
        elim (Option-cases (db.escalation_event.find_unique fresh s.escalations)) [
          | inl e' ↦ ground (
            arith,
            e,
            found,
            resolved,
            e',
            Safe-trans db h released
                (create_escalation-Safe db h (opened_event fresh now t task_id) s' e' refl refl),
          )
          | inr (other, e') ↦ ground (arith, e, found, resolved, e', released)
        ]
  ]
