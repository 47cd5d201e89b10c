-- ===== src/Api/Tasks/Writes.antt =====
-- tasks.service.ts: every write keeps to the household's rows, and keeps the stored rows sound.
use nestai.Prelude.{
  ◌≡◌, ◌⊎◌, refl, sym, ap, ◌∙◌, inl, inr, subst, none, some, String, arith, Bool-cases, str_eq,
}
use nestai.Contracts.Entities.{Member, Task, EscalationEvent}
use nestai.Core.Escalation.{is_set}
use nestai.Api.Database.{Database, Store}
use nestai.Api.Tasks.Steps.{KeepsForeign, update-KeepsForeign, create-KeepsForeign}

-- The rows of other households, and the tables that the service only reads, stay as they are.
pub record Spares (db : Database) (h : String) (s u : Store db) : Type 0 where
  pub tasks : KeepsForeign db.task (λ t. t.household_id) h s.tasks u.tasks
  pub escalations :
      KeepsForeign db.escalation_event (λ e. e.household_id) h s.escalations u.escalations
  pub members : u.members ≡ s.members
  pub rules : u.rules ≡ s.rules
  pub availability : u.availability ≡ s.availability

-- The id of a member of the household.
abbrev pub IsMember : (db : Database) → String → Store db → String → Type 0
IsMember db h s id =
    (m : Member) × (db.member.find_unique id s.members ≡ some m) × (m.household_id ≡ h)

-- An assigned task belongs to a member of its own household, and an escalation is resolved exactly
-- when it is claimed.
pub record IsSound (db : Database) (s : Store db) : Type 0 where
  pub assigned :
      (k : String) (t : Task) (a : String)
      → db.task.find_unique k s.tasks ≡ some t
      → t.assigned_member_id ≡ some a
      → IsMember db t.household_id s a
  pub consistent :
      (k : String) (e : EscalationEvent)
      → db.escalation_event.find_unique k s.escalations ≡ some e
      → is_set e.claimed_by_id ≡ is_set e.resolved_at

abbrev pub Safe : (db : Database) → String → Store db → Store db → Type 0
Safe db h s u = Spares db h s u × (IsSound db s → IsSound db u)

module _ (db : Database) (h : String) where
  pub Safe-refl : (s : Store db) → Safe db h s s
  Safe-refl s = (
    record {
      tasks = λ k r f. (λ b. b, λ a. a);
      escalations = λ k r f. (λ b. b, λ a. a);
      members = refl;
      rules = refl;
      availability = refl;
    },
    λ sound. sound,
  )

  pub Safe-trans : {s u w : Store db} → Safe db h s u → Safe db h u w → Safe db h s w
  Safe-trans (p, f) (q, g) = (
    record {
      tasks = λ k r away. (
        λ b. (q.tasks k r away).0 ((p.tasks k r away).0 b),
        λ a. (p.tasks k r away).1 ((q.tasks k r away).1 a),
      );
      escalations = λ k r away. (
        λ b. (q.escalations k r away).0 ((p.escalations k r away).0 b),
        λ a. (p.escalations k r away).1 ((q.escalations k r away).1 a),
      );
      members = q.members ∙ p.members;
      rules = q.rules ∙ p.rules;
      availability = q.availability ∙ p.availability;
    },
    λ sound. g (f sound),
  )

  pub update_task-Safe :
      (i : String) (f : Task → Task) (s : Store db) (t : Task)
      → ((x : Task) → (f x).id ≡ x.id)
      → ((x : Task) → (f x).household_id ≡ x.household_id)
      → ((a : String)
          → (f t).assigned_member_id ≡ some a
          → (t.assigned_member_id ≡ some a) ⊎ IsMember db h s a)
      → db.task.find_unique i s.tasks ≡ some t
      → t.household_id ≡ h
      → Safe db h s (record s { tasks = db.task.update i f s.tasks })
  update_task-Safe i f s t keeps_id keeps given found own = (
    record {
      tasks = update-KeepsForeign db.task _ h i f s.tasks t keeps_id keeps found own;
      escalations = λ k r away. (λ b. b, λ a. a);
      members = refl;
      rules = refl;
      availability = refl;
    },
    λ sound. record {
      assigned = λ k x a. elim (Bool-cases (str_eq i k)) [
        | inl e ↦
            rw (db.task.find_unique-update k i f s.tasks t keeps_id found, e)
              (λ same is_a.
                let row : f t ≡ x = ground arith in
                let at_home : t.household_id ≡ x.household_id =
                  sym (keeps t) ∙ ap (λ y. y.household_id) row in
                elim (given a (ap (λ y. y.assigned_member_id) row ∙ is_a)) [
                  | inl old ↦
                      subst (λ g. IsMember db g s a) at_home (sound.assigned i t a found old)
                  | inr member ↦ subst (λ g. IsMember db g s a) (sym own ∙ at_home) member
                ])
        | inr e ↦
            rw (db.task.find_unique-update k i f s.tasks t keeps_id found, e)
              (λ same is_a. sound.assigned k x a same is_a)
      ];
      consistent = sound.consistent;
    },
  )

  pub create_task-Safe :
      (row : Task) (s : Store db)
      → db.task.find_unique row.id s.tasks ≡ none
      → row.household_id ≡ h
      → row.assigned_member_id ≡ none
      → Safe db h s (record s { tasks = db.task.create row s.tasks })
  create_task-Safe row s fresh own free = (
    record {
      tasks = create-KeepsForeign db.task _ h row s.tasks fresh own;
      escalations = λ k r away. (λ b. b, λ a. a);
      members = refl;
      rules = refl;
      availability = refl;
    },
    λ sound. record {
      assigned = λ k x a. elim (Bool-cases (str_eq row.id k)) [
        | inl e ↦
            rw (db.task.find_unique-create k row s.tasks fresh, e)
              (λ same is_a.
                let is_row : row ≡ x = ground arith in
                let never : none ≡ some a =
                  sym free ∙ ap (λ y. y.assigned_member_id) is_row ∙ is_a in
                cc)
        | inr e ↦
            rw (db.task.find_unique-create k row s.tasks fresh, e)
              (λ same is_a. sound.assigned k x a same is_a)
      ];
      consistent = sound.consistent;
    },
  )

  pub update_escalation-Safe :
      (i : String) (f : EscalationEvent → EscalationEvent) (s : Store db) (e : EscalationEvent)
      → ((x : EscalationEvent) → (f x).id ≡ x.id)
      → ((x : EscalationEvent) → (f x).household_id ≡ x.household_id)
      → is_set (f e).claimed_by_id ≡ is_set (f e).resolved_at
      → db.escalation_event.find_unique i s.escalations ≡ some e
      → e.household_id ≡ h
      → Safe db h s (record s { escalations = db.escalation_event.update i f s.escalations })
  update_escalation-Safe i f s e keeps_id keeps given found own = (
    record {
      tasks = λ k r away. (λ b. b, λ a. a);
      escalations =
          update-KeepsForeign db.escalation_event _ h i f s.escalations e keeps_id keeps found own;
      members = refl;
      rules = refl;
      availability = refl;
    },
    λ sound. record {
      assigned = sound.assigned;
      consistent = λ k x. elim (Bool-cases (str_eq i k)) [
        | inl same_id ↦
            rw
              (db.escalation_event.find_unique-update k i f s.escalations e keeps_id found, same_id)
              (λ same.
                let row : f e ≡ x = ground arith in
                subst (λ y. is_set y.claimed_by_id ≡ is_set y.resolved_at) row given)
        | inr other ↦
            rw (db.escalation_event.find_unique-update k i f s.escalations e keeps_id found, other)
              (λ same. sound.consistent k x same)
      ];
    },
  )

  pub create_escalation-Safe :
      (row : EscalationEvent) (s : Store db)
      → db.escalation_event.find_unique row.id s.escalations ≡ none
      → row.household_id ≡ h
      → is_set row.claimed_by_id ≡ is_set row.resolved_at
      → Safe db h s (record s { escalations = db.escalation_event.create row s.escalations })
  create_escalation-Safe row s fresh own given = (
    record {
      tasks = λ k r away. (λ b. b, λ a. a);
      escalations = create-KeepsForeign db.escalation_event _ h row s.escalations fresh own;
      members = refl;
      rules = refl;
      availability = refl;
    },
    λ sound. record {
      assigned = sound.assigned;
      consistent = λ k x. elim (Bool-cases (str_eq row.id k)) [
        | inl same_id ↦
            rw (db.escalation_event.find_unique-create k row s.escalations fresh, same_id)
              (λ same.
                let is_row : row ≡ x = ground arith in
                subst (λ y. is_set y.claimed_by_id ≡ is_set y.resolved_at) is_row given)
        | inr other ↦
            rw (db.escalation_event.find_unique-create k row s.escalations fresh, other)
              (λ same. sound.consistent k x same)
      ];
    },
  )
