-- ===== src/Api/Tasks/Routing.antt =====
-- tasks.service.ts, routeAndAssign and create: they keep to the rows of the household too.
use nestai.Prelude.{
  ◌≡◌, refl, inl, inr, subst, true, ◌&&◌, Option, some, String, arith, All-Some, Bool-cases,
  Option-cases, str_eq, eq_iff,
}
use nestai.Prelude.Results.{ok, Result-cases}
use nestai.Contracts.Enums.{TaskStatus}
use nestai.Contracts.Entities.{IsoDateTime, Member, Task}
use nestai.Core.Locale.{Locale}
use nestai.Core.Routing.Engine.{RoutingDecision, route}
use nestai.Core.Routing.Engine.Decision.{CanTake, route-eligible}
use nestai.Api.Database.{Database, Store, TenantContext, household_id}
use nestai.Api.TaskRows.{give_to, CreateTaskInput, new_task}
use nestai.Api.Tasks.{route_and_assign, create, routing_input}
use nestai.Api.Tasks.Steps.{get-cases, Some-const}
use nestai.Api.Tasks.Writes.{
  IsMember, Safe, Safe-refl, Safe-trans, update_task-Safe, create_task-Safe,
}
use nestai.Api.Tasks.Isolation.{assigned_to}

module _ (db : Database) (tenant : TenantContext) (h : String)
    (resolved : household_id tenant ≡ ok h) where
  module _ (locale : Locale) (parse : String → Option IsoDateTime) where
    decision-IsMember :
        (now : IsoDateTime) (t : Task) (s : Store db) (d : RoutingDecision) (id : String)
        → route locale parse (routing_input db tenant locale parse h now t s) ≡ ok d
        → d.assigned_member_id ≡ some id
        → IsMember db h s id
    decision-IsMember now t s d id e is_id =
        let among = λ (m : Member). m.active && str_eq m.household_id h in
        Some-const (
          All-Some (db.member.find_many among s.members)
            (λ m (facts : (among m ≡ true) × (db.member.find_unique m.id s.members ≡ some m))
                (chosen : (m.id ≡ id)
                  × CanTake parse (routing_input db tenant locale parse h now t s) m).
              (
                m,
                subst (λ k. db.member.find_unique k s.members ≡ some m) chosen.0 facts.1,
                (eq_iff m.household_id h).0 (ground (arith, facts.0)),
              ))
            (db.member.find_many-find_unique among s.members)
            (route-eligible locale parse _ d id e is_id))

    route_and_assign-Safe :
        (now : IsoDateTime) (task_id : String) (s : Store db)
        → Safe db h s (route_and_assign db tenant locale parse now task_id s).0
    unfolding route_and_assign
    route_and_assign-Safe now task_id s = elim (get-cases db tenant h resolved task_id s) [
      | inl (f, e) ↦ ground (arith, e, Safe-refl db h s)
      | inr (t, e, found, own) ↦
          elim (Result-cases
            (route locale parse (routing_input db tenant locale parse h now t s))) [
              | inr (fault, e') ↦ ground (arith, e, resolved, e', Safe-refl db h s)
              | inl (d, e') ↦ elim (Option-cases d.assigned_member_id) [
                | inl free ↦ ground (arith, e, resolved, e', free, Safe-refl db h s)
                | inr (id, is_id) ↦ elim (Bool-cases (str_eq id "")) [
                  | inl empty ↦ ground (arith, e, resolved, e', is_id, empty, Safe-refl db h s)
                  | inr named ↦
                      let member = decision-IsMember now t s d id e' is_id in
                      ground (
                        arith,
                        e,
                        resolved,
                        e',
                        is_id,
                        named,
                        found,
                        update_task-Safe db h task_id (give_to (some id) TaskStatus.assigned) s t
                            (λ x. refl) (λ x. refl)
                            (λ a is_a. inr (assigned_to db tenant h resolved s id a member is_a))
                            found own,
                      )
                ]
              ]
            ]
    ]

    pub create-Safe :
        (fresh : String) (now : IsoDateTime) (input : CreateTaskInput) (s : Store db)
        → Safe db h s (create db tenant locale parse fresh now input s).0
    unfolding create
    create-Safe fresh now input s =
        let row : Task = new_task fresh h now input in
        let s' : Store db = record s { tasks = db.task.create row s.tasks } in
        elim (Option-cases (db.task.find_unique fresh s.tasks)) [
          | inr (other, e) ↦ ground (arith, resolved, e, Safe-refl db h s)
          | inl e ↦
              let made : Safe db h s s' = create_task-Safe db h row s e refl refl in
              elim (Bool-cases input.no_route) [
                | inl skip ↦ ground (arith, resolved, e, skip, made)
                | inr routed ↦
                    let safe = Safe-trans db h made (route_and_assign-Safe now fresh s') in
                    elim (Result-cases (route_and_assign db tenant locale parse now fresh s').1) [
                      | inl (d, e') ↦ ground (arith, resolved, e, routed, e', safe)
                      | inr (fault, e') ↦ ground (arith, resolved, e, routed, e', safe)
                    ]
              ]
        ]
