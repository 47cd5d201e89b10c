-- ===== src/Api/Tasks/Claims.antt =====
-- tasks.service.ts, claim and drop: the lock that a granted claim takes.
use nestai.Prelude.{
  ◌≡◌, refl, sym, ap, ◌∙◌, inl, inr, Bool, true, false, some, String, arith, Bool-cases,
  Option-cases, str_eq_refl,
}
use nestai.Prelude.Results.{Result, ok, throw, Result-cases}
use nestai.Contracts.Enums.{TaskStatus}
use nestai.Contracts.Entities.{IsoDateTime, Member, Task, EscalationEvent}
use nestai.Core.Escalation.{is_set}
use nestai.Api.Database.{Database, Store, TenantContext, household_id}
use nestai.Api.TaskRows.{Answer, give_to, resolve, state_of, is_open, is_locked, apply_patch}
use nestai.Api.Tasks.{claim, claim_event, claim_unlocked}
use nestai.Api.Tasks.Steps.{
  get-cases, get-own, owned_or_404-own, claim-cases, granted, find_first-found,
}
use nestai.Api.Tasks.Writes.{IsMember, IsSound}
use nestai.Api.Tasks.Isolation.{member-cases}

-- The task is stored as claimed by the member.
pub record IsClaimed (db : Database) (h id member : String) (s : Store db) : Type 0 where
  pub task : Task
  pub stored : db.task.find_unique id s.tasks ≡ some task
  pub own : task.household_id ≡ h
  pub status : task.status ≡ TaskStatus.claimed
  pub holder : task.assigned_member_id ≡ some member

-- The call was answered, and the answer says `ok: true`.
abbrev pub was_granted : Result Answer → Bool
was_granted (ok a) = a.succeeded
was_granted (throw fault) = false

module _ (db : Database) (tenant : TenantContext) (h : String)
    (resolved : household_id tenant ≡ ok h) where
  give-IsClaimed :
      (id member : String) (s : Store db) (t : Task) (f : Task → Task)
      → ((x : Task) → (f x).id ≡ x.id)
      → (f t).household_id ≡ h
      → (f t).status ≡ TaskStatus.claimed
      → (f t).assigned_member_id ≡ some member
      → db.task.find_unique id s.tasks ≡ some t
      → IsClaimed db h id member (record s { tasks = db.task.update id f s.tasks })
  give-IsClaimed id member s t f keeps own status holder found = record {
    task = f t;
    stored = rw (db.task.find_unique-update id id f s.tasks t keeps found, str_eq_refl id) refl;
    own = own;
    status = status;
    holder = holder;
  }

  claim_event-IsClaimed :
      (id member : String) (now : IsoDateTime) (event : EscalationEvent) (s : Store db) (t : Task)
      (a : Answer)
      → db.task.find_unique id s.tasks ≡ some t
      → t.household_id ≡ h
      → db.escalation_event.find_unique event.id s.escalations ≡ some event
      → (claim_event db tenant h id member now event s).1 ≡ ok a
      → a.succeeded ≡ true
      → IsClaimed db h id member (claim_event db tenant h id member now event s).0
  unfolding claim_event
  claim_event-IsClaimed id member now event s t a found own found_event =
      elim (claim-cases (state_of h id event) member now) [
        | inl (e, _) ↦ λ answer granting. ground (arith, e)
        | inr (e, _) ↦ λ answer granting.
            let s' : Store db = record s {
              escalations = db.escalation_event.update event.id (resolve member now) s.escalations;
            } in
            ground (
              arith,
              e,
              found_event,
              found,
              give-IsClaimed id member s' t
                  (apply_patch (granted (state_of h id event) member now).task_patch) (λ x. refl)
                  own refl refl found,
            )
      ]

  claim_unlocked-IsClaimed :
      (id member : String) (now : IsoDateTime) (s : Store db) (t : Task) (a : Answer)
      → db.task.find_unique id s.tasks ≡ some t
      → t.household_id ≡ h
      → (claim_unlocked db tenant id member now s).1 ≡ ok a
      → a.succeeded ≡ true
      → IsClaimed db h id member (claim_unlocked db tenant id member now s).0
  unfolding claim_unlocked
  claim_unlocked-IsClaimed id member now s t a found own answer granting =
      elim (Option-cases
        (db.escalation_event.find_first (is_open h id) (λ e. e.created_at) s.escalations)) [
          | inl e ↦ ground (
            arith,
            resolved,
            e,
            found,
            give-IsClaimed id member s t (give_to (some member) TaskStatus.claimed) (λ x. refl) own
                refl refl found,
          )
          | inr (event, e) ↦
              let (passes, found_event) =
                find_first-found db.escalation_event (is_open h id) (λ e. e.created_at)
                  s.escalations event e in
              ground (
                arith,
                resolved,
                e,
                claim_event-IsClaimed id member now event s t a found own found_event,
              )
        ]

  claim-IsClaimed :
      (id member : String) (now : IsoDateTime) (s : Store db) (a : Answer)
      → (claim db tenant id member now s).1 ≡ ok a
      → a.succeeded ≡ true
      → IsClaimed db h id member (claim db tenant id member now s).0
  unfolding claim
  claim-IsClaimed id member now s a answer granting = elim (get-cases db tenant h resolved id s) [
    | inl (f, e) ↦ ground (arith, e)
    | inr (t, e, found, own) ↦ elim (member-cases db tenant h resolved member s) [
      | inl (f, e') ↦ ground (arith, e, e')
      | inr (m, e', listed) ↦ elim (Bool-cases (is_locked t.status)) [
        | inl locked ↦ ground (arith, e, e', locked)
        | inr free ↦
            ground (arith, e, e', free, claim_unlocked-IsClaimed id member now s t a found own)
      ]
    ]
  ]

  locked-claim :
      (id member : String) (now : IsoDateTime) (s : Store db) (t : Task)
      → db.task.find_unique id s.tasks ≡ some t
      → is_locked t.status ≡ true
      → ((claim db tenant id member now s).0 ≡ s)
        × (was_granted (claim db tenant id member now s).1 ≡ false)
  unfolding claim
  locked-claim id member now s t stored locked = elim (get-cases db tenant h resolved id s) [
    | inl (f, e) ↦ (ground (arith, e), ground (arith, e))
    | inr (t', e, found, own) ↦
        let same : some t' ≡ some t = sym found ∙ stored in
        let locked' : is_locked t'.status ≡ true = ground (arith, same) in
        elim (member-cases db tenant h resolved member s) [
          | inl (f, e') ↦ (ground (arith, e, e'), ground (arith, e, e'))
          | inr (m, e', listed) ↦ (ground (arith, e, e', locked'), ground (arith, e, e', locked'))
        ]
  ]

  -- After a claim that is granted, the task is stored as CLAIMED by the member who claimed it, and a
  -- later claim of it, by whichever member and at whatever time, changes no row and is not granted.
  pub claim_locks :
      (id member : String) (now : IsoDateTime) (s : Store db)
      → was_granted (claim db tenant id member now s).1 ≡ true
      → (rival : String) (later : IsoDateTime)
      → IsClaimed db h id member (claim db tenant id member now s).0
        × ((claim db tenant id rival later (claim db tenant id member now s).0).0
            ≡ (claim db tenant id member now s).0)
        × (was_granted (claim db tenant id rival later (claim db tenant id member now s).0).1
            ≡ false)
  claim_locks id member now s granting rival later =
      elim (Result-cases (claim db tenant id member now s).1) [
        | inl (a, answer) ↦
            let held = claim-IsClaimed id member now s a answer (ground (arith, answer)) in
            let (unchanged, denied) =
              locked-claim id rival later (claim db tenant id member now s).0 held.task held.stored
                (ap is_locked held.status) in
            (held, unchanged, denied)
        | inr (fault, refusal) ↦ ground (arith, refusal)
      ]

  -- The answer of a granted claim.
  IsGranting : Store db × Result Answer → Type 0
  IsGranting outcome = (a : Answer) × (outcome.1 ≡ ok a) × (a.succeeded ≡ true)

  claim_event-IsGranting :
      (id member : String) (now : IsoDateTime) (event : EscalationEvent) (s : Store db) (t : Task)
      → db.task.find_unique id s.tasks ≡ some t
      → db.escalation_event.find_unique event.id s.escalations ≡ some event
      → is_set event.resolved_at ≡ false
      → is_set event.claimed_by_id ≡ false
      → IsGranting (claim_event db tenant h id member now event s)
  unfolding claim_event IsGranting
  claim_event-IsGranting id member now event s t found found_event unresolved unclaimed =
      elim (claim-cases (state_of h id event) member now) [
        | inl (e, blocked) ↦ ground arith
        | inr (e, _) ↦ elim (Result-cases (claim_event db tenant h id member now event s).1) [
          | inl (a, out) ↦ (a, out, ground (arith, e, found_event, found, out))
          | inr (fault, out) ↦ ground (arith, e, found_event, found, out)
        ]
      ]

  claim_unlocked-IsGranting :
      (id member : String) (now : IsoDateTime) (s : Store db) (t : Task)
      → db.task.find_unique id s.tasks ≡ some t
      → IsSound db s
      → IsGranting (claim_unlocked db tenant id member now s)
  unfolding claim_unlocked IsGranting
  claim_unlocked-IsGranting id member now s t found sound =
      elim (Option-cases
        (db.escalation_event.find_first (is_open h id) (λ e. e.created_at) s.escalations)) [
          | inl e ↦ elim (Result-cases (claim_unlocked db tenant id member now s).1) [
            | inl (a, out) ↦ (a, out, ground (arith, resolved, e, found, out))
            | inr (fault, out) ↦ ground (arith, resolved, e, found, out)
          ]
          | inr (event, e) ↦
              let (passes, found_event) =
                find_first-found db.escalation_event (is_open h id) (λ e. e.created_at)
                  s.escalations event e in
              let unresolved : is_set event.resolved_at ≡ false = ground arith in
              let (a, out, granting) =
                claim_event-IsGranting id member now event s t found found_event unresolved
                  (sound.consistent event.id event found_event ∙ unresolved) in
              (a, ground (arith, resolved, e, out), granting)
        ]

  claim-IsGranting :
      (id member : String) (now : IsoDateTime) (s : Store db) (t : Task)
      → db.task.find_unique id s.tasks ≡ some t
      → t.household_id ≡ h
      → is_locked t.status ≡ false
      → IsMember db h s member
      → IsSound db s
      → IsGranting (claim db tenant id member now s)
  unfolding claim IsGranting
  claim-IsGranting id member now s t found own free (m, listed, at_home) sound =
      let (a, out, granting) = claim_unlocked-IsGranting id member now s t found sound in
      (
        a,
        ground (
          arith,
          get-own db tenant h resolved id t s found own,
          owned_or_404-own db tenant h resolved (λ (x : Member). x.household_id)
              (db.member.find_unique member s.members) m s listed at_home,
          free,
          out,
        ),
        granting,
      )

  -- Where the rows are sound, a claim of a task of the household by one of its members is granted,
  -- and stores the task as CLAIMED by that member, whenever the task is neither CLAIMED nor DONE.
  pub claim_grants :
      (id member : String) (now : IsoDateTime) (s : Store db) (t : Task)
      → db.task.find_unique id s.tasks ≡ some t
      → t.household_id ≡ h
      → is_locked t.status ≡ false
      → IsMember db h s member
      → IsSound db s
      → (was_granted (claim db tenant id member now s).1 ≡ true)
        × IsClaimed db h id member (claim db tenant id member now s).0
  unfolding IsGranting
  claim_grants id member now s t found own free inside sound =
      let (a, out, granting) = claim-IsGranting id member now s t found own free inside sound in
      (ap was_granted out ∙ granting, claim-IsClaimed id member now s a out granting)
