-- ===== src/Api/Tasks/Tenancy.antt =====
-- tasks.controller.ts and tasks.service.ts: what any sequence of calls, by any households, leaves
-- as it was.
use nestai.Prelude.{
  ◌≡◌, ◌≢◌, ◌↔◌, refl, sym, ◌∙◌, List, [], ◌∷◌, Option, some, String, arith, All, eq_iff,
}
use nestai.Prelude.Results.{ok}
use nestai.Contracts.Enums.{TaskStatus}
use nestai.Contracts.Entities.{IsoDateTime, Task, EscalationEvent}
use nestai.Core.Locale.{Locale}
use nestai.Api.Database.{Database, Store, household_id}
use nestai.Api.TaskRows.{CreateTaskInput}
use nestai.Api.Tasks.{set_status, assign, claim, drop, create}
use nestai.Api.Tasks.Writes.{IsSound, Safe}
use nestai.Api.Tasks.Isolation.{set_status-Safe, assign-Safe, claim-Safe, drop-Safe}
use nestai.Api.Tasks.Routing.{create-Safe}

-- The calls that change rows, each with its time and the id that the database draws.
pub data Request : Type 0 where
  post_task : (fresh : String) → IsoDateTime → CreateTaskInput → Request
  post_assign : (task_id member_id : String) → Request
  post_drop :
      (fresh : String) → IsoDateTime → (task_id member_id : String) → Option String → Request
  post_claim : (task_id member_id : String) → IsoDateTime → Request
  patch_status : (task_id : String) → TaskStatus → Request

-- A call with the household that its header names.
pub record Call : Type 0 where
  pub household : String
  pub request : Request

-- The rows of household `g` are the same, and so are the members.
record IsUntouched (db : Database) (g : String) (s u : Store db) : Type 0 where
  tasks :
      (k : String) (t : Task)
      → t.household_id ≡ g
      → (db.task.find_unique k s.tasks ≡ some t) ↔ (db.task.find_unique k u.tasks ≡ some t)
  escalations :
      (k : String) (e : EscalationEvent)
      → e.household_id ≡ g
      → (db.escalation_event.find_unique k s.escalations ≡ some e)
        ↔ (db.escalation_event.find_unique k u.escalations ≡ some e)
  members : u.members ≡ s.members

module _ (db : Database) (locale : Locale) (parse : String → Option IsoDateTime) where
  unfoldable pub perform : String → Request → Store db → Store db
  perform h (Request.post_task fresh now input) s =
      (create db (some h) locale parse fresh now input s).0
  perform h (Request.post_assign task_id member_id) s = (assign db (some h) task_id member_id s).0
  perform h (Request.post_drop fresh now task_id member_id reason) s =
      (drop db (some h) fresh now task_id member_id reason s).0
  perform h (Request.post_claim task_id member_id now) s =
      (claim db (some h) task_id member_id now s).0
  perform h (Request.patch_status task_id status) s = (set_status db (some h) task_id status s).0

  unfoldable pub serve : List Call → Store db → Store db
  serve [] s = s
  serve (call ∷ calls) s = serve calls (perform call.household call.request s)

  named-resolved : (h : String) → h ≢ "" → household_id (some h) ≡ ok h
  named-resolved h named = ground (arith, eq_iff h "")

  perform-Safe :
      (h : String) (request : Request) (s : Store db) → h ≢ "" → Safe db h s (perform h request s)
  unfolding perform
  perform-Safe h (Request.post_task fresh now input) s named =
      create-Safe db (some h) h (named-resolved h named) locale parse fresh now input s
  perform-Safe h (Request.post_assign task_id member_id) s named =
      assign-Safe db (some h) h (named-resolved h named) task_id member_id s
  perform-Safe h (Request.post_drop fresh now task_id member_id reason) s named =
      drop-Safe db (some h) h (named-resolved h named) fresh now task_id member_id reason s
  perform-Safe h (Request.post_claim task_id member_id now) s named =
      claim-Safe db (some h) h (named-resolved h named) task_id member_id now s
  perform-Safe h (Request.patch_status task_id status) s named =
      set_status-Safe db (some h) h (named-resolved h named) task_id status s

  serve-Spares :
      (g : String) (calls : List Call) (s : Store db)
      → All (λ c. (c.household ≢ "") × (g ≢ c.household)) calls
      → IsUntouched db g s (serve calls s)
  unfolding serve
  serve-Spares g [] s others = record {
    tasks = λ k t own. (λ b. b, λ a. a);
    escalations = λ k e own. (λ b. b, λ a. a);
    members = refl;
  }
  serve-Spares g (call ∷ calls) s ((named, other), others) =
      let spared = (perform-Safe call.household call.request s named).0 in
      let rest = serve-Spares g calls (perform call.household call.request s) others in
      record {
        tasks = λ k t own.
            let first = spared.tasks k t (λ e. other (sym own ∙ e)) in
            (λ b. (rest.tasks k t own).0 (first.0 b), λ a. first.1 ((rest.tasks k t own).1 a));
        escalations = λ k x own.
            let first = spared.escalations k x (λ e. other (sym own ∙ e)) in
            (
              λ b. (rest.escalations k x own).0 (first.0 b),
              λ a. first.1 ((rest.escalations k x own).1 a),
            );
        members = rest.members ∙ spared.members;
      }

  -- Calls to the tasks service that other households make, in whatever order and with whatever ids,
  -- neither change, remove nor add a task or an escalation of household `g`, and change no member;
  -- each call's header names a household.
  pub serve-foreign :
      (g : String) (calls : List Call) (s : Store db)
      → All (λ c. (c.household ≢ "") × (g ≢ c.household)) calls
      → (k : String) (t : Task) → t.household_id ≡ g
      → (e : EscalationEvent) → e.household_id ≡ g
      → ((db.task.find_unique k s.tasks ≡ some t)
          ↔ (db.task.find_unique k (serve calls s).tasks ≡ some t))
        × ((db.escalation_event.find_unique k s.escalations ≡ some e)
            ↔ (db.escalation_event.find_unique k (serve calls s).escalations ≡ some e))
        × ((serve calls s).members ≡ s.members)
  serve-foreign g calls s others k t own e own_event =
      let untouched = serve-Spares g calls s others in
      (untouched.tasks k t own, untouched.escalations k e own_event, untouched.members)

  -- Sound rows stay sound under any calls to the tasks service by any households, which include
  -- the routing of a new task: each assigned task belongs to a member of its own household, and
  -- each escalation has a claimant exactly when it is resolved.
  pub serve-IsSound :
      (calls : List Call) (s : Store db)
      → All (λ c. c.household ≢ "") calls
      → IsSound db s
      → IsSound db (serve calls s)
  unfolding serve
  serve-IsSound [] s named sound = sound
  serve-IsSound (call ∷ calls) s (named, rest) sound =
      serve-IsSound calls (perform call.household call.request s) rest
        ((perform-Safe call.household call.request s named).1 sound)
