-- ===== src/Api/Tasks/Tests.antt =====
-- Runs of tasks.service.ts on small stores, and its theorems at concrete inputs.
use nestai.Prelude.{
  ◌+◌, ◌*◌, ◌≡◌, ◌↔◌, refl, ap, ◌∙◌, true, false, List, [], ◌∷◌, none, some, arith, eq_iff,
}
use nestai.Prelude.Results.{ok}
use nestai.Prelude.Sorting.{sort_by}
use nestai.Contracts.Enums.{TaskStatus, TaskUrgency, TaskCategory}
use nestai.Contracts.Entities.{Task, EscalationEvent}
use nestai.Core.Time.{minute}
use nestai.Core.Samples.{code_points, noon, mum, family}
use nestai.Core.Escalation
use nestai.Core.Escalation.{claimed_and_locked}
use nestai.Api.Table.Rows.{list_table, distinct}
use nestai.Api.Database.{Database, Store}
use nestai.Api.TaskRows.{Answer, decided, give_to}
use nestai.Api.Tasks.{get, claim, claim_unlocked, claim_event}
use nestai.Api.Tasks.Writes.{IsSound}
use nestai.Api.Tasks.Tenancy.{Call, serve, post_claim, patch_status, serve-foreign, serve-IsSound}
use nestai.Api.Tasks.Claims.{IsClaimed, was_granted, claim_locks, claim_grants}

abbrev db : Database
db = record {
  task = list_table (λ t. t.id);
  member = list_table (λ m. m.id);
  routing_rule = list_table (λ r. r.id);
  escalation_event = list_table (λ e. e.id);
  availability_block = list_table (λ b. b.id);
}

abbrev dishes : Task
dishes = record {
  id = "t-1";
  household_id = "h-1";
  title = "dishes";
  description = none;
  due_at = none;
  urgency = TaskUrgency.med;
  status = TaskStatus.dropped;
  category = TaskCategory.maintenance;
  assigned_member_id = none;
  required_skills = [];
  min_age = none;
  max_age = none;
  recurrence_rule = none;
  source_message_id = none;
  requires_approval = false;
  confidence = 100;
  created_at = noon;
}

abbrev event : EscalationEvent
event = record {
  id = "e-1";
  household_id = "h-1";
  task_id = "t-1";
  tier = 0;
  broadcast_at = none;
  claimed_by_id = none;
  resolved_at = none;
  deadline = noon + 60 * minute;
  created_at = noon;
}

abbrev store : Store db
store = record {
  tasks = dishes ∷ [];
  members = family;
  rules = [];
  escalations = event ∷ [];
  availability = [];
}

abbrev granted : Answer
granted = record {
  succeeded = true;
  task = some (give_to (some "mum") TaskStatus.claimed dishes);
  reason = decided (claimed_and_locked "mum");
}

claiming : Unit {0}
unfolding claim claim_unlocked claim_event get Escalation.claim distinct sort_by
claiming = tt

claim_run : (claim db (some "h-1") "t-1" "mum" noon store).1 ≡ ok granted
unfolding claiming
claim_run = refl

claim_locks_example :
    IsClaimed db "h-1" "t-1" "mum" (claim db (some "h-1") "t-1" "mum" noon store).0
    × ((claim db
          (some "h-1")
          "t-1"
          "dad"
          (noon + minute)
          (claim db (some "h-1") "t-1" "mum" noon store).0).0
        ≡ (claim db (some "h-1") "t-1" "mum" noon store).0)
    × (was_granted
          (claim db
            (some "h-1")
            "t-1"
            "dad"
            (noon + minute)
            (claim db (some "h-1") "t-1" "mum" noon store).0).1
        ≡ false)
claim_locks_example =
    claim_locks db (some "h-1") "h-1" refl "t-1" "mum" noon store (ap was_granted claim_run) "dad"
      (noon + minute)

store-IsSound : IsSound db store
store-IsSound = record {
  assigned = λ k t a found is_a.
      let home : dishes.assigned_member_id ≡ t.assigned_member_id =
        ground (arith, eq_iff "t-1" k) in
      let never : none ≡ some a = home ∙ is_a in cc;
  consistent = λ k e found. ground (arith, eq_iff "e-1" k);
}

claim_grants_example :
    (was_granted (claim db (some "h-1") "t-1" "mum" noon store).1 ≡ true)
    × IsClaimed db "h-1" "t-1" "mum" (claim db (some "h-1") "t-1" "mum" noon store).0
claim_grants_example =
    claim_grants db (some "h-1") "h-1" refl "t-1" "mum" noon store dishes refl refl refl
      (mum, refl, refl) store-IsSound

-- Another household names the ids of the first.
abbrev calls : List Call
calls =
    record { household = "h-2"; request = post_claim "t-1" "mum" noon }
    ∷ record { household = "h-2"; request = patch_status "t-1" TaskStatus.done }
    ∷ []

serve-foreign_example :
    ((db.task.find_unique "t-1" store.tasks ≡ some dishes) ↔ (
      db.task.find_unique "t-1" (serve db code_points (λ t. none) calls store).tasks ≡ some dishes))
    × ((db.escalation_event.find_unique "t-1" store.escalations ≡ some event) ↔ (
        db.escalation_event.find_unique "t-1"
          (serve db code_points (λ t. none) calls store).escalations
        ≡ some event))
    × ((serve db code_points (λ t. none) calls store).members ≡ store.members)
serve-foreign_example =
    serve-foreign db code_points (λ t. none) "h-1" calls store
      (
        (λ e. ground (arith, eq_iff "h-2" ""), λ e. ground (arith, eq_iff "h-1" "h-2")),
        ((λ e. ground (arith, eq_iff "h-2" ""), λ e. ground (arith, eq_iff "h-1" "h-2")), tt),
      )
      "t-1" dishes refl event refl

serve-IsSound_example : IsSound db (serve db code_points (λ t. none) calls store)
serve-IsSound_example =
    serve-IsSound db code_points (λ t. none) calls store
      (λ e. ground (arith, eq_iff "h-2" ""), (λ e. ground (arith, eq_iff "h-2" ""), tt))
      store-IsSound
