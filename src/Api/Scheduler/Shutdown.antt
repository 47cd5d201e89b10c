-- ===== src/Api/Scheduler/Shutdown.antt =====
-- scheduler.service.ts, onModuleInit and onModuleDestroy, with the in-memory queue.
use nestai.Prelude.{ℕ, ◌≡◌, refl, Bool, true, false, String, List, [], ◌∷◌, subst, sym}
use nestai.Prelude.Results.{Result, ok, throw}
use nestai.Api.Queue.{
  Queue, Reach, registers, repeats, removes, start, next, register, repeat, remove_repeatable,
  empty,
}
use nestai.Api.Queue.Reachable.{close-leaves_none}
use nestai.Api.Scheduler.{
  Job, Scheduler, job_name, jobs, repeat_options, register_all, register_handlers, repeat_all,
  schedule_repeatables, on_module_init, remove_all, on_module_destroy, with_key, add_keys,
}

abbrev Jobs : Type 0
Jobs = Queue (Unit {0}) Job

abbrev pub new_scheduler : ℕ → Scheduler
new_scheduler now = record { repeat_keys = []; queue = empty now }

Reach-Reach : {q r s : Jobs} → Reach q r → Reach r s → Reach q s
Reach-Reach a start = a
Reach-Reach a (next b step) = next (Reach-Reach a b) step

register_all-Reach : (js : List Job) (q : Jobs) → Reach q (register_all js q)
register_all-Reach [] q = start
register_all-Reach (job ∷ js) q =
    Reach-Reach (next start (registers (job_name job) job))
      (register_all-Reach js (register (job_name job) job q))

remove_all-Reach : (keys : List String) (q : Jobs) → Reach q (remove_all keys q)
remove_all-Reach [] q = start
remove_all-Reach (key ∷ keys) q =
    Reach-Reach (next start (removes key)) (remove_all-Reach keys (remove_repeatable key q))

with_key-Reach :
    (key : Result String) (q r : Jobs) (rest : Jobs × Result (List String))
    → Reach q r
    → Reach r rest.0
    → Reach q (with_key key r rest).0
with_key-Reach (throw fault) q r rest a b = a
with_key-Reach (ok key) q r rest a b = Reach-Reach a b

repeat_all-Reach : (js : List Job) (q : Jobs) → Reach q (repeat_all js q).0
repeat_all-Reach [] q = start
repeat_all-Reach (job ∷ js) q =
    let (r, key) = repeat (job_name job) tt (repeat_options job) q in
    with_key-Reach key q r (repeat_all js r)
      (next start (repeats (job_name job) tt (repeat_options job))) (repeat_all-Reach js r)

add_keys_queue : (s : Scheduler) (r : Jobs × Result (List String)) → (add_keys s r).0.queue ≡ r.0
add_keys_queue s (q, throw fault) = refl
add_keys_queue s (q, ok keys) = refl

init-Reach : (disabled : Bool) (s : Scheduler) → Reach s.queue (on_module_init disabled s).0.queue
unfolding on_module_init register_handlers schedule_repeatables
init-Reach true s = register_all-Reach jobs s.queue
init-Reach false s =
    let registered : Jobs = register_all jobs s.queue in
    subst (Reach s.queue)
      (sym (add_keys_queue (record s { queue = registered }) (repeat_all jobs registered)))
      (Reach-Reach (register_all-Reach jobs s.queue) (repeat_all-Reach jobs registered))

abbrev pub started : Bool → ℕ → Scheduler
started disabled now = (on_module_init disabled (new_scheduler now)).0

-- The queue after the service has been destroyed in the state `q` of its queue.
abbrev pub stopped : Bool → ℕ → Jobs → Jobs
stopped disabled now q = (on_module_destroy (record (started disabled now) { queue = q })).queue

-- A service that starts on a new queue leaves no timer of the host set when it is destroyed, in
-- whatever mode it starts, and whatever calls and timers of the queue come between.
pub on_module_destroy-leaves_none :
    (disabled : Bool) (now : ℕ) {q : Jobs}
    → Reach (started disabled now).queue q
    → (stopped disabled now q).host.timers ≡ []
unfolding on_module_destroy
on_module_destroy-leaves_none disabled now {q} between = close-leaves_none (
    Reach-Reach (Reach-Reach (init-Reach disabled (new_scheduler now)) between)
      (remove_all-Reach (started disabled now).repeat_keys q))
