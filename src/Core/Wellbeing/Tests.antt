-- ===== src/Core/Wellbeing/Tests.antt =====
-- Runs of wellbeing.ts, and its theorems at concrete inputs.
use nestai.Prelude.{
  ℕ, ◌+◌, ◌*◌, ◌≤◌, ◌<◌, ◌≡◌, refl, false, inr, String, List, [], ◌∷◌, none, some, All, Some, Perm,
  arith, map, eq_iff,
}
use nestai.Prelude.Sorting.{Pairwise, IsSorted, sort_by}
use nestai.Contracts.Enums.{WellnessKind, WellnessPeriod, TaskStatus, TaskUrgency, TaskCategory}
use nestai.Contracts.Entities.{LoadEquity, Task, WellnessGoal}
use nestai.Core.Time.{minute}
use nestai.Core.Samples.{code_points, noon, mum, family}
use nestai.Core.Wellbeing.Windows.{
  BusyBlock, FindMicroWindowsInput, compute_gaps, find_micro_windows, blocks_of, gaps_from, place,
}
use nestai.Core.Wellbeing.Gaps.{IsFree, compute_gaps-IsFree, compute_gaps-covers}
use nestai.Core.Wellbeing.Placement.{IsServing, Disjoint, find_micro_windows-IsServing}
use nestai.Core.Wellbeing.Equity.{
  compute_load_equity, larger_share, loads_of, count_tasks, count_task, init_loads, put, lookup,
  share, capped,
}
use nestai.Prelude.Doubles.{quotient, scale_up, round_even}
use nestai.Core.Wellbeing.Fairness.{IsFair, compute_load_equity-IsFair}

abbrev busy : ℕ → ℕ → String → BusyBlock
busy from to label = record {
  starts_at = noon + from * minute;
  ends_at = noon + to * minute;
  label = some label;
}

abbrev run_goal : String → ℕ → WellnessGoal
run_goal id minutes = record {
  id = id;
  household_id = "h-1";
  member_id = "mum";
  kind = WellnessKind.gym;
  target_count = 3;
  duration_min = minutes;
  period = WellnessPeriod.weekly;
}

-- Two hours, with a meeting from 0:30 to 1:00.
abbrev request : FindMicroWindowsInput
request = record {
  member = mum;
  goals = run_goal "run" 20 ∷ run_goal "read" 15 ∷ [];
  busy = busy 30 60 "meeting" ∷ [];
  range_start = noon;
  range_end = noon + 120 * minute;
  edge_buffer_minutes = 5;
}

abbrev task : String → String → TaskUrgency → TaskCategory → Task
task id member urgency category = record {
  id = id;
  household_id = "h-1";
  title = id;
  description = none;
  due_at = none;
  urgency = urgency;
  status = TaskStatus.assigned;
  category = category;
  assigned_member_id = some member;
  required_skills = [];
  min_age = none;
  max_age = none;
  recurrence_rule = none;
  source_message_id = none;
  requires_approval = false;
  confidence = 90;
  created_at = noon;
}

abbrev chores : List Task
chores =
    task "t1" "mum" TaskUrgency.low TaskCategory.school
    ∷ task "t2" "dad" TaskUrgency.med TaskCategory.errand
    ∷ task "t3" "mum" TaskUrgency.critical TaskCategory.maintenance
    ∷ []

windows_run : map (λ w. w.starts_at) (find_micro_windows request) ≡ noon ∷ (noon + 65 * minute) ∷ []
unfolding find_micro_windows compute_gaps blocks_of gaps_from place sort_by
windows_run = refl

abbrev figures : LoadEquity → String × ℕ × ℕ
figures e = (e.member_id, e.share_pct, e.task_load)

equity_run :
    map figures (compute_load_equity code_points family chores none)
    ≡ ("dad", 667, 2) ∷ ("mum", 333, 1) ∷ ("kid", 0, 0) ∷ []
unfolding compute_load_equity loads_of count_tasks count_task init_loads put lookup share sort_by
    capped quotient scale_up round_even
equity_run = refl

-- 23 of 80 is 28.75 per cent, whose double is less.
share_run : share 23 80 ≡ 287
unfolding share capped quotient scale_up round_even
share_run = refl

compute_gaps-IsFree_example : All (IsFree request) (compute_gaps request)
compute_gaps-IsFree_example = compute_gaps-IsFree request

compute_gaps-covers_example :
    Some (λ g. (g.start ≤ noon + 70 * minute) × (noon + 70 * minute < g.end)) (compute_gaps request)
compute_gaps-covers_example =
    compute_gaps-covers request (noon + 70 * minute) (omega arith) (omega arith)
      (inr (omega arith), tt)

find_micro_windows-IsServing_example :
    All (IsServing request) (find_micro_windows request)
    × Pairwise Disjoint (find_micro_windows request)
find_micro_windows-IsServing_example = find_micro_windows-IsServing request

compute_load_equity-IsFair_example :
    All
      (IsFair
        (TaskCategory.logistics ∷ TaskCategory.school ∷ TaskCategory.errand ∷ [])
        family
        chores)
      (compute_load_equity code_points family chores none)
    × Perm
        (map (λ e. e.member_id) (compute_load_equity code_points family chores none))
        (map (λ m. m.id) family)
    × IsSorted (larger_share code_points) (compute_load_equity code_points family chores none)
compute_load_equity-IsFair_example = compute_load_equity-IsFair code_points family chores none (
  λ e. ground (arith, eq_iff "kid" ""),
  (λ e. ground (arith, eq_iff "dad" ""), (λ e. ground (arith, eq_iff "mum" ""), tt)),
)
