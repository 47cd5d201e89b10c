-- ===== src/Core/Wellbeing/Equity.antt =====
-- wellbeing.ts, lines 148 to 264: the balance battery and the load equity. Percentages are rounded
-- to tenths of a per cent and counted in them; they are computed in doubles, as the code does.
use nestai.Prelude.{
  ℕ, ◌+◌, ◌*◌, Bool, true, false, ◌&&◌, String, List, [], ◌∷◌, Option, none, some, ltb, ◌==◌,
  str_eq, if◌then◌else◌, filter, find, any, map, length,
}
use nestai.Prelude.Doubles.{Double, quotient, times, round}
use nestai.Prelude.Sorting.{sort_by}
use nestai.Contracts.Enums.{TaskUrgency, TaskCategory, same_category, is_claimed}
use nestai.Contracts.Entities.{
  Member, Task, WellnessGoal, WellnessWindow, BalanceBattery, LoadEquity,
}
use nestai.Core.Locale.{Locale}

abbrev pub urgency_weight : TaskUrgency → ℕ
urgency_weight TaskUrgency.low = 1
urgency_weight TaskUrgency.med = 2
urgency_weight TaskUrgency.high = 3
urgency_weight TaskUrgency.critical = 4

-- `Math.min(100, x)`, of a double.
unfoldable pub capped : Double → Double
capped x = if ltb (100 * x.den) x.num then record { num = 100; den = 1 } else x

-- `round1(clamp((part / whole) * 100, 0, 100))`, in tenths: the tenfold is rounded to an integer.
-- The percentage is a product of counts and never below 0.
unfoldable pub share : ℕ → ℕ → ℕ
share part whole = round (times 10 (capped (times 100 (quotient part whole))))

-- A `Map` from texts to numbers, in the order of insertion.
abbrev pub Loads : Type 0
Loads = List (String × ℕ)

unfoldable pub lookup : String → Loads → Option ℕ
lookup k [] = none
lookup k ((j, v) ∷ m) = if str_eq j k then some v else lookup k m

unfoldable pub put : String → ℕ → Loads → Loads
put k v [] = (k, v) ∷ []
put k v ((j, w) ∷ m) = if str_eq j k then (j, v) ∷ m else (j, w) ∷ put k v m

abbrev pub load_of : String → Loads → ℕ
load_of k m = elim (lookup k m) [ none ↦ 0 | some v ↦ v ]

abbrev pub has : String → Loads → Bool
has k m = elim (lookup k m) [ none ↦ false | some v ↦ true ]

unfoldable pub init_loads : List Member → Loads → Loads
init_loads [] loads = loads
init_loads (m ∷ ms) loads = init_loads ms (put m.id 0 loads)

abbrev default_categories : List TaskCategory
default_categories = TaskCategory.logistics ∷ TaskCategory.school ∷ TaskCategory.errand ∷ []

abbrev pub categories_of : Option (List TaskCategory) → List TaskCategory
categories_of none = default_categories
categories_of (some cs) = cs

abbrev pub in_categories : List TaskCategory → Task → Bool
in_categories cs task = any (λ c. same_category c task.category) cs

-- The task's assignee, if it has one (the empty text counts as none) that is a key of the map.
abbrev pub assignee_of : Loads → Task → Option String
assignee_of loads task = elim task.assigned_member_id [
  | none ↦ none
  | some id ↦ if str_eq id "" then none else if has id loads then some id else none
]

-- One round of the loop over the tasks, on the map and the total.
unfoldable pub count_task : List TaskCategory → Task → Loads × ℕ → Loads × ℕ
count_task cs task (loads, total) =
    if in_categories cs task
    then (elim (assignee_of loads task) [
      | none ↦ (loads, total)
      | some id ↦ (
        put id (load_of id loads + urgency_weight task.urgency) loads,
        total + urgency_weight task.urgency,
      )
    ])
    else (loads, total)

unfoldable pub count_tasks : List TaskCategory → List Task → Loads × ℕ → Loads × ℕ
count_tasks cs [] state = state
count_tasks cs (task ∷ tasks) state = count_tasks cs tasks (count_task cs task state)

-- The entry of a member, from the map and the total.
abbrev pub equity_entry : Loads × ℕ → Member → LoadEquity
equity_entry state m = record {
  member_id = m.id;
  share_pct = if state.1 == 0 then 0 else share (load_of m.id state.0) state.1;
  task_load = load_of m.id state.0;
}

abbrev pub larger_share : Locale → LoadEquity → LoadEquity → Bool
larger_share locale a b =
    if a.share_pct == b.share_pct
    then locale.le a.member_id b.member_id
    else ltb b.share_pct a.share_pct

-- The map and the total after all the tasks.
unfoldable pub loads_of : List Member → List Task → Option (List TaskCategory) → Loads × ℕ
loads_of members tasks categories =
    count_tasks (categories_of categories) tasks (init_loads members [], 0)

unfoldable pub compute_load_equity :
    Locale → List Member → List Task → Option (List TaskCategory) → List LoadEquity
compute_load_equity locale members tasks categories =
    sort_by (larger_share locale) (map (equity_entry (loads_of members tasks categories)) members)

pub record ComputeBalanceBatteryInput : Type 0 where
  pub member : Member
  pub goals : List WellnessGoal
  pub windows : List WellnessWindow
  pub tasks : Option (List Task)
  pub members : Option (List Member)

-- `reduce((sum, g) => sum + g.targetCount, 0)`.
unfoldable pub target_total : List WellnessGoal → ℕ
target_total [] = 0
target_total (g ∷ gs) = g.target_count + target_total gs

abbrev goals_of : ComputeBalanceBatteryInput → List WellnessGoal
goals_of input = filter (λ g. str_eq g.member_id input.member.id) input.goals

abbrev goals_met : ComputeBalanceBatteryInput → ℕ
goals_met input =
    length (filter (λ w. str_eq w.member_id input.member.id && is_claimed w.status) input.windows)

abbrev share_of : Option LoadEquity → ℕ
share_of none = 0
share_of (some e) = e.share_pct

abbrev logistics_share : Locale → String → Option (List Task) → Option (List Member) → ℕ
logistics_share locale id none members = 0
logistics_share locale id (some tasks) none = 0
logistics_share locale id (some tasks) (some members) =
    share_of (find (λ e. str_eq e.member_id id) (compute_load_equity locale members tasks none))

-- An equity is rounded already, and rounding it again changes nothing.
unfoldable pub compute_balance_battery : Locale → ComputeBalanceBatteryInput → BalanceBattery
compute_balance_battery locale input = record {
  member_id = input.member.id;
  goal_completion_pct =
      if target_total (goals_of input) == 0
      then 1000
      else share (goals_met input) (target_total (goals_of input));
  logistics_load_pct = logistics_share locale input.member.id input.tasks input.members;
}
