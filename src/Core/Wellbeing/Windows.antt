-- ===== src/Core/Wellbeing/Windows.antt =====
-- wellbeing.ts, lines 29 to 146: the micro-window finder.
use nestai.Prelude.{
  ℕ, ◌+◌, ◌-◌, ◌*◌, max, Bool, not, ◌&&◌, String, List, [], ◌∷◌, ◌++◌, Option, none, some, ltb, leb,
  ◌==◌, str_eq, if◌then◌else◌, filter, find, any,
}
use nestai.Prelude.Sorting.{sort_by}
use nestai.Contracts.Enums.{WellnessWindowStatus}
use nestai.Contracts.Entities.{IsoDateTime, Member, WellnessGoal}
use nestai.Core.Time.{minute}

pub record BusyBlock : Type 0 where
  pub starts_at : IsoDateTime
  pub ends_at : IsoDateTime
  pub label : Option String

pub record WellnessWindowDraft : Type 0 where
  pub household_id : String
  pub member_id : String
  pub goal_id : Option String
  pub starts_at : IsoDateTime
  pub ends_at : IsoDateTime
  pub status : WellnessWindowStatus

pub record FindMicroWindowsInput : Type 0 where
  pub member : Member
  pub goals : List WellnessGoal
  pub busy : List BusyBlock
  pub range_start : IsoDateTime
  pub range_end : IsoDateTime
  pub edge_buffer_minutes : ℕ

pub record Gap : Type 0 where
  pub start : ℕ
  pub end : ℕ
  pub adjacent_to : Option String

abbrev pub edge_buffer : FindMicroWindowsInput → ℕ
edge_buffer input = input.edge_buffer_minutes * minute

abbrev pub in_range : FindMicroWindowsInput → BusyBlock → Bool
in_range input b = ltb input.range_start b.ends_at && ltb b.starts_at input.range_end

abbrev pub earlier : BusyBlock → BusyBlock → Bool
earlier a b = leb a.starts_at b.starts_at

-- The busy blocks that meet the range, by their starts.
unfoldable pub blocks_of : FindMicroWindowsInput → List BusyBlock
blocks_of input = sort_by earlier (filter (in_range input) input.busy)

-- The loop over the blocks, with the label of the last block seen, and the gap after it. A start
-- less than the buffer gives no gap, whether the difference stops at 0 or not.
unfoldable pub gaps_from : ℕ → IsoDateTime → IsoDateTime → Option String → List BusyBlock → List Gap
gaps_from buffer range_end cursor last [] =
    if ltb cursor range_end
    then record { start = cursor; end = range_end; adjacent_to = last } ∷ []
    else []
gaps_from buffer range_end cursor last (b ∷ bs) =
    let rest = gaps_from buffer range_end (max cursor (b.ends_at + buffer)) b.label bs in
    if ltb cursor (b.starts_at - buffer)
    then record { start = cursor; end = b.starts_at - buffer; adjacent_to = b.label } ∷ rest
    else rest

unfoldable pub compute_gaps : FindMicroWindowsInput → List Gap
compute_gaps input =
    gaps_from (edge_buffer input) input.range_end input.range_start none (blocks_of input)

-- `a.adjacentTo ? 0 : 1`.
abbrev adjacency : Option String → ℕ
adjacency none = 1
adjacency (some label) = if str_eq label "" then 1 else 0

abbrev pub preferred : Gap → Gap → Bool
preferred a b =
    if adjacency a.adjacent_to == adjacency b.adjacent_to
    then leb a.start b.start
    else ltb (adjacency a.adjacent_to) (adjacency b.adjacent_to)

pub record Span : Type 0 where
  pub start : ℕ
  pub end : ℕ

-- The gap passes both tests of the inner loop.
abbrev pub hosts : ℕ → List Span → Gap → Bool
hosts need consumed gap =
    not (ltb (gap.end - gap.start) need)
    && not (any (λ c. ltb gap.start c.end && ltb c.start gap.end) consumed)

abbrev pub need_ms : WellnessGoal → ℕ
need_ms goal = goal.duration_min * minute

abbrev pub draft : Member → WellnessGoal → Gap → WellnessWindowDraft
draft m goal gap = record {
  household_id = m.household_id;
  member_id = m.id;
  goal_id = some goal.id;
  starts_at = gap.start;
  ends_at = gap.start + need_ms goal;
  status = WellnessWindowStatus.suggested;
}

-- The loop over the goals; the windows in the order in which they are pushed.
unfoldable pub place : Member → List Gap → List Span → List WellnessGoal → List WellnessWindowDraft
place m ordered consumed [] = []
place m ordered consumed (goal ∷ goals) =
    let skipped = place m ordered consumed goals in
    if not (str_eq goal.member_id m.id)
    then skipped
    else elim (find (hosts (need_ms goal) consumed) ordered) [
      | none ↦ skipped
      | some gap ↦
          draft m goal gap
          ∷ place m ordered
              (consumed ++ record { start = gap.start; end = gap.start + need_ms goal } ∷ []) goals
    ]

abbrev pub starts_before : WellnessWindowDraft → WellnessWindowDraft → Bool
starts_before a b = leb a.starts_at b.starts_at

unfoldable pub find_micro_windows : FindMicroWindowsInput → List WellnessWindowDraft
find_micro_windows input =
    sort_by starts_before
      (place input.member (sort_by preferred (compute_gaps input)) [] input.goals)
