-- ===== src/Core/Commute.antt =====
-- packages/core/src/commute/commute.ts: filterByCommute and detectConflicts. The times of the
-- commitments are valid dates, as time values. The distances of assignByRouteSynergy are real
-- numbers, which are not modelled.
pub mod Groups
pub mod Radar
pub mod Reports
pub mod Filter
mod Tests
use nestai.Prelude.{
  ℕ, ◌+◌, ◌-◌, ◌*◌, ◌/◌, Bool, true, false, not, ◌&&◌, ◌||◌, String, List, [], ◌∷◌, ◌++◌, Option,
  none, some, ltb, leb, ◌==◌, str_eq, if◌then◌else◌, filter, find, map,
}
use nestai.Prelude.Int.{ℤ, pos, leb_ℤ, ltb_ℤ}
use nestai.Prelude.Results.{Result, ok, throw, range_error, ◌>>=◌}
use nestai.Prelude.Sorting.{sort_by}
use nestai.Contracts.Enums.{ConflictType, ConflictSeverity, is_dependent}
use nestai.Contracts.Entities.{IsoDateTime, Member}
use nestai.Core.Time.{Clock, date, invalid, minute, diff_minutes}

-- filterByCommute

pub record CommuteFilterInput : Type 0 where
  pub members : List Member
  pub pickup_at : Clock
  pub leave_at : Option Clock
  pub buffer_minutes : ℕ
  pub requires_driving : Bool

pub data Obstacle : Type 0 where
  inactive : Obstacle
  cannot_drive : Obstacle
  exceeds : (commute buffer : ℕ) → (budget : ℤ) → Obstacle

pub record CommuteFilterResult : Type 0 where
  pub feasible : List Member
  pub infeasible : List (Member × Obstacle)

abbrev pub over_budget : ℕ → ℕ → ℤ → Option Obstacle
over_budget commute buffer budget =
    if ltb_ℤ budget (pos (commute + buffer)) then some (exceeds commute buffer budget) else none

abbrev pub within_budget : CommuteFilterInput → Option ℕ → Option Clock → Result (Option Obstacle)
within_budget input none leave = ok none
within_budget input (some commute) none = ok none
within_budget input (some commute) (some leave) = diff_minutes input.pickup_at leave >>= λ budget.
    ok (over_budget commute input.buffer_minutes budget)

-- One round of the loop: why the member cannot make it, if it cannot.
unfoldable pub obstacle : CommuteFilterInput → Member → Result (Option Obstacle)
obstacle input m =
    if not m.active
    then ok (some inactive)
    else if input.requires_driving && not m.driving_privileges
    then ok (some cannot_drive)
    else within_budget input m.commute_minutes input.leave_at

abbrev pub put_in : Member → Option Obstacle → CommuteFilterResult → CommuteFilterResult
put_in m none rest = record rest { feasible = m ∷ rest.feasible }
put_in m (some why) rest = record rest { infeasible = (m, why) ∷ rest.infeasible }

unfoldable pub filter_members : CommuteFilterInput → List Member → Result CommuteFilterResult
filter_members input [] = ok (record { feasible = []; infeasible = [] })
filter_members input (m ∷ ms) = do
  why ← obstacle input m
  rest ← filter_members input ms
  ok (put_in m why rest)

unfoldable pub filter_by_commute : CommuteFilterInput → Result CommuteFilterResult
filter_by_commute input = filter_members input input.members

-- detectConflicts

pub record LogisticsCommitment : Type 0 where
  pub task_id : Option String
  pub member_id : String
  pub requires_driver : Bool
  pub starts_at : IsoDateTime
  pub ends_at : IsoDateTime
  pub label : Option String

-- The parts of a description and of the advice beside it.
pub data Story : Type 0 where
  only_driver : (name : String) → (drive : Option String) → Story
  double_booked : (name : String) → (first second : Option String) → Story
  little_slack : (name : String) → (slack short : ℕ) → (first second : Option String) → Story

pub record ConflictDraft : Type 0 where
  pub kind : ConflictType
  pub severity : ConflictSeverity
  pub story : Story
  pub window_start : IsoDateTime
  pub window_end : IsoDateTime
  pub related_task_id : Option String

pub record DetectConflictsInput : Type 0 where
  pub commitments : List LogisticsCommitment
  pub members : List Member
  pub buffer_threshold_minutes : ℕ
  pub now : Clock

-- `taskId ? { relatedTaskId: taskId } : {}`.
abbrev pub task_of : LogisticsCommitment → Option String
task_of c = elim c.task_id [ none ↦ none | some id ↦ if str_eq id "" then none else some id ]

abbrev pub can_drive : Member → Bool
can_drive m = m.active && m.driving_privileges && not (is_dependent m.role)

abbrev pub driving_members : List Member → List Member
driving_members members = filter can_drive members

abbrev pub sole_driver : Member → LogisticsCommitment → ConflictDraft
sole_driver sole c = record {
  kind = ConflictType.sole_driver;
  severity = ConflictSeverity.high;
  story = only_driver sole.display_name c.label;
  window_start = c.starts_at;
  window_end = c.ends_at;
  related_task_id = task_of c;
}

-- A draft for every driving commitment, where there is exactly one driver.
abbrev pub sole_drivers : List Member → List LogisticsCommitment → List ConflictDraft
sole_drivers (sole ∷ []) drives = map (sole_driver sole) drives
sole_drivers _ drives = []

-- `byMember`: the commitments of each member, in the order of the first ones.
abbrev pub Groups : Type 0
Groups = List (String × List LogisticsCommitment)

unfoldable pub push : LogisticsCommitment → Groups → Groups
push c [] = (c.member_id, c ∷ []) ∷ []
push c ((k, list) ∷ groups) =
    let rest = push c groups in
    if str_eq k c.member_id then (k, list ++ c ∷ []) ∷ groups else (k, list) ∷ rest

unfoldable pub group : List LogisticsCommitment → Groups → Groups
group [] groups = groups
group (c ∷ cs) groups = group cs (push c groups)

abbrev pub starts_first : LogisticsCommitment → LogisticsCommitment → Bool
starts_first a b = leb a.starts_at b.starts_at

abbrev pub ripple_shift : String → LogisticsCommitment → LogisticsCommitment → ConflictDraft
ripple_shift name a b = record {
  kind = ConflictType.ripple_shift;
  severity = ConflictSeverity.high;
  story = double_booked name a.label b.label;
  window_start = b.starts_at;
  window_end = a.ends_at;
  related_task_id = task_of b;
}

abbrev pub slack_of : LogisticsCommitment → LogisticsCommitment → ℕ
slack_of a b = (b.starts_at - a.ends_at) / minute

abbrev pub buffer_squeeze : String → ℕ → LogisticsCommitment → LogisticsCommitment → ConflictDraft
buffer_squeeze name threshold a b = record {
  kind = ConflictType.buffer_squeeze;
  severity = if leb (slack_of a b) 5 then ConflictSeverity.medium else ConflictSeverity.low;
  story = little_slack name (slack_of a b) (threshold - slack_of a b) a.label b.label;
  window_start = a.ends_at;
  window_end = b.starts_at;
  related_task_id = task_of b;
}

abbrev pub check_pair : String → ℕ → LogisticsCommitment → LogisticsCommitment → List ConflictDraft
check_pair name threshold a b =
    if ltb b.starts_at a.ends_at
    then ripple_shift name a b ∷ []
    else if ltb (slack_of a b) threshold
    then buffer_squeeze name threshold a b ∷ []
    else []

-- The loop over the neighbours of the sorted list.
unfoldable pub check_pairs : String → ℕ → List LogisticsCommitment → List ConflictDraft
check_pairs name threshold [] = []
check_pairs name threshold (a ∷ []) = []
check_pairs name threshold (a ∷ b ∷ rest) =
    check_pair name threshold a b ++ check_pairs name threshold (b ∷ rest)

abbrev pub name_of : List Member → String → String
name_of members id = elim (find (λ m. str_eq m.id id) members) [
  | none ↦ id
  | some m ↦ m.display_name
]

unfoldable pub check_groups : List Member → ℕ → Groups → List ConflictDraft
check_groups members threshold [] = []
check_groups members threshold ((id, list) ∷ groups) =
    check_pairs (name_of members id) threshold (sort_by starts_first list)
    ++ check_groups members threshold groups

abbrev severity_rank : ConflictSeverity → ℕ
severity_rank ConflictSeverity.high = 3
severity_rank ConflictSeverity.medium = 2
severity_rank ConflictSeverity.low = 1

-- The comparator: by severity, then by the start of the window. The texts of two dates of the years
-- 0 to 9999 compare as the dates do.
abbrev pub graver : ConflictDraft → ConflictDraft → Bool
graver a b =
    if severity_rank a.severity == severity_rank b.severity
    then leb a.window_start b.window_start
    else ltb (severity_rank b.severity) (severity_rank a.severity)

-- All of detectConflicts that follows its reading of `now`.
unfoldable pub conflicts_of : DetectConflictsInput → List ConflictDraft
conflicts_of input = sort_by graver (
    sole_drivers (driving_members input.members) (filter (λ c. c.requires_driver) input.commitments)
    ++ check_groups input.members input.buffer_threshold_minutes (group input.commitments []))

-- `new Date(toMs(now)).toISOString()`, as the time value.
abbrev pub now_iso : Clock → Result IsoDateTime
now_iso (date t) = ok t
now_iso invalid = throw range_error

-- The text of `now` is taken first, which throws for an invalid date; nothing uses it.
unfoldable pub detect_conflicts : DetectConflictsInput → Result (List ConflictDraft)
detect_conflicts input = now_iso input.now >>= λ iso. ok (conflicts_of input)
