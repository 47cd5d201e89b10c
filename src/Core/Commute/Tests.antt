-- ===== src/Core/Commute/Tests.antt =====
-- Runs of commute.ts, and its theorems at concrete inputs.
use nestai.Prelude.{
  ℕ, ◌+◌, ◌*◌, ◌≡◌, refl, true, String, [], ◌∷◌, none, some, arith, All, map, List, Some, ◌⊎◌,
}
use nestai.Prelude.Sorting.{sort_by, Pairwise}
use nestai.Prelude.Results.{ok, throw, range_error}
use nestai.Contracts.Enums.{ConflictType}
use nestai.Core.Time.{date, invalid, minute}
use nestai.Core.Samples.{noon, family}
use nestai.Core.Commute.{
  LogisticsCommitment, DetectConflictsInput, CommuteFilterInput, CommuteFilterResult, ConflictDraft,
  conflicts_of, detect_conflicts, filter_by_commute, group, push, check_groups, check_pairs,
}
use nestai.Core.Commute.Radar.{Compatible, detect_conflicts-Compatible}
use nestai.Core.Commute.Reports.{Cause, detect_conflicts-Cause}
use nestai.Core.Commute.Filter.{IsSplit, filter_by_commute-IsSplit}

abbrev run : String → ℕ → ℕ → LogisticsCommitment
run who from to = record {
  task_id = none;
  member_id = who;
  requires_driver = true;
  starts_at = noon + from * minute;
  ends_at = noon + to * minute;
  label = none;
}

abbrev busy_day : DetectConflictsInput
busy_day = record {
  commitments = run "mum" 60 90 ∷ run "dad" 0 30 ∷ run "mum" 0 50 ∷ [];
  members = family;
  buffer_threshold_minutes = 15;
  now = date noon;
}

radar : Unit {0}
unfolding conflicts_of group push check_groups check_pairs sort_by
radar = tt

radar_run : map (λ d. d.kind) (conflicts_of busy_day) ≡ ConflictType.buffer_squeeze ∷ []
unfolding radar
radar_run = refl

-- The third run overlaps the first, and is not its neighbour in the sorted list.
abbrev long_day : DetectConflictsInput
long_day = record busy_day {
  commitments = run "mum" 0 100 ∷ run "mum" 10 20 ∷ run "mum" 30 40 ∷ [];
}

radar_misses :
    map (λ d. d.kind) (conflicts_of long_day)
    ≡ ConflictType.ripple_shift ∷ ConflictType.buffer_squeeze ∷ []
unfolding radar
radar_misses = refl

-- An invalid time is a fault, whatever the commitments are.
radar_throws : detect_conflicts (record busy_day { now = invalid }) ≡ throw range_error
unfolding detect_conflicts
radar_throws = refl

detect_conflicts-Compatible_example :
    (drafts : List ConflictDraft) × (detect_conflicts busy_day ≡ ok drafts)
    × (Some (λ d. d.kind ≡ ConflictType.ripple_shift) drafts
        ⊎ Pairwise Compatible busy_day.commitments)
detect_conflicts-Compatible_example =
    detect_conflicts-Compatible busy_day refl (omega arith, (omega arith, (omega arith, tt)))

detect_conflicts-Cause_example :
    (drafts : List ConflictDraft) × (detect_conflicts busy_day ≡ ok drafts)
    × All (Cause busy_day) drafts
detect_conflicts-Cause_example = detect_conflicts-Cause busy_day refl

abbrev pickup : CommuteFilterInput
pickup = record {
  members = family;
  pickup_at = date (noon + 30 * minute);
  leave_at = some (date noon);
  buffer_minutes = 5;
  requires_driving = true;
}

filter_by_commute-IsSplit_example :
    (r : CommuteFilterResult) × (filter_by_commute pickup ≡ ok r)
    × IsSplit pickup (noon + 30 * minute) (some noon) refl refl family r
filter_by_commute-IsSplit_example =
    filter_by_commute-IsSplit pickup (noon + 30 * minute) (some noon) refl refl
