-- ===== src/Core/Commute/Radar.antt =====
-- commute.ts, detectConflicts: a radar without a ripple means that nobody is double-booked.
use nestai.Prelude.{
  ℕ, ◌≤◌, ◌≢◌, ◌⊎◌, refl, sym, inl, inr, subst, List, [], ◌∷◌, String, arith, All, All-map,
  All-append_parts, All-unfilter, filter, filter-All, Bool-cases, ltb, str_eq, eq_iff, Some, here,
  there, ◌≡◌,
}
use nestai.Prelude.Sorting.{sort_by, sort_by-All, All-sort_by, Pairwise, Pairwise-sort_by}
use nestai.Contracts.Enums.{ConflictType}
use nestai.Contracts.Entities.{Member, IsoDateTime}
use nestai.Prelude.Results.{ok}
use nestai.Core.Time.{date}
use nestai.Core.Commute.{
  LogisticsCommitment, ConflictDraft, DetectConflictsInput, Groups, group, starts_first, check_pair,
  check_pairs, check_groups, name_of, sole_drivers, driving_members, graver, conflicts_of,
  detect_conflicts,
}
use nestai.Core.Commute.Groups.{members_of, is_of, group-filter}

abbrev NoRipple : ConflictDraft → Type 0
NoRipple d = d.kind ≢ ConflictType.ripple_shift

abbrev Ends : LogisticsCommitment → Type 0
Ends c = c.starts_at ≤ c.ends_at

abbrev Apart : LogisticsCommitment → LogisticsCommitment → Type 0
Apart a b = (a.ends_at ≤ b.starts_at) ⊎ (b.ends_at ≤ a.starts_at)

-- The commitments are of different members, or one ends before the other starts.
abbrev pub Compatible : LogisticsCommitment → LogisticsCommitment → Type 0
Compatible a b = (a.member_id ≢ b.member_id) ⊎ Apart a b

check_pair-quiet :
    (name : String) (threshold : ℕ) (a b : LogisticsCommitment)
    → All NoRipple (check_pair name threshold a b)
    → a.ends_at ≤ b.starts_at
check_pair-quiet name threshold a b quiet = elim (Bool-cases (ltb b.starts_at a.ends_at)) [
  | inl e ↦
      let (absurd, _) : (ConflictType.ripple_shift ≢ ConflictType.ripple_shift) × Unit {0} =
        rw e at quiet in
      elim (absurd refl) [ ]
  | inr e ↦ ground arith
]

check_pairs-quiet :
    (name : String) (threshold : ℕ) (cs : List LogisticsCommitment)
    → All Ends cs
    → All NoRipple (check_pairs name threshold cs)
    → Pairwise (λ a b. a.ends_at ≤ b.starts_at) cs
unfolding check_pairs
check_pairs-quiet name threshold [] ends quiet = tt
check_pairs-quiet name threshold (a ∷ []) ends quiet = (tt, tt)
check_pairs-quiet name threshold (a ∷ b ∷ rest) (ends_a, ends) quiet =
    let (first, later) = All-append_parts NoRipple (check_pair name threshold a b) _ quiet in
    let next = check_pair-quiet name threshold a b first in
    let ordered = check_pairs-quiet name threshold (b ∷ rest) ends later in
    ((next, All-map rest (λ z after. ground arith) ordered.0), ordered)

Pairwise-map :
    {R S : LogisticsCommitment → LogisticsCommitment → Type 0} (cs : List LogisticsCommitment)
    → ((a b : LogisticsCommitment) → R a b → S a b)
    → Pairwise R cs
    → Pairwise S cs
Pairwise-map [] f h = tt
Pairwise-map (c ∷ cs) f (near, rest) = (All-map cs (f c) near, Pairwise-map cs f rest)

Apart-sym : (a b : LogisticsCommitment) → Apart a b → Apart b a
Apart-sym a b h = ground arith

check_groups-quiet :
    (members : List Member) (threshold : ℕ) (id : String) (groups : Groups)
    → All Ends (members_of id groups)
    → All NoRipple (check_groups members threshold groups)
    → Pairwise Apart (members_of id groups)
unfolding check_groups members_of
check_groups-quiet members threshold id [] ends quiet = tt
check_groups-quiet members threshold id ((k, list) ∷ groups) ends quiet =
    let (here_quiet, later) =
      All-append_parts NoRipple
        (check_pairs (name_of members k) threshold (sort_by starts_first list)) _ quiet in
    elim (Bool-cases (str_eq k id)) [
      | inl e ↦
          let ends_list : All Ends list = rw e at ends in
          rw e (
            Pairwise-sort_by starts_first Apart Apart-sym list (
              Pairwise-map (sort_by starts_first list) (λ a b after. inl after)
                (check_pairs-quiet (name_of members k) threshold (sort_by starts_first list)
                  (sort_by-All starts_first Ends list ends_list) here_quiet)))
      | inr e ↦
          let ends_rest : All Ends (members_of id groups) = rw e at ends in
          rw e (check_groups-quiet members threshold id groups ends_rest later)
    ]

by_member :
    (cs : List LogisticsCommitment)
    → ((id : String) → Pairwise Apart (filter (is_of id) cs))
    → Pairwise Compatible cs
by_member [] h = tt
by_member (c ∷ cs) h = (
  All-unfilter (Compatible c) (is_of c.member_id) cs
      (λ b other. inl (λ same. ground (arith, sym same, eq_iff b.member_id c.member_id)))
      (All-map (filter (is_of c.member_id) cs) (λ b apart. inr apart) own.0),
  by_member cs later,
)
  where
    own :
        All (Apart c) (filter (is_of c.member_id) cs)
        × Pairwise Apart (filter (is_of c.member_id) cs)
    own = rw ((eq_iff c.member_id c.member_id).1 refl) at (h c.member_id)

    later : (id : String) → Pairwise Apart (filter (is_of id) cs)
    later id = elim (Bool-cases (is_of id c)) [
      | inl e ↦
          let k : All (Apart c) (filter (is_of id) cs) × Pairwise Apart (filter (is_of id) cs) =
            rw e at (h id) in
          k.1
      | inr e ↦ rw e at (h id)
    ]

pub conflicts_of-Compatible :
    (input : DetectConflictsInput)
    → All (λ c. c.starts_at ≤ c.ends_at) input.commitments
    → All (λ d. d.kind ≢ ConflictType.ripple_shift) (conflicts_of input)
    → Pairwise Compatible input.commitments
unfolding conflicts_of
conflicts_of-Compatible input ends quiet =
    let unsorted = All-sort_by graver NoRipple _ quiet in
    let (_, checked) =
      All-append_parts NoRipple
        (sole_drivers (driving_members input.members)
          (filter (λ c. c.requires_driver) input.commitments))
        _ unsorted in
    by_member input.commitments (λ id. subst (Pairwise Apart) (group-filter id input.commitments) (
      check_groups-quiet input.members input.buffer_threshold_minutes id
        (group input.commitments [])
        (subst (All Ends) (sym (group-filter id input.commitments))
          (filter-All Ends (is_of id) input.commitments ends))
        checked))

ripple-cases :
    (k : ConflictType) → (k ≡ ConflictType.ripple_shift) ⊎ (k ≢ ConflictType.ripple_shift)
ripple-cases ConflictType.sole_driver = inr (λ e. cc)
ripple-cases ConflictType.ripple_shift = inl refl
ripple-cases ConflictType.buffer_squeeze = inr (λ e. cc)

ripples-cases :
    (ds : List ConflictDraft) → Some (λ d. d.kind ≡ ConflictType.ripple_shift) ds ⊎ All NoRipple ds
ripples-cases [] = inr tt
ripples-cases (d ∷ ds) = elim (ripple-cases d.kind) [
  | inl ripple ↦ inl (here ripple)
  | inr quiet ↦ elim (ripples-cases ds) [ inl s ↦ inl (there s) | inr all ↦ inr (quiet, all) ]
]

-- At a valid time, where every commitment ends no earlier than it starts, the radar returns. If it
-- reports no RIPPLE_SHIFT, any two commitments of one member are apart: one ends before or when the
-- other starts. The code compares neighbours of the sorted list only.
pub detect_conflicts-Compatible :
    (input : DetectConflictsInput) {t : IsoDateTime}
    → input.now ≡ date t
    → All (λ c. c.starts_at ≤ c.ends_at) input.commitments
    → (drafts : List ConflictDraft) × (detect_conflicts input ≡ ok drafts)
      × (Some (λ d. d.kind ≡ ConflictType.ripple_shift) drafts
          ⊎ Pairwise Compatible input.commitments)
unfolding detect_conflicts
detect_conflicts-Compatible input now ends = (
  conflicts_of input,
  rw (now, detect_conflicts) refl,
  elim (ripples-cases (conflicts_of input)) [
    | inl ripple ↦ inl ripple
    | inr quiet ↦ inr (conflicts_of-Compatible input ends quiet)
  ],
)
