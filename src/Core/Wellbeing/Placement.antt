-- ===== src/Core/Wellbeing/Placement.antt =====
-- wellbeing.ts, findMicroWindows: the windows fit, and never clash.
use nestai.Prelude.{
  ◌+◌, ◌-◌, ◌≤◌, ◌<◌, ◌≡◌, ◌⊎◌, refl, sym, subst, inl, inr, true, false, ◌&&◌, List, [], ◌∷◌, ◌++◌,
  some, arith, All, Some, here, there, All-map, Some-map, find, find-All, any, All-append_parts,
  Bool-cases, Option-cases, ltb, str_eq, str_eq→eq,
}
use nestai.Prelude.Sorting.{sort_by, sort_by-All, sort_by-Pairwise, Pairwise}
use nestai.Contracts.Entities.{Member, WellnessGoal}
use nestai.Core.Wellbeing.Windows.{
  FindMicroWindowsInput, Gap, Span, WellnessWindowDraft, compute_gaps, preferred, hosts, need_ms,
  draft, place, starts_before, find_micro_windows,
}
use nestai.Core.Wellbeing.Gaps.{IsFree, compute_gaps-IsFree}

-- Two windows have no time in common.
abbrev pub Disjoint : WellnessWindowDraft → WellnessWindowDraft → Type 0
Disjoint w v = (w.ends_at ≤ v.starts_at) ⊎ (v.ends_at ≤ w.starts_at)

abbrev Spares : WellnessWindowDraft → Span → Type 0
Spares w c = (w.ends_at ≤ c.start) ⊎ (c.end ≤ w.starts_at)

-- The window serves a goal of the member for exactly the goal's duration, lies in the range, and
-- overlaps no busy block.
pub record IsServing (input : FindMicroWindowsInput) (w : WellnessWindowDraft) : Type 0 where
  pub member : w.member_id ≡ input.member.id
  pub goal :
      Some
        (λ g.
          (w.goal_id ≡ some g.id)
          × (g.member_id ≡ input.member.id)
          × (w.ends_at ≡ w.starts_at + need_ms g))
        input.goals
  pub from : input.range_start ≤ w.starts_at
  pub to : w.ends_at ≤ input.range_end
  pub apart : All (λ b. (w.ends_at ≤ b.starts_at) ⊎ (b.ends_at ≤ w.starts_at)) input.busy

hosts-Spares :
    (m : Member) (goal : WellnessGoal) (gap : Gap) (consumed : List Span)
    → need_ms goal ≤ gap.end - gap.start
    → gap.start < gap.end
    → any (λ c. ltb gap.start c.end && ltb c.start gap.end) consumed ≡ false
    → All (Spares (draft m goal gap)) consumed
hosts-Spares m goal gap [] need some_time free = tt
hosts-Spares m goal gap (c ∷ cs) need some_time free =
    (ground arith, hosts-Spares m goal gap cs need some_time (ground arith))

module _ (input : FindMicroWindowsInput) where
  draft-IsServing :
      (goal : WellnessGoal) (gap : Gap)
      → Some (λ g. g ≡ goal) input.goals
      → goal.member_id ≡ input.member.id
      → need_ms goal ≤ gap.end - gap.start
      → IsFree input gap
      → IsServing input (draft input.member goal gap)
  draft-IsServing goal gap listed owner need free = record {
    member = refl;
    goal =
        Some-map
          (λ g same.
            subst
              (λ x.
                (some goal.id ≡ some x.id)
                × (x.member_id ≡ input.member.id)
                × (gap.start + need_ms goal ≡ gap.start + need_ms x))
              (sym same) (refl, owner, refl))
          listed;
    from = free.from;
    to = omega (arith, free.to, free.some_time);
    apart = All-map input.busy (λ b a. ground arith) free.apart;
  }

  abbrev IsPlaced : List Span → WellnessWindowDraft → Type 0
  IsPlaced consumed w = IsServing input w × All (Spares w) consumed

  abbrev span : WellnessGoal → Gap → Span
  span goal gap = record { start = gap.start; end = gap.start + need_ms goal }

  abbrev Placed : List Span → List WellnessWindowDraft → Type 0
  Placed consumed ws = All (IsPlaced consumed) ws × Pairwise Disjoint ws

  -- One round that finds a gap, given what holds of the later rounds.
  placed :
      (ordered : List Gap) (consumed : List Span) (goal : WellnessGoal) (gap : Gap)
      (goals : List WellnessGoal)
      → goal.member_id ≡ input.member.id
      → Some (λ x. x ≡ goal) input.goals
      → IsFree input gap × (hosts (need_ms goal) consumed gap ≡ true)
      → Placed
          (consumed ++ span goal gap ∷ [])
          (place input.member ordered (consumed ++ span goal gap ∷ []) goals)
      → Placed consumed (
          draft input.member goal gap
          ∷ place input.member ordered (consumed ++ span goal gap ∷ []) goals)
  placed ordered consumed goal gap goals own listed (free, passes) (later, pairs) =
      let need : need_ms goal ≤ gap.end - gap.start = ground arith in
      let calm : any (λ (c : Span). ltb gap.start c.end && ltb c.start gap.end) consumed ≡ false =
        ground arith in
      let parts = λ (w : WellnessWindowDraft) (h : IsPlaced (consumed ++ span goal gap ∷ []) w).
        All-append_parts (Spares w) consumed (span goal gap ∷ []) h.1 in
      let ws = place input.member ordered (consumed ++ span goal gap ∷ []) goals in
      (
        (
          (
            draft-IsServing goal gap listed own need free,
            hosts-Spares input.member goal gap consumed need free.some_time calm,
          ),
          All-map ws (λ w h. (h.0, (parts w h).0)) later,
        ),
        (All-map ws (λ w h. swap_sides w (parts w h).1.0) later, pairs),
      )
    where
      swap_sides :
          (w : WellnessWindowDraft)
          → Spares w (span goal gap)
          → Disjoint (draft input.member goal gap) w
      swap_sides w (inl h) = inr h
      swap_sides w (inr h) = inl h

  place-IsPlaced :
      (ordered : List Gap) (consumed : List Span) (goals : List WellnessGoal)
      → All (IsFree input) ordered
      → All (λ g. Some (λ x. x ≡ g) input.goals) goals
      → All (IsPlaced consumed) (place input.member ordered consumed goals)
        × Pairwise Disjoint (place input.member ordered consumed goals)
  unfolding place
  place-IsPlaced ordered consumed [] free listed = (tt, tt)
  place-IsPlaced ordered consumed (goal ∷ goals) free listed =
      let skipped = place-IsPlaced ordered consumed goals free listed.1 in
      elim (Bool-cases (str_eq goal.member_id input.member.id)) [
        | inr other ↦ rw other skipped
        | inl own ↦ rw own (elim (Option-cases (find (hosts (need_ms goal) consumed) ordered)) [
          | inl full ↦ rw (full, place) skipped
          | inr (gap, found) ↦
              rw (found, place)
                (placed ordered consumed goal gap goals
                  (str_eq→eq goal.member_id input.member.id own) listed.0
                  (find-All (IsFree input) _ ordered gap found free)
                  (place-IsPlaced ordered (consumed ++ span goal gap ∷ []) goals free listed.1))
        ])
      ]

  goals_listed : (goals : List WellnessGoal) → All (λ g. Some (λ x. x ≡ g) goals) goals
  goals_listed [] = tt
  goals_listed (g ∷ gs) = (here refl, All-map gs (λ x s. there s) (goals_listed gs))

  -- Every window that `findMicroWindows` suggests serves one of the member's goals for exactly the
  -- goal's duration, lies within the range and overlaps no busy block; no two of the windows
  -- overlap.
  pub find_micro_windows-IsServing :
      All (IsServing input) (find_micro_windows input)
      × Pairwise Disjoint (find_micro_windows input)
  unfolding find_micro_windows
  find_micro_windows-IsServing =
      let ordered = sort_by preferred (compute_gaps input) in
      let (served, disjoint) =
        place-IsPlaced ordered [] input.goals
          (sort_by-All preferred _ _ (compute_gaps-IsFree input)) (goals_listed input.goals) in
      (
        sort_by-All starts_before _ _
            (All-map (place input.member ordered [] input.goals) (λ w h. h.0) served),
        sort_by-Pairwise starts_before Disjoint (λ w v d. ground arith) _ disjoint,
      )
