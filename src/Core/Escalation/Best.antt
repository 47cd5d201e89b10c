-- ===== src/Core/Escalation/Best.antt =====
-- escalation.ts, selectBackup: the selected member is the best of the eligible ones.
use nestai.Prelude.{
  ℕ, ◌≤◌, ◌≡◌, refl, ap, ◌∙◌, ◌↔◌, inl, inr, true, false, List, [], ◌∷◌, none, some, arith, All,
  Some, here, there, Bool-cases,
}
use nestai.Prelude.Results.{ok}
use nestai.Prelude.Sorting.{sort_by, IsSorted, sort_by-IsSorted, sort_by-All, All-sort_by}
use nestai.Contracts.Entities.{Member}
use nestai.Core.Locale.{Locale}
use nestai.Core.Time.{date}
use nestai.Core.Escalation.{
  SelectBackupInput, BackupCandidate, SelectBackupResult, candidate, before, selection_of,
  select_backup,
}
use nestai.Core.Escalation.Selection.{
  IsEligible, is_eligible, is_eligible→IsEligible, IsEligible→is_eligible, eligible_candidates,
  select_backup-eligible,
}

before_total :
    (locale : Locale) (a b : BackupCandidate) → before locale a b ≡ false → before locale b a ≡ true
before_total locale a b h = ground (arith, locale.le_total a.member.id b.member.id)

before_trans :
    (locale : Locale) (a b c : BackupCandidate)
    → before locale a b ≡ true
    → before locale b c ≡ true
    → before locale a c ≡ true
before_trans locale a b c h k = ground (arith, locale.le_trans a.member.id b.member.id c.member.id)

module _ (input : SelectBackupInput) (start end : ℕ) where
  -- A candidate stands for an eligible member of the pool.
  record IsGenuine (pool : List Member) (c : BackupCandidate) : Type 0 where
    made : c ≡ candidate input.requires_driving c.member
    listed : Some (λ x. x ≡ c.member) pool
    eligible : IsEligible input start end c.member

  IsGenuine-tail :
      (m : Member) (ms : List Member) (cs : List BackupCandidate)
      → All (IsGenuine ms) cs
      → All (IsGenuine (m ∷ ms)) cs
  IsGenuine-tail m ms [] h = tt
  IsGenuine-tail m ms (c ∷ cs) h = (
    record { made = h.0.made; listed = there h.0.listed; eligible = h.0.eligible },
    IsGenuine-tail m ms cs h.1,
  )

  eligible_candidates-IsGenuine :
      (ms : List Member) → All (IsGenuine ms) (eligible_candidates input start end ms)
  unfolding candidate
  eligible_candidates-IsGenuine [] = tt
  eligible_candidates-IsGenuine (m ∷ ms) = elim (Bool-cases (is_eligible input start end m)) [
    | inl e ↦ rw e (
      record {
        made = refl;
        listed = here refl;
        eligible = is_eligible→IsEligible input start end m e;
      },
      IsGenuine-tail m ms _ (eligible_candidates-IsGenuine ms),
    )
    | inr e ↦ rw e (IsGenuine-tail m ms _ (eligible_candidates-IsGenuine ms))
  ]

  -- A bound on the candidates' scores bounds the score of every eligible member.
  scores_of_members :
      (k : ℕ) (ms : List Member)
      → All (λ c. c.score ≤ k) (eligible_candidates input start end ms)
      → All (λ x. IsEligible input start end x → (candidate input.requires_driving x).score ≤ k) ms
  scores_of_members k [] h = tt
  scores_of_members k (m ∷ ms) h = elim (Bool-cases (is_eligible input start end m)) [
    | inl e ↦
        let k' : All (λ c. c.score ≤ k)
            (candidate input.requires_driving m ∷ eligible_candidates input start end ms) =
          rw e at h in
        ((λ _. k'.0), scores_of_members k ms k'.1)
    | inr e ↦
        let k' : All (λ c. c.score ≤ k) (eligible_candidates input start end ms) = rw e at h in
        ((λ p. cc (IsEligible→is_eligible input start end m p)), scores_of_members k ms k')
  ]

  scores_of_sorted :
      (locale : Locale) (b : BackupCandidate) (cs : List BackupCandidate)
      → All (λ c. before locale b c ≡ true) cs
      → All (λ c. c.score ≤ b.score) cs
  scores_of_sorted locale b [] h = tt
  scores_of_sorted locale b (c ∷ cs) h = (ground (arith, h.0), scores_of_sorted locale b cs h.1)

  -- What the function's comment promises of the member that it selects.
  pub record IsBest (m : Member) : Type 0 where
    pub listed : Some (λ x. x ≡ m) input.members
    pub eligible : IsEligible input start end m
    pub best :
        All
          (λ x.
            IsEligible input start end x
            → (candidate input.requires_driving x).score
              ≤ (candidate input.requires_driving m).score)
          input.members

  selection-IsBest :
      (locale : Locale) (cs : List BackupCandidate) (m : Member)
      → ((k : ℕ)
          → All (λ c. c.score ≤ k) cs
          → All (λ c. c.score ≤ k) (eligible_candidates input start end input.members))
      → All (IsGenuine input.members) cs
      → IsSorted (before locale) cs
      → (selection_of cs).selected ≡ some m
      → IsBest m
  selection-IsBest locale [] m back g s e = cc
  selection-IsBest locale (b ∷ cs) m back g s e =
      let same : b.member ≡ m = ground arith in
      let score : b.score ≡ (candidate input.requires_driving m).score =
        ap (λ (c : BackupCandidate). c.score) g.0.made
        ∙ ap (λ x. (candidate input.requires_driving x).score) same in
      record {
        listed = rw (← same) g.0.listed;
        eligible = rw (← same) g.0.eligible;
        best =
            scores_of_members _ input.members
              (rw (← score) (back b.score (omega arith, scores_of_sorted locale b cs s.0)));
      }

  none-IsEligible :
      (ms : List Member)
      → All (λ c. ⊥) (eligible_candidates input start end ms)
      → All (λ x. ¬ IsEligible input start end x) ms
  none-IsEligible [] h = tt
  none-IsEligible (m ∷ ms) h = elim (Bool-cases (is_eligible input start end m)) [
    | inl e ↦
        let k : All (λ (c : BackupCandidate). ⊥)
            (candidate input.requires_driving m ∷ eligible_candidates input start end ms) =
          rw e at h in
        absurd k.0
    | inr e ↦ (λ p. cc (IsEligible→is_eligible input start end m p), none-IsEligible ms (rw e at h))
  ]

  no_candidates :
      (ms : List Member)
      → All (λ x. ¬ IsEligible input start end x) ms
      → eligible_candidates input start end ms ≡ []
  no_candidates [] h = refl
  no_candidates (m ∷ ms) h = elim (Bool-cases (is_eligible input start end m)) [
    | inl e ↦ absurd (h.0 (is_eligible→IsEligible input start end m e))
    | inr e ↦ rw e (no_candidates ms h.1)
  ]

  selected-none : (cs : List BackupCandidate) → (selection_of cs).selected ≡ none → All (λ c. ⊥) cs
  selected-none [] e = tt
  selected-none (b ∷ cs) e = cc

module _ (locale : Locale) (input : SelectBackupInput) (start end : ℕ)
    (start_valid : input.window_start ≡ date start) (end_valid : input.window_end ≡ date end) where
  ranked : List BackupCandidate
  ranked = sort_by (before locale) (eligible_candidates input start end input.members)

  -- Over a window of two valid dates, the member that `selectBackup` selects is one of the members
  -- given, is eligible (not excluded, active, an adult, driving if that is required, free in the
  -- window, within the commute radius), and no eligible member has a higher score.
  pub select_backup-IsBest :
      (r : SelectBackupResult) (m : Member)
      → select_backup locale input ≡ ok r
      → r.selected ≡ some m
      → IsBest input start end m
  unfolding ranked
  select_backup-IsBest r m e chosen =
      selection-IsBest input start end locale ranked m
        (λ k. All-sort_by (before locale) (λ c. c.score ≤ k) _)
        (sort_by-All (before locale) _ _
          (eligible_candidates-IsGenuine input start end input.members))
        (sort_by-IsSorted (before locale) (before_total locale) (before_trans locale) _)
        (ground (arith, select_backup-eligible locale input start end start_valid end_valid))

  -- Over a window of two valid dates `selectBackup` never throws, and it selects nobody exactly
  -- when none of the members is eligible.
  pub select_backup-none :
      (r : SelectBackupResult) × (select_backup locale input ≡ ok r)
      × ((r.selected ≡ none) ↔ All (λ x. ¬ IsEligible input start end x) input.members)
  unfolding ranked sort_by
  select_backup-none = (
    selection_of ranked,
    select_backup-eligible locale input start end start_valid end_valid,
    (
      (λ e.
          none-IsEligible input start end input.members
            (All-sort_by (before locale) (λ c. ⊥) _ (selected-none input start end ranked e))),
      λ h. rw (no_candidates input start end input.members h),
    ),
  )
