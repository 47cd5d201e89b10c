-- ===== src/Core/Commute/Reports.antt =====
-- commute.ts, detectConflicts: every report has a cause among the commitments.
use mathlib.Core.List.Perm
use nestai.Prelude.{
  Perm, ◌++◌, subst, ◌+◌, ◌*◌, ◌≤◌, ◌<◌, ◌≡◌, refl, sym, ◌∙◌, ◌-◌, ◌/◌, inl, inr, true, List, [],
  ◌∷◌, String, arith, All, Some, here, there, All-map, All-append, filter, filter-All,
  filter-passes, All-both, Bool-cases, ltb, str_eq, str_eq→eq, map,
}
use nestai.Prelude.Sorting.{sort_by, sort_by-perm, sort_by-All, IsSorted, sort_by-IsSorted}
use nestai.Contracts.Entities.{Member, IsoDateTime}
use nestai.Core.Time.{date, minute}
use nestai.Prelude.Results.{ok}
use nestai.Core.Commute.Groups.{append_assoc, append-empty}
use nestai.Core.Commute.{
  LogisticsCommitment, ConflictDraft, DetectConflictsInput, Groups, push, group, starts_first,
  check_pair, check_pairs, check_groups, name_of, sole_driver, sole_drivers, driving_members,
  ripple_shift, buffer_squeeze, graver, conflicts_of, detect_conflicts,
}

abbrev Listed : DetectConflictsInput → LogisticsCommitment → Type 0
Listed input c = Some (λ x. x ≡ c) input.commitments

-- Why a draft is reported: a drive for which there is one driver, two commitments of one member, at
-- two places of the list, that overlap, or two such between which less time is left than the threshold.
pub data Cause (input : DetectConflictsInput) : ConflictDraft → Type 0 where
  one_driver :
      (sole : Member) (c : LogisticsCommitment)
      → driving_members input.members ≡ sole ∷ []
      → Some (λ x. x ≡ c) input.commitments
      → c.requires_driver ≡ true
      → Cause input (sole_driver sole c)
  overlap :
      (name : String) (a b : LogisticsCommitment) (others : List LogisticsCommitment)
      → Perm input.commitments (a ∷ b ∷ others)
      → a.member_id ≡ b.member_id
      → a.starts_at ≤ b.starts_at
      → b.starts_at < a.ends_at
      → Cause input (ripple_shift name a b)
  squeeze :
      (name : String) (a b : LogisticsCommitment) (others : List LogisticsCommitment)
      → Perm input.commitments (a ∷ b ∷ others)
      → a.member_id ≡ b.member_id
      → a.ends_at ≤ b.starts_at
      → b.starts_at < a.ends_at + input.buffer_threshold_minutes * minute
      → Cause input (buffer_squeeze name input.buffer_threshold_minutes a b)

perm_middle : {A : Type 0} {a : A} (xs ys : List A) → Perm (xs ++ (a ∷ ys)) (a ∷ (xs ++ ys))
perm_middle {a = a} [] ys = Perm.refl (a ∷ ys)
perm_middle {a = a} (x ∷ xs) ys =
    Perm.trans (Perm.cons x (perm_middle xs ys)) (Perm.swap a x (xs ++ ys))

-- The commitments of `part` stand at different places of `all`.
abbrev PartOf : List LogisticsCommitment → List LogisticsCommitment → Type 0
PartOf all part = (others : List LogisticsCommitment) × Perm all (part ++ others)

abbrev ArePartsOf : List LogisticsCommitment → Groups → Type 0
ArePartsOf all groups = All (λ entry. PartOf all entry.1) groups

grow :
    (c : LogisticsCommitment) (seen part : List LogisticsCommitment)
    → PartOf seen part
    → PartOf (c ∷ seen) part
grow c seen part (others, p) =
    (c ∷ others, Perm.trans (Perm.cons c p) (Perm.symm (perm_middle part others)))

push-ArePartsOf :
    (c : LogisticsCommitment) (seen : List LogisticsCommitment) (groups : Groups)
    → ArePartsOf seen groups
    → ArePartsOf (c ∷ seen) (push c groups)
unfolding push
push-ArePartsOf c seen [] h = ((seen, Perm.refl (c ∷ seen)), tt)
push-ArePartsOf c seen ((k, list) ∷ groups) ((others, p), rest) =
    elim (Bool-cases (str_eq k c.member_id)) [
      | inl e ↦ rw e (
        (
          others,
          subst (Perm (c ∷ seen)) (sym (append_assoc list (c ∷ []) others))
              (Perm.trans (Perm.cons c p) (Perm.symm (perm_middle list others))),
        ),
        All-map groups (λ entry part. grow c seen entry.1 part) rest,
      )
      | inr e ↦ rw e (grow c seen list (others, p), push-ArePartsOf c seen groups rest)
    ]

group-ArePartsOf :
    (all cs seen : List LogisticsCommitment) (groups : Groups)
    → Perm all (cs ++ seen)
    → ArePartsOf seen groups
    → ArePartsOf all (group cs groups)
unfolding group
group-ArePartsOf all [] seen groups p h =
    All-map groups (λ entry part. (part.0, Perm.trans p part.1)) h
group-ArePartsOf all (c ∷ cs) seen groups p h =
    group-ArePartsOf all cs (c ∷ seen) (push c groups)
      (Perm.trans p (Perm.symm (perm_middle cs seen))) (push-ArePartsOf c seen groups h)

module _ (input : DetectConflictsInput) where
  abbrev IsIn : String → LogisticsCommitment → Type 0
  IsIn id c = Listed input c × (c.member_id ≡ id)

  abbrev AreIn : String × List LogisticsCommitment → Type 0
  AreIn entry = All (IsIn entry.0) entry.1

  push-AreIn :
      (c : LogisticsCommitment) (groups : Groups)
      → Listed input c
      → All AreIn groups
      → All AreIn (push c groups)
  unfolding push
  push-AreIn c [] listed h = (((listed, refl), tt), tt)
  push-AreIn c ((k, list) ∷ groups) listed (h, rest) = elim (Bool-cases (str_eq k c.member_id)) [
    | inl e ↦ rw e (
      (All-append (IsIn k) list (c ∷ []) h ((listed, sym (str_eq→eq k c.member_id e)), tt)),
      rest,
    )
    | inr e ↦ rw e (h, push-AreIn c groups listed rest)
  ]

  group-AreIn :
      (cs : List LogisticsCommitment) (groups : Groups)
      → All (Listed input) cs
      → All AreIn groups
      → All AreIn (group cs groups)
  unfolding group
  group-AreIn [] groups listed h = h
  group-AreIn (c ∷ cs) groups (listed, rest) h =
      group-AreIn cs (push c groups) rest (push-AreIn c groups listed h)

  check_pair-Cause :
      (name id : String) (a b : LogisticsCommitment)
      → IsIn id a
      → IsIn id b
      → starts_first a b ≡ true
      → PartOf input.commitments (a ∷ b ∷ [])
      → All (Cause input) (check_pair name input.buffer_threshold_minutes a b)
  check_pair-Cause name id a b (listed_a, of_a) (listed_b, of_b) first (others, p) =
      elim (Bool-cases (ltb b.starts_at a.ends_at)) [
        | inl e ↦
            rw e (overlap name a b others p (of_a ∙ sym of_b) (ground arith) (ground arith), tt)
        | inr e ↦
            elim (Bool-cases
              (ltb ((b.starts_at - a.ends_at) / minute) input.buffer_threshold_minutes)) [
                | inl f ↦
                    rw (e, f)
                      (
                        squeeze name a b others p (of_a ∙ sym of_b) (ground arith) (ground arith),
                        tt,
                      )
                | inr f ↦ rw (e, f) tt
              ]
      ]

  check_pairs-Cause :
      (name id : String) (cs : List LogisticsCommitment)
      → All (IsIn id) cs
      → IsSorted starts_first cs
      → PartOf input.commitments cs
      → All (Cause input) (check_pairs name input.buffer_threshold_minutes cs)
  unfolding check_pairs
  check_pairs-Cause name id [] h sorted part = tt
  check_pairs-Cause name id (a ∷ []) h sorted part = tt
  check_pairs-Cause name id (a ∷ b ∷ rest) (in_a, h) (near, sorted) (others, p) =
      All-append (Cause input) (check_pair name input.buffer_threshold_minutes a b)
        (check_pairs name input.buffer_threshold_minutes (b ∷ rest))
        (check_pair-Cause name id a b in_a h.0 near.0 (rest ++ others, p))
        (check_pairs-Cause name id (b ∷ rest) h sorted
          (a ∷ others, Perm.trans p (Perm.symm (perm_middle (b ∷ rest) others))))

  check_groups-Cause :
      (groups : Groups)
      → All AreIn groups
      → ArePartsOf input.commitments groups
      → All (Cause input) (check_groups input.members input.buffer_threshold_minutes groups)
  unfolding check_groups
  check_groups-Cause [] h parts = tt
  check_groups-Cause ((id, list) ∷ groups) (h, rest) ((others, p), parts) =
      All-append (Cause input)
        (check_pairs (name_of input.members id) input.buffer_threshold_minutes
          (sort_by starts_first list))
        (check_groups input.members input.buffer_threshold_minutes groups)
        (check_pairs-Cause (name_of input.members id) id (sort_by starts_first list)
          (sort_by-All starts_first (IsIn id) list h)
          (sort_by-IsSorted starts_first (λ a b e. ground arith) (λ a b c e f. ground arith) list)
          (
            others,
            Perm.trans p (Perm.append_right others (Perm.symm (sort_by-perm starts_first list))),
          ))
        (check_groups-Cause groups rest parts)

  drives-Cause :
      (sole : Member) (drives : List LogisticsCommitment)
      → driving_members input.members ≡ sole ∷ []
      → All (λ c. Listed input c × (c.requires_driver ≡ true)) drives
      → All (Cause input) (map (sole_driver sole) drives)
  drives-Cause sole [] e h = tt
  drives-Cause sole (c ∷ cs) e ((listed, drive), rest) =
      (one_driver sole c e listed drive, drives-Cause sole cs e rest)

  sole_drivers-Cause :
      (drivers : List Member) (drives : List LogisticsCommitment)
      → driving_members input.members ≡ drivers
      → All (λ c. Listed input c × (c.requires_driver ≡ true)) drives
      → All (Cause input) (sole_drivers drivers drives)
  sole_drivers-Cause [] drives e h = tt
  sole_drivers-Cause (sole ∷ []) drives e h = drives-Cause sole drives e h
  sole_drivers-Cause (a ∷ b ∷ rest) drives e h = tt

  self_listed : (cs : List LogisticsCommitment) → All (λ c. Some (λ x. x ≡ c) cs) cs
  self_listed [] = tt
  self_listed (c ∷ cs) = (here refl, All-map cs (λ x s. there s) (self_listed cs))

  conflicts_of-Cause : All (Cause input) (conflicts_of input)
  unfolding conflicts_of
  conflicts_of-Cause =
      let drives = filter (λ (c : LogisticsCommitment). c.requires_driver) input.commitments in
      sort_by-All graver (Cause input) _ (
        All-append (Cause input) (sole_drivers (driving_members input.members) drives)
          (check_groups input.members input.buffer_threshold_minutes (group input.commitments []))
          (sole_drivers-Cause (driving_members input.members) drives refl (
            All-both drives (λ c listed drive. (listed, drive))
              (filter-All _ _ input.commitments (self_listed input.commitments))
              (filter-passes _ input.commitments)))
          (check_groups-Cause (group input.commitments [])
            (group-AreIn input.commitments [] (self_listed input.commitments) tt)
            (group-ArePartsOf input.commitments input.commitments [] []
              (subst (Perm input.commitments) (sym (append-empty input.commitments))
                (Perm.refl input.commitments))
              tt)))

  -- At a valid time the radar returns, and each of its reports has a cause: a SOLE_DRIVER report is
  -- about a drive while exactly one active adult may drive, a RIPPLE_SHIFT report about two
  -- commitments of one member, at two places of the list, that overlap, with the window from the
  -- later start to the earlier one's end, and a BUFFER_SQUEEZE report about two such that do not
  -- overlap and leave less than the threshold between them.
  pub detect_conflicts-Cause :
      {t : IsoDateTime}
      → input.now ≡ date t
      → (drafts : List ConflictDraft) × (detect_conflicts input ≡ ok drafts)
        × All (Cause input) drafts
  unfolding detect_conflicts
  detect_conflicts-Cause now =
      (conflicts_of input, rw (now, detect_conflicts) refl, conflicts_of-Cause)
