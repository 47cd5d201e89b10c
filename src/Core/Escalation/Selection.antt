-- ===== src/Core/Escalation/Selection.antt =====
-- escalation.ts, selectBackup: who is eligible, and who is selected.
use nestai.Prelude.{
  ℕ, ◌≤◌, ◌≡◌, ◌≢◌, refl, ◌⊎◌, Bool, true, false, not, ◌&&◌, ◌||◌, if◌then◌else◌, String, List, [],
  ◌∷◌, Option, none, some, arith, All, str_eq, includes, eq_iff, filter, map, leb, all, All-all,
  all-All,
}
use nestai.Prelude.Results.{ok}
use nestai.Prelude.Sorting.{sort_by}
use nestai.Contracts.Enums.{Role, AvailabilityState, is_available}
use nestai.Contracts.Entities.{Member, AvailabilityBlock}
use nestai.Core.Locale.{Locale}
use nestai.Core.Time.{date, windows_overlap}
use nestai.Core.Escalation.{
  SelectBackupInput, BackupCandidate, has_cleared_schedule, ruled_out, consider, collect, candidate,
  before, selection_of, select_backup, beyond_radius,
}

-- A block leaves the window to the member: it is another member's, it is free time, or it lies
-- outside the window.
abbrev pub LeavesFree : String → ℕ → ℕ → AvailabilityBlock → Type 0
LeavesFree member_id start end b =
    (b.member_id ≢ member_id)
    ⊎ (b.kind ≡ AvailabilityState.available)
    ⊎ (end ≤ b.starts_at)
    ⊎ (b.ends_at ≤ start)

abbrev pub IsWithinRadius : Option ℕ → Option ℕ → Type 0
IsWithinRadius (some most) (some minutes) = minutes ≤ most
IsWithinRadius most minutes = Unit {0}

-- Eligibility, in the words of the function's comment.
pub record IsEligible (input : SelectBackupInput) (start end : ℕ) (m : Member) : Type 0 where
  pub not_excluded : All (λ x. x ≢ m.id) input.exclude_member_ids
  pub active : m.active ≡ true
  pub adult : m.role ≢ Role.dependent
  pub drives : (input.requires_driving ≡ false) ⊎ (m.driving_privileges ≡ true)
  pub cleared : All (LeavesFree m.id start end) input.availability
  pub near : IsWithinRadius input.max_commute_minutes m.commute_minutes

abbrev pub leaves_free : String → ℕ → ℕ → AvailabilityBlock → Bool
leaves_free member_id start end b =
    not (str_eq b.member_id member_id)
    || is_available b.kind
    || leb end b.starts_at
    || leb b.ends_at start

leaves_free→LeavesFree :
    (id : String) (start end : ℕ) (b : AvailabilityBlock)
    → leaves_free id start end b ≡ true
    → LeavesFree id start end b
leaves_free→LeavesFree id start end b h = ground (arith, eq_iff b.member_id id)

LeavesFree→leaves_free :
    (id : String) (start end : ℕ) (b : AvailabilityBlock)
    → LeavesFree id start end b
    → leaves_free id start end b ≡ true
LeavesFree→leaves_free id start end b h = ground (arith, eq_iff b.member_id id)

has_cleared_schedule-all :
    (id : String) (start end : ℕ) (bs : List AvailabilityBlock)
    → has_cleared_schedule id (date start) (date end) bs ≡ ok (all (leaves_free id start end) bs)
unfolding has_cleared_schedule windows_overlap
has_cleared_schedule-all id start end [] = refl
has_cleared_schedule-all id start end (b ∷ bs) =
    ground (arith, has_cleared_schedule-all id start end bs)

includes-false→All : (s : String) (xs : List String) → includes s xs ≡ false → All (λ x. x ≢ s) xs
includes-false→All s [] h = tt
includes-false→All s (x ∷ xs) h = ground (arith, eq_iff x s, includes-false→All s xs)

All→includes-false : (s : String) (xs : List String) → All (λ x. x ≢ s) xs → includes s xs ≡ false
All→includes-false s [] h = refl
All→includes-false s (x ∷ xs) h = ground (arith, eq_iff x s, All→includes-false s xs h.1)

beyond_radius-false :
    (most minutes : Option ℕ) → beyond_radius most minutes ≡ false → IsWithinRadius most minutes
beyond_radius-false none minutes h = tt
beyond_radius-false (some most) none h = tt
beyond_radius-false (some most) (some minutes) h = ground arith

IsWithinRadius→false :
    (most minutes : Option ℕ) → IsWithinRadius most minutes → beyond_radius most minutes ≡ false
IsWithinRadius→false none minutes h = refl
IsWithinRadius→false (some most) none h = refl
IsWithinRadius→false (some most) (some minutes) h = ground arith

module _ (input : SelectBackupInput) (start end : ℕ) where
  abbrev pub is_eligible : Member → Bool
  is_eligible m =
      not (ruled_out input m)
      && all (leaves_free m.id start end) input.availability
      && not (beyond_radius input.max_commute_minutes m.commute_minutes)

  pub is_eligible→IsEligible : (m : Member) → is_eligible m ≡ true → IsEligible input start end m
  is_eligible→IsEligible m h = record {
    not_excluded = includes-false→All m.id input.exclude_member_ids (ground arith);
    active = ground arith;
    adult = ground arith;
    drives = ground arith;
    cleared =
        All-all (leaves_free m.id start end) (leaves_free→LeavesFree m.id start end)
          input.availability (ground arith);
    near = beyond_radius-false input.max_commute_minutes m.commute_minutes (ground arith);
  }

  pub IsEligible→is_eligible : (m : Member) → IsEligible input start end m → is_eligible m ≡ true
  IsEligible→is_eligible m h = ground (
    arith,
    All→includes-false m.id input.exclude_member_ids h.not_excluded,
    all-All (leaves_free m.id start end) (LeavesFree→leaves_free m.id start end) input.availability
        h.cleared,
  )

  -- The candidates of the eligible members, in the members' order.
  abbrev pub eligible_candidates : List Member → List BackupCandidate
  eligible_candidates ms = map (candidate input.requires_driving) (filter is_eligible ms)

module _ (locale : Locale) (input : SelectBackupInput) (start end : ℕ)
    (start_valid : input.window_start ≡ date start) (end_valid : input.window_end ≡ date end) where
  consider-eligible :
      (m : Member)
      → consider input m
        ≡ ok (
            if is_eligible input start end m
            then some (candidate input.requires_driving m)
            else none)
  unfolding consider
  consider-eligible m =
      rw (start_valid, end_valid, has_cleared_schedule-all m.id start end input.availability)
        (ground arith)

  collect-eligible :
      (ms : List Member) → collect input ms ≡ ok (eligible_candidates input start end ms)
  unfolding collect
  collect-eligible [] = refl
  collect-eligible (m ∷ ms) = ground (arith, consider-eligible m, collect-eligible ms)

  pub select_backup-eligible :
      select_backup locale input
      ≡ ok (
          selection_of
            (sort_by (before locale) (eligible_candidates input start end input.members)))
  unfolding select_backup
  select_backup-eligible = rw (collect-eligible input.members)
