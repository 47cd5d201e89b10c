-- ===== src/Api/Availability/Tests.antt =====
-- Runs of availability.service.ts, and its theorems at concrete inputs.
use nestai.Prelude.{
  ◌+◌, ◌*◌, ◌≡◌, ◌⊎◌, refl, List, [], ◌∷◌, String, Option, none, some, arith, str_eq, Some,
  if◌then◌else◌, Bool-cases, inl, inr, eq_iff, false, ◌≤◌, true,
}
use nestai.Prelude.Results.{ok, throw, invalid_argument}
use nestai.Contracts.Enums.{ConflictType, AvailabilityState, AvailabilitySource}
use nestai.Contracts.Entities.{IsoDateTime, AvailabilityBlock}
use nestai.Core.Samples.{noon, family}
use nestai.Core.Time.{minute}
use nestai.Api.Availability.{
  AvailabilityBlockInput, ConflictRow, add_blocks, block_row, detect_and_store_conflicts,
}
use nestai.Api.Availability.Blocks.{Added, Stopped, add_blocks-outcome}
use nestai.Api.Availability.Detection.{
  StoredAs, found_conflicts, detect_and_store_conflicts-StoredAs,
}
use nestai.Api.Table.{Table}
use nestai.Api.Table.Fresh.{draw_id, draw_id-fresh}
use nestai.Api.Table.Rows.{list_table}

abbrev blocks : Table AvailabilityBlock (λ b. b.id)
blocks = list_table (λ b. b.id)

abbrev conflicts : Table ConflictRow (λ c. c.id)
conflicts = list_table (λ c. c.id)

abbrev reads_noon : String → Option IsoDateTime
reads_noon text = if str_eq text "noon" then some noon else none

abbrev work : AvailabilityBlockInput
work = record {
  member_id = "mum";
  kind = AvailabilityState.busy;
  starts_at = "noon";
  ends_at = "noon";
  source = AvailabilitySource.sunday_checkin;
}

abbrev someday : AvailabilityBlockInput
someday = record work { ends_at = "someday" }

-- The first block is written, the second one is refused, and the third one is not tried.
stops :
    add_blocks reads_noon blocks
      (draw_id (λ b. b.id))
      (some "h-1")
      noon
      (work ∷ someday ∷ work ∷ [])
      []
    ≡ (
      block_row (draw_id {Row = AvailabilityBlock} (λ b. b.id) []) work "h-1" noon noon none ∷ [],
      throw invalid_argument,
    )
unfolding add_blocks
stops = refl

add_blocks-outcome_example :
    Added reads_noon blocks (draw_id (λ b. b.id)) "h-1" noon (work ∷ someday ∷ work ∷ []) []
    ⊎ Stopped reads_noon blocks (draw_id (λ b. b.id)) "h-1" noon (work ∷ someday ∷ work ∷ []) []
add_blocks-outcome_example =
    add_blocks-outcome reads_noon blocks (draw_id (λ b. b.id)) "h-1" noon refl
      (draw_id-fresh (λ b. b.id)) (work ∷ someday ∷ work ∷ []) []

false-true : false ≡ true → ⊥
false-true e = cc

abbrev morning : AvailabilityBlock
morning = block_row "b-1" work "h-1" noon (noon + 60 * minute) none

abbrev midday : AvailabilityBlock
midday = block_row "b-2" work "h-1" (noon + 30 * minute) (noon + 90 * minute) none

abbrev shifts : List AvailabilityBlock
shifts = morning ∷ midday ∷ []

shifts_end :
    (c : AvailabilityBlock)
    → blocks.find_unique c.id shifts ≡ some c
    → c.household_id ≡ "h-1"
    → c.starts_at ≤ c.ends_at
shifts_end c found own = elim (Bool-cases (str_eq "b-1" c.id)) [
  | inl e ↦ let at : some morning ≡ some c = rw e at found in ground (arith, at)
  | inr e ↦ elim (Bool-cases (str_eq "b-2" c.id)) [
    | inl f ↦ let at : some midday ≡ some c = rw (e, f) at found in ground (arith, at)
    | inr f ↦ let at : none ≡ some c = rw (e, f) at found in cc
  ]
]

detect_and_store_conflicts-StoredAs_example :
    (stored : List ConflictRow) × ((detect_and_store_conflicts
        (list_table (λ m. m.id))
        blocks
        conflicts
        (draw_id (λ c. c.id))
        (some "h-1")
        noon
        family
        shifts
        []).1
      ≡ ok stored)
    × StoredAs conflicts "h-1"
        (found_conflicts (list_table (λ m. m.id)) blocks "h-1" noon family shifts)
        (detect_and_store_conflicts
          (list_table (λ m. m.id))
          blocks
          conflicts
          (draw_id (λ c. c.id))
          (some "h-1")
          noon
          family
          shifts
          []).0
        stored
    × (Some (λ c. c.draft.kind ≡ ConflictType.ripple_shift) stored
        ⊎ ((morning.ends_at ≤ midday.starts_at) ⊎ (midday.ends_at ≤ morning.starts_at)))
detect_and_store_conflicts-StoredAs_example =
    detect_and_store_conflicts-StoredAs (list_table (λ m. m.id)) blocks conflicts
      (draw_id (λ c. c.id)) "h-1" refl (draw_id-fresh (λ c. c.id)) noon family shifts [] morning
      midday shifts_end (refl, refl, λ e. cc) (refl, refl, λ e. cc) refl
      (λ e. absurd (false-true ((eq_iff "b-1" "b-2").1 e)))
