-- ===== src/Api/Availability.antt =====
-- services/api/src/modules/availability/availability.service.ts: list, addBlocks and
-- detectAndStoreConflicts. `parse` is the host's reading of a date text, `draw` the id that the
-- database draws for a new row, and the time is an argument. The client refuses the invalid date. The
-- reading of a screenshot's text is not modelled.
pub mod Blocks
pub mod Detection
mod Tests
use nestai.Prelude.{
  ℕ, ◌*◌, Bool, true, not, ◌&&◌, String, List, [], ◌∷◌, map, filter, Option, none, some, str_eq,
  if◌then◌else◌,
}
use nestai.Prelude.Int.{pos}
use nestai.Prelude.Results
use nestai.Prelude.Results.{Result, ok, throw, invalid_argument}
use nestai.Contracts.Enums.{AvailabilityState, AvailabilitySource, is_available}
use nestai.Contracts.Entities.{IsoDateTime, Member, AvailabilityBlock}
use nestai.Core.Time.{Clock, date, invalid, minute, shift}
use nestai.Core.Commute.{LogisticsCommitment, ConflictDraft, DetectConflictsInput, detect_conflicts}
use nestai.Api.Action.{Action, ◌>>=◌, return, lift, answered}
use nestai.Api.Database.{TenantContext, household_id}
use nestai.Api.Events.{written_date}
use nestai.Api.Owned.{insert_row}
use nestai.Api.Table.{Table}

pub record AvailabilityBlockInput : Type 0 where
  pub member_id : String
  pub kind : AvailabilityState
  pub starts_at : String
  pub ends_at : String
  pub source : AvailabilitySource

-- Raw text is purged after 24 hours.
abbrev pub purge_raw_after : AvailabilitySource → IsoDateTime → Option Clock
purge_raw_after AvailabilitySource.screenshot_ocr now = some (shift now (pos (24 * 60 * minute)))
purge_raw_after AvailabilitySource.nl_text now = some (shift now (pos (24 * 60 * minute)))
purge_raw_after AvailabilitySource.sunday_checkin now = none

abbrev pub written_clock : Option Clock → Result (Option IsoDateTime)
written_clock none = ok none
written_clock (some (date t)) = ok (some t)
written_clock (some invalid) = throw invalid_argument

abbrev pub block_row :
    String
    → AvailabilityBlockInput
    → String
    → IsoDateTime
    → IsoDateTime
    → Option IsoDateTime
    → AvailabilityBlock
block_row id input household starts_at ends_at purge = record {
  id = id;
  household_id = household;
  member_id = input.member_id;
  kind = input.kind;
  starts_at = starts_at;
  ends_at = ends_at;
  source = input.source;
  purge_raw_after = purge;
}

-- The row of a block, which is not written when one of its dates is invalid.
abbrev pub new_block :
    (String → Option IsoDateTime)
    → IsoDateTime
    → AvailabilityBlockInput
    → String
    → String
    → Result AvailabilityBlock
new_block parse now input household id =
    Results.and_then (written_date (parse input.starts_at)) (λ starts_at.
      Results.and_then (written_date (parse input.ends_at)) (λ ends_at.
        Results.and_then (written_clock (purge_raw_after input.source now))
          (λ purge. ok (block_row id input household starts_at ends_at purge))))

-- `where(memberId ? { memberId } : {})`.
abbrev pub is_listed : String → Option String → AvailabilityBlock → Bool
is_listed household none row = str_eq row.household_id household
is_listed household (some member) row =
    (if str_eq member "" then true else str_eq row.member_id member)
    && str_eq row.household_id household

module _ (table : Table AvailabilityBlock (λ b. b.id)) (tenant : TenantContext) where
  abbrev pub list : Option String → Action table.Rows (List AvailabilityBlock)
  list member rows = elim (household_id tenant) [
    | throw fault ↦ (rows, throw fault)
    | ok household ↦ (rows, ok (table.find_many (is_listed household member) rows))
  ]

module _ (parse : String → Option IsoDateTime) (table : Table AvailabilityBlock (λ b. b.id))
    (draw : table.Rows → String) (tenant : TenantContext) (now : IsoDateTime) where
  abbrev pub add_block : AvailabilityBlockInput → Action table.Rows AvailabilityBlock
  add_block input rows = elim (household_id tenant) [
    | throw fault ↦ (rows, throw fault)
    | ok household ↦ elim (new_block parse now input household (draw rows)) [
      | throw fault ↦ (rows, throw fault)
      | ok row ↦ insert_row table row rows
    ]
  ]

  unfoldable pub add_blocks :
      List AvailabilityBlockInput → Action table.Rows (List AvailabilityBlock)
  add_blocks [] = return []
  add_blocks (input ∷ inputs) = do
    row ← add_block input
    answered (λ rest. row ∷ rest) (add_blocks inputs)

-- A stored conflict: the parts of its draft, with an id and a household.
pub record ConflictRow : Type 0 where
  pub id : String
  pub household_id : String
  pub draft : ConflictDraft

-- `where({ active: true })`, and the blocks that are no AVAILABLE ones.
abbrev pub is_active : String → Member → Bool
is_active household m = m.active && str_eq m.household_id household

abbrev pub is_busy : AvailabilityBlock → Bool
is_busy b = not (is_available b.kind)

abbrev pub label_of : AvailabilityState → String
label_of AvailabilityState.available = "AVAILABLE block"
label_of AvailabilityState.busy = "BUSY block"
label_of AvailabilityState.travel = "TRAVEL block"

abbrev pub commitment_of : AvailabilityBlock → LogisticsCommitment
commitment_of b = record {
  task_id = none;
  member_id = b.member_id;
  requires_driver = Bool.false;
  starts_at = b.starts_at;
  ends_at = b.ends_at;
  label = some (label_of b.kind);
}

-- The radar's input, with its default threshold.
abbrev pub radar_input : IsoDateTime → List Member → List AvailabilityBlock → DetectConflictsInput
radar_input now members blocks = record {
  commitments = map commitment_of (filter is_busy blocks);
  members = members;
  buffer_threshold_minutes = 15;
  now = date now;
}

module _ (member : Table Member (λ m. m.id)) (block : Table AvailabilityBlock (λ b. b.id))
    (conflict : Table ConflictRow (λ c. c.id)) (draw : conflict.Rows → String)
    (tenant : TenantContext) where
  abbrev pub store_conflict : ConflictDraft → Action conflict.Rows ConflictRow
  store_conflict draft rows = elim (household_id tenant) [
    | throw fault ↦ (rows, throw fault)
    | ok household ↦
        insert_row conflict (record { id = draw rows; household_id = household; draft = draft })
          rows
  ]

  unfoldable pub store_conflicts : List ConflictDraft → Action conflict.Rows (List ConflictRow)
  store_conflicts [] = return []
  store_conflicts (draft ∷ drafts) = do
    row ← store_conflict draft
    answered (λ rest. row ∷ rest) (store_conflicts drafts)

  -- The tables that are only read are arguments.
  unfoldable pub detect_and_store_conflicts :
      IsoDateTime → member.Rows → block.Rows → Action conflict.Rows (List ConflictRow)
  detect_and_store_conflicts now members blocks = do
    household ← lift (household_id tenant)
    drafts ← lift (
        detect_conflicts (
          radar_input now (member.find_many (is_active household) members)
            (block.find_many (λ b. str_eq b.household_id household) blocks)))
    store_conflicts drafts
