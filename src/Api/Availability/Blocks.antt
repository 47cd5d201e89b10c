-- ===== src/Api/Availability/Blocks.antt =====
-- availability.service.ts, addBlocks: the blocks are written one by one, up to the first whose dates
-- are invalid.
use nestai.Prelude.{
  ◌≡◌, ◌⊎◌, refl, sym, ◌∙◌, ap, inl, inr, false, List, [], ◌∷◌, ◌++◌, String, Option, none, some,
  arith, str_eq, All, Option-cases, leb, ◌<◌, ◌+◌, subst, ◌≢◌, Bool-cases,
}
use nestai.Prelude.Results.{ok, throw, invalid_argument}
use nestai.Contracts.Enums.{AvailabilitySource}
use nestai.Contracts.Entities.{IsoDateTime, AvailabilityBlock}
use nestai.Core.Time.{last_date}
use nestai.Api.Action.{>>=-ok, >>=-throw, answered, answered-ok, checked-writes, lift}
use nestai.Api.Availability.{
  AvailabilityBlockInput, new_block, add_block, add_blocks, purge_raw_after, written_clock,
  block_row,
}
use nestai.Api.Owned.Drawn.{Stays, Stays-refl, Stays-trans, create-Stays, create-found}
use nestai.Api.Owned.{insert_row-fresh}
use nestai.Api.Table.{Table}

-- Raw text is kept for a day, in milliseconds.
abbrev pub IsPurgeTime : AvailabilitySource → IsoDateTime → Option IsoDateTime → Type 0
IsPurgeTime AvailabilitySource.nl_text now purge = purge ≡ some (now + 86_400_000)
IsPurgeTime AvailabilitySource.screenshot_ocr now purge = purge ≡ some (now + 86_400_000)
IsPurgeTime AvailabilitySource.sunday_checkin now purge = purge ≡ none

module _ (parse : String → Option IsoDateTime) (now : IsoDateTime) (h : String) where
  -- The row of a block: its dates as they are read, its fields, and its household.
  pub record IsBlock (input : AvailabilityBlockInput) (row : AvailabilityBlock) : Type 0 where
    pub household_id : row.household_id ≡ h
    pub member_id : row.member_id ≡ input.member_id
    pub kind : row.kind ≡ input.kind
    pub starts_at : parse input.starts_at ≡ some row.starts_at
    pub ends_at : parse input.ends_at ≡ some row.ends_at
    pub source : row.source ≡ input.source
    pub purge_raw_after : IsPurgeTime input.source now row.purge_raw_after

  -- A block with a date that cannot be read, or whose purge time is out of the range of dates.
  abbrev pub Unreadable : AvailabilityBlockInput → Type 0
  Unreadable input =
      (parse input.starts_at ≡ none)
      ⊎ (parse input.ends_at ≡ none)
      ⊎ ((input.source ≢ AvailabilitySource.sunday_checkin) × (last_date < now + 86_400_000))

  purge-cases :
      (source : AvailabilitySource)
      → ((t : Option IsoDateTime) × (written_clock (purge_raw_after source now) ≡ ok t)
          × IsPurgeTime source now t)
        ⊎ ((written_clock (purge_raw_after source now) ≡ throw invalid_argument)
            × (source ≢ AvailabilitySource.sunday_checkin)
            × (last_date < now + 86_400_000))
  purge-cases AvailabilitySource.sunday_checkin = inl (none, refl, refl)
  purge-cases AvailabilitySource.nl_text = elim (Bool-cases (leb (now + 86_400_000) last_date)) [
    | inl fits ↦ inl (some (now + 86_400_000), rw fits refl, refl)
    | inr late ↦ inr (rw late refl, (λ e. cc), ground arith)
  ]
  purge-cases AvailabilitySource.screenshot_ocr =
      elim (Bool-cases (leb (now + 86_400_000) last_date)) [
        | inl fits ↦ inl (some (now + 86_400_000), rw fits refl, refl)
        | inr late ↦ inr (rw late refl, (λ e. cc), ground arith)
      ]

  abbrev Readable : AvailabilityBlockInput → String → Type 0
  Readable input id =
      (row : AvailabilityBlock) × (new_block parse now input h id ≡ ok row)
      × (row.id ≡ id)
      × IsBlock input row

  new_block-cases :
      (input : AvailabilityBlockInput) (id : String)
      → Readable input id
        ⊎ (Unreadable input × (new_block parse now input h id ≡ throw invalid_argument))
  new_block-cases input id = elim (Option-cases (parse input.starts_at)) [
    | inl unread ↦ inr (inl unread, ground (arith, unread))
    | inr (a, starts) ↦ elim (Option-cases (parse input.ends_at)) [
      | inl unread ↦ inr (inr (inl unread), ground (arith, starts, unread))
      | inr (b, ends) ↦ elim (purge-cases input.source) [
        | inr (late, why, out) ↦ inr (inr (inr (why, out)), ground (arith, starts, ends, late))
        | inl (t, purge, is_purge) ↦ inl (
          block_row id input h a b t,
          ground (arith, starts, ends, purge),
          refl,
          record {
            household_id = refl;
            member_id = refl;
            kind = refl;
            starts_at = starts;
            ends_at = ends;
            source = refl;
            purge_raw_after = is_purge;
          },
        )
      ]
    ]
  ]

  -- The rows of the blocks, in their order.
  abbrev pub AreBlocks : List AvailabilityBlockInput → List AvailabilityBlock → Type 0
  AreBlocks [] [] = Unit {0}
  AreBlocks (input ∷ inputs) (row ∷ rows) = IsBlock input row × AreBlocks inputs rows
  AreBlocks inputs rows = ⊥

module _ (parse : String → Option IsoDateTime) (table : Table AvailabilityBlock (λ b. b.id))
    (draw : table.Rows → String) (h : String) (now : IsoDateTime) where
  -- Every block is returned as a row of the household, in the order of the blocks; each row is in the
  -- table, with all the rows that were there before.
  pub record IsAdded (inputs : List AvailabilityBlockInput) (rows after : table.Rows)
      (stored : List AvailabilityBlock) : Type 0 where
    pub blocks : AreBlocks parse now h inputs stored
    pub found : All (λ b. table.find_unique b.id after ≡ some b) stored
    pub kept : (k : String) → Stays (table.find_unique k rows) (table.find_unique k after)

  abbrev pub Added : List AvailabilityBlockInput → table.Rows → Type 0
  Added inputs rows =
      (stored : List AvailabilityBlock) × ((add_blocks parse table draw (some h) now inputs rows).1
        ≡ ok stored)
      × IsAdded inputs rows (add_blocks parse table draw (some h) now inputs rows).0 stored

  -- The blocks before one that cannot be read are added, and that one is refused.
  abbrev pub Stopped : List AvailabilityBlockInput → table.Rows → Type 0
  Stopped inputs rows =
      (before : List AvailabilityBlockInput) × (input : AvailabilityBlockInput) × (after : List
        AvailabilityBlockInput)
      × (inputs ≡ before ++ input ∷ after)
      × Unreadable parse now h input
      × Added before rows
      × (add_blocks parse table draw (some h) now inputs rows
          ≡ ((add_blocks parse table draw (some h) now before rows).0, throw invalid_argument))

  module _ (set : str_eq h "" ≡ false)
      (fresh : (rows : table.Rows) → table.find_unique (draw rows) rows ≡ none) where
    add_block-ok :
        (input : AvailabilityBlockInput) (rows : table.Rows) (row : AvailabilityBlock)
        → new_block parse now input h (draw rows) ≡ ok row
        → row.id ≡ draw rows
        → add_block parse table draw (some h) now input rows ≡ (table.create row rows, ok row)
    add_block-ok input rows row made drawn =
        rw (set, made, add_block)
          (insert_row-fresh table row rows (ap (λ k. table.find_unique k rows) drawn ∙ fresh rows))

    add_block-throw :
        (input : AvailabilityBlockInput) (rows : table.Rows)
        → new_block parse now input h (draw rows) ≡ throw invalid_argument
        → add_block parse table draw (some h) now input rows ≡ (rows, throw invalid_argument)
    add_block-throw input rows unread = rw (set, unread, add_block) refl

    -- A block that is written, and the blocks after it.
    add_blocks-∷ :
        (input : AvailabilityBlockInput) (inputs : List AvailabilityBlockInput)
        (rows u : table.Rows) (row : AvailabilityBlock)
        → add_block parse table draw (some h) now input rows ≡ (u, ok row)
        → add_blocks parse table draw (some h) now (input ∷ inputs) rows
          ≡ answered (λ rest. row ∷ rest) (add_blocks parse table draw (some h) now inputs) u
    unfolding add_blocks
    add_blocks-∷ input inputs rows u row e =
        >>=-ok (add_block parse table draw (some h) now input)
          (λ b. answered (λ rest. b ∷ rest) (add_blocks parse table draw (some h) now inputs)) rows
          e

    unused :
        (row : AvailabilityBlock) (rows : table.Rows)
        → row.id ≡ draw rows
        → table.find_unique row.id rows ≡ none
    unused row rows drawn = ap (λ i. table.find_unique i rows) drawn ∙ fresh rows

    Added-[] : (rows : table.Rows) → Added [] rows
    unfolding add_blocks
    Added-[] rows = (
      [],
      refl,
      record { blocks = tt; found = tt; kept = λ k. Stays-refl (table.find_unique k rows) },
    )

    Added-∷ :
        (input : AvailabilityBlockInput) (inputs : List AvailabilityBlockInput) (rows : table.Rows)
        (row : AvailabilityBlock)
        → row.id ≡ draw rows
        → IsBlock parse now h input row
        → add_block parse table draw (some h) now input rows ≡ (table.create row rows, ok row)
        → Added inputs (table.create row rows)
        → Added (input ∷ inputs) rows
    Added-∷ input inputs rows row drawn is_block e (stored, returned, added) =
        let u : table.Rows = table.create row rows in
        let after : table.Rows = (add_blocks parse table draw (some h) now inputs u).0 in
        let same : (add_blocks parse table draw (some h) now (input ∷ inputs) rows).0 ≡ after =
          ap (λ x. x.0) (add_blocks-∷ input inputs rows u row e)
          ∙ checked-writes _ (add_blocks parse table draw (some h) now inputs) u in
        let all : IsAdded (input ∷ inputs) rows after (row ∷ stored) = record {
          blocks = (is_block, added.blocks);
          found = (
            subst (λ found. Stays found (table.find_unique row.id after))
                (create-found table row rows (unused row rows drawn)) (added.kept row.id),
            added.found,
          );
          kept = λ k.
              Stays-trans (table.find_unique k rows) (table.find_unique k u)
                (table.find_unique k after) (create-Stays table row rows (unused row rows drawn) k)
                (added.kept k);
        } in
        (
          row ∷ stored,
          ap (λ x. x.1) (add_blocks-∷ input inputs rows u row e)
              ∙ answered-ok (λ rest. row ∷ rest) (add_blocks parse table draw (some h) now inputs) u
                  returned,
          subst (λ x. IsAdded (input ∷ inputs) rows x (row ∷ stored)) (sym same) all,
        )

    -- In a household whose id is not empty, and with fresh ids: either every block is returned as a
    -- row of the household, in their order, with its fields, its dates as they are read, and a purge
    -- time a day ahead when it was read from text or a screenshot; all these rows are in the table,
    -- with those that were there before. Or the call throws at the first block with a date that
    -- cannot be read or a purge time out of range, with the blocks before it added like that.
    pub add_blocks-outcome :
        (inputs : List AvailabilityBlockInput) (rows : table.Rows)
        → Added inputs rows ⊎ Stopped inputs rows
    unfolding add_blocks
    add_blocks-outcome [] rows = inl (Added-[] rows)
    add_blocks-outcome (input ∷ inputs) rows =
        elim (new_block-cases parse now h input (draw rows)) [
          | inr (unread, refused) ↦ inr (
            [],
            input,
            inputs,
            refl,
            unread,
            Added-[] rows,
            >>=-throw (add_block parse table draw (some h) now input)
                (λ b. answered (λ rest. b ∷ rest) (add_blocks parse table draw (some h) now inputs))
                rows (add_block-throw input rows refused),
          )
          | inl (row, made, drawn, is_block) ↦
              let u : table.Rows = table.create row rows in
              let e : add_block parse table draw (some h) now input rows ≡ (u, ok row) =
                add_block-ok input rows row made drawn in
              elim (add_blocks-outcome inputs u) [
                | inl added ↦ inl (Added-∷ input inputs rows row drawn is_block e added)
                | inr (before, bad, after, parts, unread, added, stopped) ↦ inr (
                  input ∷ before,
                  bad,
                  after,
                  ap (λ xs. input ∷ xs) parts,
                  unread,
                  Added-∷ input before rows row drawn is_block e added,
                  add_blocks-∷ input inputs rows u row e
                      ∙ >>=-throw (add_blocks parse table draw (some h) now inputs)
                          (λ rest. lift (ok (row ∷ rest))) u stopped
                      ∙ ap (λ r. (r, throw invalid_argument))
                          (sym (
                            ap (λ x. x.0) (add_blocks-∷ input before rows u row e)
                            ∙ checked-writes _ (add_blocks parse table draw (some h) now before)
                                u)),
                )
              ]
        ]
