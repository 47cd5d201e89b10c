-- ===== src/Api/Availability/Detection.antt =====
-- availability.service.ts, detectAndStoreConflicts: every conflict that the radar finds is stored, and
-- what it means that none of them is a double booking.
use nestai.Prelude.{
  ◌≤◌, ◌≢◌, ◌≡◌, ◌⊎◌, refl, ◌∙◌, ap, inl, inr, false, List, [], ◌∷◌, map, filter, String, none,
  some, str_eq, All, Some, here, there, not, true, filter-Some, filter-All, eq_iff, All-map, subst,
  sym,
}
use nestai.Prelude.Results.{ok}
use nestai.Prelude.Sorting.{Pairwise}
use nestai.Contracts.Enums.{ConflictType, AvailabilityState, is_available}
use nestai.Contracts.Entities.{Member, AvailabilityBlock, IsoDateTime}
use nestai.Core.Commute.{ConflictDraft, conflicts_of, detect_conflicts}
use nestai.Core.Commute.Radar.{Compatible, conflicts_of-Compatible}
use nestai.Api.Action.{Action, >>=-ok, answered, answered-ok, checked-writes}
use nestai.Api.Availability.{
  ConflictRow, radar_input, is_active, is_busy, commitment_of, store_conflict, store_conflicts,
  detect_and_store_conflicts,
}
use nestai.Api.Owned.{insert_row-fresh}
use nestai.Api.Owned.Drawn.{Stays, Stays-refl, Stays-trans, create-Stays, create-found}
use nestai.Api.Table.{Table}

abbrev pub IsRipple : ConflictDraft → Type 0
IsRipple d = d.kind ≡ ConflictType.ripple_shift

abbrev NoRipple : ConflictDraft → Type 0
NoRipple d = d.kind ≢ ConflictType.ripple_shift

ripple-cases :
    (kind : ConflictType) → (kind ≡ ConflictType.ripple_shift) ⊎ (kind ≢ ConflictType.ripple_shift)
ripple-cases ConflictType.sole_driver = inr (λ e. cc)
ripple-cases ConflictType.ripple_shift = inl refl
ripple-cases ConflictType.buffer_squeeze = inr (λ e. cc)

ripples-cases :
    (stored : List ConflictRow)
    → Some (λ c. IsRipple c.draft) stored ⊎ All NoRipple (map (λ c. c.draft) stored)
ripples-cases [] = inr tt
ripples-cases (c ∷ cs) = elim (ripple-cases c.draft.kind) [
  | inl ripple ↦ inl (here ripple)
  | inr quiet ↦ elim (ripples-cases cs) [ inl s ↦ inl (there s) | inr all ↦ inr (quiet, all) ]
]

of_map :
    (bs : List AvailabilityBlock) (x b : AvailabilityBlock)
    → All (Compatible (commitment_of x)) (map commitment_of bs)
    → Some (λ y. y ≡ b) bs
    → Compatible (commitment_of x) (commitment_of b)
of_map [] x b p s = elim s [ ]
of_map (y ∷ ys) x b p (here at_b) =
    subst (λ z. Compatible (commitment_of x) (commitment_of z)) at_b p.0
of_map (y ∷ ys) x b p (there s) = of_map ys x b p.1 s

-- Two blocks of a list with different ids.
two_of :
    (bs : List AvailabilityBlock) (a b : AvailabilityBlock)
    → Pairwise Compatible (map commitment_of bs)
    → Some (λ x. x ≡ a) bs
    → Some (λ x. x ≡ b) bs
    → a.id ≢ b.id
    → Compatible (commitment_of a) (commitment_of b)
      ⊎ Compatible (commitment_of b) (commitment_of a)
two_of [] a b p s t differ = elim s [ ]
two_of (x ∷ xs) a b p (here at_a) (here at_b) differ =
    absurd (differ (ap (λ y. y.id) (sym at_a ∙ at_b)))
two_of (x ∷ xs) a b p (here at_a) (there t) differ =
    inl (subst (λ y. Compatible (commitment_of y) (commitment_of b)) at_a (of_map xs x b p.0 t))
two_of (x ∷ xs) a b p (there s) (here at_b) differ =
    inr (subst (λ y. Compatible (commitment_of y) (commitment_of a)) at_b (of_map xs x a p.0 s))
two_of (x ∷ xs) a b p (there s) (there t) differ = two_of xs a b p.1 s t differ

busy_kind :
    (kind : AvailabilityState) → kind ≢ AvailabilityState.available → not (is_available kind) ≡ true
busy_kind AvailabilityState.available busy = absurd (busy refl)
busy_kind AvailabilityState.busy busy = refl
busy_kind AvailabilityState.travel busy = refl

ends_map :
    (bs : List AvailabilityBlock)
    → All (λ b. b.starts_at ≤ b.ends_at) bs
    → All (λ c. c.starts_at ≤ c.ends_at) (map commitment_of bs)
ends_map [] h = tt
ends_map (b ∷ bs) (ends, rest) = (ends, ends_map bs rest)

-- Rows of household `h` for the drafts, in their order, that are all in the table.
pub record StoredAs (conflict : Table ConflictRow (λ c. c.id)) (h : String)
    (drafts : List ConflictDraft) (after : conflict.Rows) (stored : List ConflictRow) : Type 0 where
  pub drafts_of : map (λ c. c.draft) stored ≡ drafts
  pub owned : All (λ c. c.household_id ≡ h) stored
  pub found : All (λ c. conflict.find_unique c.id after ≡ some c) stored

module _ (block : Table AvailabilityBlock (λ b. b.id)) (h : String) where
  -- The household's blocks, and what the radar finds in them.
  abbrev pub own_blocks : block.Rows → List AvailabilityBlock
  own_blocks blocks = block.find_many (λ b. str_eq b.household_id h) blocks

  -- A stored block of the household that is no free time.
  abbrev pub IsBusyOf : AvailabilityBlock → block.Rows → Type 0
  IsBusyOf b blocks =
      (block.find_unique b.id blocks ≡ some b)
      × (b.household_id ≡ h)
      × (b.kind ≢ AvailabilityState.available)

module _ (member : Table Member (λ m. m.id)) (block : Table AvailabilityBlock (λ b. b.id))
    (h : String) where
  -- What the radar returns at a valid time.
  abbrev pub found_conflicts : IsoDateTime → member.Rows → block.Rows → List ConflictDraft
  found_conflicts now members blocks =
      conflicts_of
        (radar_input now (member.find_many (is_active h) members) (own_blocks block h blocks))

module _ (member : Table Member (λ m. m.id)) (block : Table AvailabilityBlock (λ b. b.id))
    (conflict : Table ConflictRow (λ c. c.id)) (draw : conflict.Rows → String) (h : String)
    (set : str_eq h "" ≡ false)
    (fresh : (rows : conflict.Rows) → conflict.find_unique (draw rows) rows ≡ none) where
  abbrev store_all : List ConflictDraft → Action conflict.Rows (List ConflictRow)
  store_all = store_conflicts member block conflict draw (some h)

  -- What is stored, and that the rows that were there stay.
  abbrev Stored : List ConflictDraft → conflict.Rows → Type 0
  Stored drafts rows =
      (stored : List ConflictRow) × ((store_all drafts rows).1 ≡ ok stored)
      × StoredAs conflict h drafts (store_all drafts rows).0 stored
      × ((k : String)
          → Stays (conflict.find_unique k rows) (conflict.find_unique k (store_all drafts rows).0))

  store_conflicts-StoredAs :
      (drafts : List ConflictDraft) (rows : conflict.Rows) → Stored drafts rows
  unfolding store_conflicts
  store_conflicts-StoredAs [] rows = (
    [],
    refl,
    record { drafts_of = refl; owned = tt; found = tt },
    λ k. Stays-refl (conflict.find_unique k rows),
  )
  store_conflicts-StoredAs (draft ∷ drafts) rows =
      let row : ConflictRow = record { id = draw rows; household_id = h; draft = draft } in
      let u : conflict.Rows = conflict.create row rows in
      let first : store_conflict member block conflict draw (some h) draft rows ≡ (u, ok row) =
        rw (set, store_conflict) (insert_row-fresh conflict row rows (fresh rows)) in
      let (stored, returned, as_drafts, stay) = store_conflicts-StoredAs drafts u in
      let after : conflict.Rows = (store_all drafts u).0 in
      let chain : store_all (draft ∷ drafts) rows
          ≡ answered (λ rest. row ∷ rest) (store_all drafts) u =
        >>=-ok (store_conflict member block conflict draw (some h) draft)
          (λ r. answered (λ rest. r ∷ rest) (store_all drafts)) rows first in
      let same : (store_all (draft ∷ drafts) rows).0 ≡ after =
        ap (λ x. x.0) chain ∙ checked-writes _ (store_all drafts) u in
      let all : StoredAs conflict h (draft ∷ drafts) after (row ∷ stored) = record {
        drafts_of = ap (λ ds. draft ∷ ds) as_drafts.drafts_of;
        owned = (refl, as_drafts.owned);
        found = (
          subst (λ x. Stays x (conflict.find_unique row.id after))
              (create-found conflict row rows (fresh rows)) (stay row.id),
          as_drafts.found,
        );
      } in
      (
        row ∷ stored,
        ap (λ x. x.1) chain ∙ answered-ok (λ rest. row ∷ rest) (store_all drafts) u returned,
        subst (λ x. StoredAs conflict h (draft ∷ drafts) x (row ∷ stored)) (sym same) all,
        λ k.
            subst (λ x. Stays (conflict.find_unique k rows) (conflict.find_unique k x)) (sym same)
              (Stays-trans (conflict.find_unique k rows) (conflict.find_unique k u)
                (conflict.find_unique k after) (create-Stays conflict row rows (fresh rows) k)
                (stay k)),
      )

  -- Two stored blocks of the household, of one member, that are no free time: they are apart when the
  -- radar finds no ripple.
  busy_apart :
      (now : IsoDateTime) (members : member.Rows) (blocks : block.Rows) (a b : AvailabilityBlock)
      → ((c : AvailabilityBlock)
          → block.find_unique c.id blocks ≡ some c
          → c.household_id ≡ h
          → c.starts_at ≤ c.ends_at)
      → IsBusyOf block h a blocks
      → IsBusyOf block h b blocks
      → a.member_id ≡ b.member_id
      → a.id ≢ b.id
      → All NoRipple (found_conflicts member block h now members blocks)
      → (a.ends_at ≤ b.starts_at) ⊎ (b.ends_at ≤ a.starts_at)
  busy_apart now members blocks a b ends busy_a busy_b one differ quiet =
      elim (two_of busy a b
        (conflicts_of-Compatible
          (radar_input now (member.find_many (is_active h) members) (own_blocks block h blocks))
          ends_all quiet)
        (listed a busy_a) (listed b busy_b) differ) [
          | inl (inl other) ↦ absurd (other one)
          | inl (inr apart) ↦ apart
          | inr (inl other) ↦ absurd (other (sym one))
          | inr (inr (inl e)) ↦ inr e
          | inr (inr (inr e)) ↦ inl e
        ]
    where
      busy : List AvailabilityBlock
      busy = filter is_busy (own_blocks block h blocks)

      listed : (c : AvailabilityBlock) → IsBusyOf block h c blocks → Some (λ x. x ≡ c) busy
      listed c (found, own, kind) =
          filter-Some (λ x. x ≡ c) is_busy
            (λ x same. subst (λ y. is_busy y ≡ true) (sym same) (busy_kind c.kind kind))
            (block.find_unique-find_many (λ y. str_eq y.household_id h) blocks c.id c found
              ((eq_iff c.household_id h).1 own))

      ends_all : All (λ c. c.starts_at ≤ c.ends_at) (map commitment_of busy)
      ends_all = ends_map busy (
          filter-All _ is_busy (own_blocks block h blocks) (
            All-map (own_blocks block h blocks)
              (λ c facts. ends c facts.1 ((eq_iff c.household_id h).0 facts.0))
              (block.find_many-find_unique (λ y. str_eq y.household_id h) blocks)))

  -- In a household whose id is not empty, with fresh ids, where the household's blocks end no earlier
  -- than they start: detectAndStoreConflicts returns a row of the household for each conflict of the
  -- radar, in their order, and each is found in the table afterwards. For any two stored blocks of the
  -- household with different ids, of one member and not of the kind AVAILABLE, either one ends before
  -- or when the other starts, or a row of the kind RIPPLE_SHIFT is among those stored.
  pub detect_and_store_conflicts-StoredAs :
      (now : IsoDateTime) (members : member.Rows) (blocks : block.Rows) (rows : conflict.Rows)
      (a b : AvailabilityBlock)
      → ((c : AvailabilityBlock)
          → block.find_unique c.id blocks ≡ some c
          → c.household_id ≡ h
          → c.starts_at ≤ c.ends_at)
      → IsBusyOf block h a blocks
      → IsBusyOf block h b blocks
      → a.member_id ≡ b.member_id
      → a.id ≢ b.id
      → (stored : List ConflictRow) × ((detect_and_store_conflicts member block conflict draw
            (some h)
            now
            members
            blocks
            rows).1
          ≡ ok stored)
        × StoredAs conflict h
            (found_conflicts member block h now members blocks)
            (detect_and_store_conflicts member block conflict draw
              (some h)
              now
              members
              blocks
              rows).0
            stored
        × (Some (λ c. c.draft.kind ≡ ConflictType.ripple_shift) stored
            ⊎ ((a.ends_at ≤ b.starts_at) ⊎ (b.ends_at ≤ a.starts_at)))
  unfolding detect_and_store_conflicts detect_conflicts
  detect_and_store_conflicts-StoredAs now members blocks rows a b ends busy_a busy_b one differ =
      let (stored, returned, as_drafts, stay) =
        store_conflicts-StoredAs (found_conflicts member block h now members blocks) rows in
      (
        stored,
        rw (set, detect_and_store_conflicts) returned,
        rw (set, detect_and_store_conflicts) as_drafts,
        elim (ripples-cases stored) [
          | inl ripple ↦ inl ripple
          | inr quiet ↦ inr (
              busy_apart now members blocks a b ends busy_a busy_b one differ
                (subst (All NoRipple) as_drafts.drafts_of quiet))
        ],
      )
