-- ===== src/Api/Scheduler/Sweeps.antt =====
-- scheduler.service.ts: the sweeps of milestones, messages and availability blocks.
use nestai.Prelude.{
  ◌≡◌, refl, sym, ap, ◌∙◌, subst, inl, inr, Bool, true, false, not, ◌&&◌, String, List, [], ◌∷◌,
  map, Option, none, some, arith, if◌then◌else◌, length, includes→Some, Some→includes, All, All-map,
  All-Some, Some, here, there, Some-element, Bool-cases, ℕ, str_eq, eq_iff, leb, ◌≤◌, ◌<◌, ◌≢◌, ◌⊎◌,
}
use nestai.Contracts.Entities.{IsoDateTime, Milestone, RawMessage, AvailabilityBlock}
use nestai.Api.Table.{Table, on_row, keep_row}
use nestai.Api.Scheduler.{
  Purged, is_due, is_empty, listed_in, set_fired, fire_milestones, is_overdue, blank, is_expired,
  purge_sweep, passed,
}

none_listed : {A : Type 0} (xs : List A) → All (λ x. ⊥) xs → xs ≡ []
none_listed [] h = refl
none_listed (x ∷ xs) h = absurd h.0

-- A filter that no stored row passes finds nothing.
find_many-none :
    {Row : Type 0} {id_of : Row → String} (table : Table Row id_of) (q : Row → Bool)
    (rows : table.Rows)
    → ((r : Row) → table.find_unique (id_of r) rows ≡ some r → q r ≡ false)
    → table.find_many q rows ≡ []
find_many-none table q rows h =
    none_listed _
      (All-map _ (λ r facts. not-true (h r facts.1) facts.0) (table.find_many-find_unique q rows))
  where
    not-true : {b : Bool} → b ≡ false → b ≡ true → ⊥
    not-true e f = ground arith

-- What a stored row was before an update of many rows.
row_before :
    {Row : Type 0} (f : Row → Row) (found : Option Row) (r : Row)
    → on_row f found ≡ some r
    → (old : Row) × (found ≡ some old) × (f old ≡ r)
row_before f none r e = cc
row_before f (some old) r e = (old, refl, ground arith)

Some-ids :
    (m : Milestone) {ms : List Milestone}
    → Some (λ x. x ≡ m) ms
    → Some (λ i. i ≡ m.id) (map (λ x. x.id) ms)
Some-ids m (here same) = here (ap (λ y. y.id) same)
Some-ids m (there s) = there (Some-ids m s)

ids-Some :
    (i : String) (ms : List Milestone)
    → Some (λ x. x ≡ i) (map (λ x. x.id) ms)
    → Some (λ m. m.id ≡ i) ms
ids-Some i [] s = elim s [ ]
ids-Some i (m ∷ ms) (here same) = here same
ids-Some i (m ∷ ms) (there s) = there (ids-Some i ms s)

empty_lem : (ms : List Milestone) → is_empty ms ≡ true → ms ≡ []
empty_lem [] e = refl
empty_lem (m ∷ ms) e = cc

-- What a sweep at `now` makes of the milestone stored under an id: one that has not fired and whose
-- time has come is stored as fired, with nothing else changed, and any other one stays.
abbrev pub FiresAt : IsoDateTime → Option Milestone → Option Milestone → Type 0
FiresAt now none after = after ≡ none
FiresAt now (some m) after =
    ((m.fired ≡ false) × (m.fire_at ≤ now) × (after ≡ some (record m { fired = true })))
    ⊎ (((m.fired ≡ true) ⊎ (now < m.fire_at)) × (after ≡ some m))

abbrev pub fire_row : IsoDateTime → Milestone → Milestone
fire_row now m = if is_due now m then set_fired m else m

module _ (table : Table Milestone (λ m. m.id)) (now : IsoDateTime) (rows : table.Rows) where
  abbrev due : List Milestone
  due = table.find_many (is_due now) rows

  -- The ids that are updated are those of the stored milestones that are due.
  listed_lem :
      (k : String) (m : Milestone)
      → table.find_unique k rows ≡ some m
      → listed_in due m ≡ is_due now m
  listed_lem k m found = elim (Bool-cases (is_due now m)) [
    | inl passes ↦
        Some→includes m.id
          (Some-ids m (table.find_unique-find_many (is_due now) rows k m found passes))
        ∙ sym passes
    | inr fails ↦ elim (Bool-cases (listed_in due m)) [
      | inr other ↦ other ∙ sym fails
      | inl listed ↦
          let hit : Some
              (λ y. (y.id ≡ m.id) × (is_due now y ≡ true) × (table.find_unique y.id rows ≡ some y))
              due =
            All-Some due (λ y facts same. (same, facts.0, facts.1))
              (table.find_many-find_unique (is_due now) rows)
              (ids-Some m.id due (includes→Some m.id (map (λ y. y.id) due) listed)) in
          let (x, (same_id, x_due, x_found), at_x) = Some-element hit in
          let own = table.find_unique_id k rows m found in
          let same : some x ≡ some m =
            sym x_found ∙ ap (λ i. table.find_unique i rows) (same_id ∙ own) ∙ found in
          absurd (ground (arith, same, x_due, fails))
    ]
  ]

  abbrev fired : table.Rows × ℕ
  fired = fire_milestones table now rows

  update_lem :
      (k : String) (found : Option Milestone)
      → table.find_unique k rows ≡ found
      → on_row (λ m. if listed_in due m then set_fired m else m) found ≡ on_row (fire_row now) found
  update_lem k none e = refl
  update_lem k (some m) e = rw (listed_lem k m e) refl

  no_due_lem :
      (k : String) (found : Option Milestone)
      → due ≡ []
      → table.find_unique k rows ≡ found
      → found ≡ on_row (fire_row now) found
  no_due_lem k none empty e = refl
  no_due_lem k (some m) empty e = elim (Bool-cases (is_due now m)) [
    | inr fails ↦ rw fails refl
    | inl passes ↦
        let hit : Some (λ x. x ≡ m) [] =
          subst (Some (λ x. x ≡ m)) empty
            (table.find_unique-find_many (is_due now) rows k m e passes) in
        elim hit [ ]
  ]

  fired_row :
      (k : String) → table.find_unique k fired.0 ≡ on_row (fire_row now) (table.find_unique k rows)
  unfolding fire_milestones
  fired_row k = elim (Bool-cases (is_empty due)) [
    | inl e ↦ rw e (no_due_lem k (table.find_unique k rows) (empty_lem due e) refl)
    | inr e ↦ rw e (
        table.find_unique-update_many k (listed_in due) set_fired rows (λ x. refl)
        ∙ update_lem k (table.find_unique k rows) refl)
  ]

  fired_count : fired.1 ≡ length due
  unfolding fire_milestones
  fired_count = elim (Bool-cases (is_empty due)) [
    | inl e ↦ rw e (sym (ap length (empty_lem due e)))
    | inr e ↦ rw e refl
  ]

  none_due : table.find_many (is_due now) fired.0 ≡ []
  none_due = find_many-none table (is_due now) fired.0 (λ r found.
      let (old, was, becomes) =
        row_before (fire_row now) (table.find_unique r.id rows) r (sym (fired_row r.id) ∙ found) in
      subst (λ x. is_due now x ≡ false) becomes (ground arith))

  row-FiresAt : (found : Option Milestone) → FiresAt now found (on_row (fire_row now) found)
  row-FiresAt none = refl
  row-FiresAt (some m) = elim (Bool-cases m.fired) [
    | inl fired ↦ inr (inl fired, rw fired refl)
    | inr waiting ↦ elim (Bool-cases (leb m.fire_at now)) [
      | inl come ↦ inl (waiting, ground arith, rw (waiting, come) refl)
      | inr early ↦ inr (inr (ground arith), rw (waiting, early) refl)
    ]
  ]

  -- Every milestone that has not fired and whose time has come is stored as fired, and all others
  -- stay as they are; as many are counted as the client lists of those; to fire again at that time
  -- changes and counts nothing.
  pub fire_milestones_once :
      ((k : String)
        → FiresAt now
            (table.find_unique k rows)
            (table.find_unique k (fire_milestones table now rows).0))
      × ((fire_milestones table now rows).1
          ≡ length (table.find_many (λ m. not m.fired && leb m.fire_at now) rows))
      × (fire_milestones table now (fire_milestones table now rows).0
          ≡ ((fire_milestones table now rows).0, 0))
  unfolding fire_milestones
  fire_milestones_once = (
    λ k.
        subst (FiresAt now (table.find_unique k rows)) (sym (fired_row k))
          (row-FiresAt (table.find_unique k rows)),
    fired_count,
    rw none_due refl,
  )

-- The message `new` is `old` without its texts and its media; all else is as it was, the map of tokens
-- too.
pub record IsBlanked (old new : RawMessage) : Type 0 where
  pub raw_text : new.raw_text ≡ ""
  pub scrubbed_text : new.scrubbed_text ≡ none
  pub media_url : new.media_url ≡ none
  pub media_type : new.media_type ≡ none
  pub token_map : new.token_map ≡ old.token_map
  pub id : new.id ≡ old.id
  pub household_id : new.household_id ≡ old.household_id
  pub source_id : new.source_id ≡ old.source_id
  pub received_at : new.received_at ≡ old.received_at
  pub processed_at : new.processed_at ≡ old.processed_at
  pub purge_after : new.purge_after ≡ old.purge_after
  pub status : new.status ≡ old.status

-- A time that is set and has come, and one that is not set or lies ahead.
abbrev pub HasCome : IsoDateTime → Option IsoDateTime → Type 0
HasCome now none = ⊥
HasCome now (some t) = t ≤ now

abbrev pub IsAhead : IsoDateTime → Option IsoDateTime → Type 0
IsAhead now none = Unit {0}
IsAhead now (some t) = now < t

-- What a sweep at `now` makes of the message under an id, and of the block under one.
abbrev pub Blanks : IsoDateTime → Option RawMessage → Option RawMessage → Type 0
Blanks now none after = after ≡ none
Blanks now (some m) after =
    (HasCome now m.purge_after
      × (m.raw_text ≢ "")
      × ((new : RawMessage) × (after ≡ some new) × IsBlanked m new))
    ⊎ ((IsAhead now m.purge_after ⊎ (m.raw_text ≡ "")) × (after ≡ some m))

abbrev pub Deletes : IsoDateTime → Option AvailabilityBlock → Option AvailabilityBlock → Type 0
Deletes now none after = after ≡ none
Deletes now (some b) after =
    (HasCome now b.purge_raw_after × (after ≡ none))
    ⊎ (IsAhead now b.purge_raw_after × (after ≡ some b))

passed-HasCome :
    (due : Option IsoDateTime) (now : IsoDateTime) → passed due now ≡ true → HasCome now due
passed-HasCome none now e = cc
passed-HasCome (some t) now e = ground arith

passed-IsAhead :
    (due : Option IsoDateTime) (now : IsoDateTime) → passed due now ≡ false → IsAhead now due
passed-IsAhead none now e = tt
passed-IsAhead (some t) now e = ground arith

blank-IsBlanked : (m : RawMessage) → IsBlanked m (blank m)
blank-IsBlanked m = record {
  raw_text = refl;
  scrubbed_text = refl;
  media_url = refl;
  media_type = refl;
  token_map = refl;
  id = refl;
  household_id = refl;
  source_id = refl;
  received_at = refl;
  processed_at = refl;
  purge_after = refl;
  status = refl;
}

row-Blanks :
    (now : IsoDateTime) (found : Option RawMessage)
    → Blanks now found (on_row (λ m. if is_overdue now m then blank m else m) found)
row-Blanks now none = refl
row-Blanks now (some m) = elim (Bool-cases (passed m.purge_after now)) [
  | inr ahead ↦ inr (inl (passed-IsAhead m.purge_after now ahead), rw ahead refl)
  | inl come ↦ elim (Bool-cases (str_eq m.raw_text "")) [
    | inl empty ↦ inr (inr ((eq_iff m.raw_text "").0 empty), rw (come, empty) refl)
    | inr full ↦ inl (
      passed-HasCome m.purge_after now come,
      (λ e. ground (arith, full, (eq_iff m.raw_text "").1 e)),
      (blank m, rw (come, full) refl, blank-IsBlanked m),
    )
  ]
]

row-Deletes :
    (now : IsoDateTime) (found : Option AvailabilityBlock)
    → Deletes now found (keep_row (λ b. not (is_expired now b)) found)
row-Deletes now none = refl
row-Deletes now (some b) = elim (Bool-cases (passed b.purge_raw_after now)) [
  | inl come ↦ inl (passed-HasCome b.purge_raw_after now come, rw come refl)
  | inr ahead ↦ inr (passed-IsAhead b.purge_raw_after now ahead, rw ahead refl)
]

module _ (messages : Table RawMessage (λ m. m.id)) (blocks : Table AvailabilityBlock (λ b. b.id))
    (now : IsoDateTime) (rows : messages.Rows × blocks.Rows) where
  purged_row : (m : RawMessage) → is_overdue now (if is_overdue now m then blank m else m) ≡ false
  purged_row m = elim (Bool-cases (is_overdue now m)) [
    | inl e ↦ rw e (and_false (passed m.purge_after now))
    | inr e ↦ rw e e
  ]
    where
      and_false : (b : Bool) → (b && false) ≡ false
      and_false true = refl
      and_false false = refl

  abbrev swept : (messages.Rows × blocks.Rows) × Purged
  swept = purge_sweep messages blocks now rows

  no_message_overdue : messages.find_many (is_overdue now) swept.0.0 ≡ []
  unfolding purge_sweep
  no_message_overdue = find_many-none messages (is_overdue now) swept.0.0 (λ r found.
      let (old, was, becomes) =
        row_before (λ m. if is_overdue now m then blank m else m) (messages.find_unique r.id rows.0)
          r
          (sym (messages.find_unique-update_many r.id (is_overdue now) blank rows.0 (λ x. refl))
            ∙ found) in
      subst (λ x. is_overdue now x ≡ false) becomes (purged_row old))

  kept_row :
      (found : Option AvailabilityBlock) (r : AvailabilityBlock)
      → keep_row (λ b. not (is_expired now b)) found ≡ some r
      → is_expired now r ≡ false
  kept_row none r e = cc
  kept_row (some b) r e = elim (Bool-cases (is_expired now b)) [
    | inl expired ↦ let gone : none ≡ some r = rw expired at e in cc
    | inr stays ↦
        let same : some b ≡ some r = rw stays at e in
        let equal : b ≡ r = ground arith in subst (λ x. is_expired now x ≡ false) equal stays
  ]

  no_block_expired : blocks.find_many (is_expired now) swept.0.1 ≡ []
  unfolding purge_sweep
  no_block_expired = find_many-none blocks (is_expired now) swept.0.1 (λ r found.
      kept_row (blocks.find_unique r.id rows.1) r
        (sym (blocks.find_unique-delete_many r.id (is_expired now) rows.1) ∙ found))

  -- A message whose purge time has come and whose raw text is not empty loses its texts and its
  -- media, and keeps all else, the map of tokens too; a block whose purge time has come is deleted;
  -- all other rows stay as they are, and a sweep at the same time counts nothing more.
  pub purge_sweep-IsClean :
      ((k : String)
        → Blanks now
            (messages.find_unique k rows.0)
            (messages.find_unique k (purge_sweep messages blocks now rows).0.0))
      × ((k : String)
          → Deletes now
              (blocks.find_unique k rows.1)
              (blocks.find_unique k (purge_sweep messages blocks now rows).0.1))
      × ((purge_sweep messages blocks now (purge_sweep messages blocks now rows).0).1
          ≡ record { messages = 0; blocks = 0 })
  unfolding purge_sweep
  purge_sweep-IsClean = (
    λ k.
        subst (Blanks now (messages.find_unique k rows.0))
          (sym (messages.find_unique-update_many k (is_overdue now) blank rows.0 (λ x. refl)))
          (row-Blanks now (messages.find_unique k rows.0)),
    λ k.
        subst (Deletes now (blocks.find_unique k rows.1))
          (sym (blocks.find_unique-delete_many k (is_expired now) rows.1))
          (row-Deletes now (blocks.find_unique k rows.1)),
    rw (no_message_overdue, no_block_expired) refl,
  )
