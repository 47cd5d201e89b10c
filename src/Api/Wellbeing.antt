-- ===== src/Api/Wellbeing.antt =====
-- services/api/src/modules/wellbeing/wellbeing.service.ts. `parse` is the host's reading of a date
-- text, and `draw` the id that the database draws for a new window. The tables that are only read are
-- arguments.
mod Tests
use nestai.Prelude.{
  ℕ, ◌≡◌, refl, ◌∙◌, ap, false, not, Bool, true, ◌&&◌, String, List, [], ◌∷◌, map, filter, Option,
  none, some, All, str_eq, if◌then◌else◌,
}
use nestai.Prelude.Results
use nestai.Prelude.Results.{Result, ok, throw, invalid_date}
use nestai.Contracts.Enums.{AvailabilityState, WellnessKind, WellnessPeriod, is_available}
use nestai.Contracts.Entities.{
  IsoDateTime, Member, Task, AvailabilityBlock, WellnessGoal, WellnessWindow, BalanceBattery,
}
use nestai.Core.Locale.{Locale}
use nestai.Core.Wellbeing.Equity.{compute_balance_battery}
use nestai.Core.Wellbeing.Windows.{
  BusyBlock, FindMicroWindowsInput, WellnessWindowDraft, find_micro_windows,
}
use nestai.Api.Action.{Action, ◌>>=◌, return, lift, answered, >>=-ok, answered-ok}
use nestai.Api.Availability.{is_active}
use nestai.Api.Database.{TenantContext, household_id}
use nestai.Api.Owned.{create_own, insert_row, insert_row-fresh, owned_row}
use nestai.Api.Table.{Table}

pub record WellnessGoalInput : Type 0 where
  pub member_id : String
  pub kind : WellnessKind
  pub target_count : ℕ
  pub duration_min : ℕ
  pub period : WellnessPeriod

abbrev pub new_goal : String → WellnessGoalInput → String → WellnessGoal
new_goal id input household = record {
  id = id;
  household_id = household;
  member_id = input.member_id;
  kind = input.kind;
  target_count = input.target_count;
  duration_min = input.duration_min;
  period = input.period;
}

-- `where({ memberId })`, and `where(memberId ? { memberId } : {})`.
abbrev pub goal_of : String → String → WellnessGoal → Bool
goal_of household member row = str_eq row.member_id member && str_eq row.household_id household

abbrev pub is_listed : String → Option String → WellnessGoal → Bool
is_listed household none row = str_eq row.household_id household
is_listed household (some member) row =
    (if str_eq member "" then true else str_eq row.member_id member)
    && str_eq row.household_id household

abbrev pub block_of : String → String → AvailabilityBlock → Bool
block_of household member row = str_eq row.member_id member && str_eq row.household_id household

abbrev pub window_of : String → String → WellnessWindow → Bool
window_of household member row = str_eq row.member_id member && str_eq row.household_id household

module _ (table : Table WellnessGoal (λ g. g.id)) (tenant : TenantContext) where
  abbrev pub list_goals : Option String → Action table.Rows (List WellnessGoal)
  list_goals member rows = elim (household_id tenant) [
    | throw fault ↦ (rows, throw fault)
    | ok household ↦ (rows, ok (table.find_many (is_listed household member) rows))
  ]

  abbrev pub set_goal : String → WellnessGoalInput → Action table.Rows WellnessGoal
  set_goal id input = create_own table tenant (new_goal id input)

abbrev pub kind_text : AvailabilityState → String
kind_text AvailabilityState.available = "AVAILABLE"
kind_text AvailabilityState.busy = "BUSY"
kind_text AvailabilityState.travel = "TRAVEL"

abbrev pub busy_block : AvailabilityBlock → BusyBlock
busy_block b = record {
  starts_at = b.starts_at;
  ends_at = b.ends_at;
  label = some (kind_text b.kind);
}

-- The engine's input, which has no edge buffer, and its windows.
abbrev pub engine_input :
    Member
    → List WellnessGoal
    → List AvailabilityBlock
    → IsoDateTime
    → IsoDateTime
    → FindMicroWindowsInput
engine_input member goals blocks from to = record {
  member = member;
  goals = goals;
  busy = map busy_block (filter (λ b. not (is_available b.kind)) blocks);
  range_start = from;
  range_end = to;
  edge_buffer_minutes = 0;
}

abbrev pub read_date : Option IsoDateTime → Result IsoDateTime
read_date none = throw invalid_date
read_date (some t) = ok t

abbrev pub window_row : WellnessWindowDraft → String → String → WellnessWindow
window_row draft household id = record {
  id = id;
  household_id = household;
  member_id = draft.member_id;
  goal_id = draft.goal_id;
  starts_at = draft.starts_at;
  ends_at = draft.ends_at;
  status = draft.status;
}

module _ (table : Table WellnessWindow (λ w. w.id)) (draw : table.Rows → String)
    (tenant : TenantContext) where
  abbrev pub store_window : WellnessWindowDraft → Action table.Rows WellnessWindow
  store_window draft rows = elim (household_id tenant) [
    | throw fault ↦ (rows, throw fault)
    | ok household ↦ insert_row table (window_row draft household (draw rows)) rows
  ]

  unfoldable pub store_windows : List WellnessWindowDraft → Action table.Rows (List WellnessWindow)
  store_windows [] = return []
  store_windows (draft ∷ drafts) = do
    row ← store_window draft
    answered (λ rest. row ∷ rest) (store_windows drafts)

module _ (member : Table Member (λ m. m.id)) (goal : Table WellnessGoal (λ g. g.id))
    (block : Table AvailabilityBlock (λ b. b.id)) (window : Table WellnessWindow (λ w. w.id))
    (parse : String → Option IsoDateTime) (draw : window.Rows → String)
    (tenant : TenantContext) where
  unfoldable pub suggest_windows :
      member.Rows
      → goal.Rows
      → block.Rows
      → (member_id from to : String) → Action window.Rows (List WellnessWindow)
  suggest_windows members goals blocks member_id from to = do
    owned ← lift (owned_row member (λ m. m.household_id) tenant member_id members)
    household ← lift (household_id tenant)
    range_start ← lift (read_date (parse from))
    range_end ← lift (read_date (parse to))
    store_windows window draw tenant (
        find_micro_windows (
          engine_input owned (goal.find_many (goal_of household member_id) goals)
            (block.find_many (block_of household member_id) blocks) range_start range_end))

module _ (member : Table Member (λ m. m.id)) (goal : Table WellnessGoal (λ g. g.id))
    (window : Table WellnessWindow (λ w. w.id)) (task : Table Task (λ t. t.id)) (locale : Locale)
    (tenant : TenantContext) where
  -- It only reads: the store is four arguments.
  abbrev pub balance_battery :
      member.Rows → goal.Rows → window.Rows → task.Rows → String → Result BalanceBattery
  balance_battery members goals windows tasks member_id =
      Results.and_then (owned_row member (λ m. m.household_id) tenant member_id members) (λ owned.
        Results.and_then (household_id tenant) (λ household. ok (
          compute_balance_battery locale (record {
            member = owned;
            goals = goal.find_many (goal_of household member_id) goals;
            windows = window.find_many (window_of household member_id) windows;
            tasks = some (task.find_many (λ t. str_eq t.household_id household) tasks);
            members = some (member.find_many (is_active household) members);
          }))))

-- What a window and a draft have in common.
abbrev pub span_of : String → IsoDateTime → IsoDateTime → String × IsoDateTime × IsoDateTime
span_of member from to = (member, from, to)

module _ (window : Table WellnessWindow (λ w. w.id)) (draw : window.Rows → String) (h : String)
    (set : str_eq h "" ≡ false)
    (fresh : (rows : window.Rows) → window.find_unique (draw rows) rows ≡ none) where
  -- In a household whose id is not empty, and with fresh ids, every draft is stored as a window of
  -- the household, with its member and its times, and the windows are returned in order.
  pub store_windows-map :
      (drafts : List WellnessWindowDraft) (rows : window.Rows)
      → (stored : List WellnessWindow) × ((store_windows window draw (some h) drafts rows).1
          ≡ ok stored)
        × (map (λ w. span_of w.member_id w.starts_at w.ends_at) stored
            ≡ map (λ d. span_of d.member_id d.starts_at d.ends_at) drafts)
        × All (λ w. w.household_id ≡ h) stored
  unfolding store_windows
  store_windows-map [] rows = ([], refl, refl, tt)
  store_windows-map (draft ∷ drafts) rows =
      let row : WellnessWindow = window_row draft h (draw rows) in
      let u : window.Rows = window.create row rows in
      let first : store_window window draw (some h) draft rows ≡ (u, ok row) =
        rw (set, store_window) (insert_row-fresh window row rows (fresh rows)) in
      let (stored, returned, spans, owned) = store_windows-map drafts u in
      (
        row ∷ stored,
        ap (λ x. x.1)
              (>>=-ok (store_window window draw (some h) draft)
                (λ r. answered (λ rest. r ∷ rest) (store_windows window draw (some h) drafts)) rows
                first)
            ∙ answered-ok (λ rest. row ∷ rest) (store_windows window draw (some h) drafts) u
                returned,
        ap (λ xs. span_of draft.member_id draft.starts_at draft.ends_at ∷ xs) spans,
        (refl, owned),
      )
