-- ===== src/Api/Events.antt =====
-- services/api/src/modules/events: events.service.ts and the calls of events.controller.ts. `parse` is
-- the host's reading of a date text; the id that the database draws is an argument. The client
-- refuses the invalid date.
pub mod Isolation
mod Tests
use nestai.Prelude.{Bool, false, String, List, Option, none, some, str_eq, if◌then◌else◌}
use nestai.Prelude.Results
use nestai.Prelude.Results.{Result, ok, throw, invalid_argument}
use nestai.Contracts.Entities.{IsoDateTime, Location, Event}
use nestai.Api.Action.{Action, ◌>>=◌, lift, answered}
use nestai.Api.Database.{TenantContext, household_id}
use nestai.Api.Owned.{get_row, insert_row, delete_own}
use nestai.Api.Table.{Table}

pub record CreateEventInput : Type 0 where
  pub title : String
  pub starts_at : String
  pub ends_at : Option String
  pub location : Option Location
  pub all_day : Option Bool
  pub owner_member_id : Option String
  pub color_tag : Option String

-- What the client makes of `new Date(text)`.
abbrev pub written_date : Option IsoDateTime → Result IsoDateTime
written_date none = throw invalid_argument
written_date (some t) = ok t

-- `input.endsAt ? new Date(input.endsAt) : undefined`.
abbrev pub written_end : (String → Option IsoDateTime) → Option String → Result (Option IsoDateTime)
written_end parse none = ok none
written_end parse (some text) =
    if str_eq text ""
    then ok none
    else Results.and_then (written_date (parse text)) (λ t. ok (some t))

abbrev pub all_day_or_false : Option Bool → Bool
all_day_or_false none = false
all_day_or_false (some all_day) = all_day

abbrev pub event_row : String → CreateEventInput → String → IsoDateTime → Option IsoDateTime → Event
event_row id input household starts_at ends_at = record {
  id = id;
  household_id = household;
  title = input.title;
  starts_at = starts_at;
  ends_at = ends_at;
  location = input.location;
  all_day = all_day_or_false input.all_day;
  source_id = none;
  owner_member_id = input.owner_member_id;
  color_tag = input.color_tag;
  external_id = none;
}

-- The row of the input, which is not written when one of its dates is invalid.
abbrev pub new_event :
    (String → Option IsoDateTime) → String → CreateEventInput → String → Result Event
new_event parse id input household =
    Results.and_then (written_date (parse input.starts_at)) (λ starts_at.
      Results.and_then (written_end parse input.ends_at)
        (λ ends_at. ok (event_row id input household starts_at ends_at)))

abbrev pub belongs_to : String → Event → Bool
belongs_to household row = str_eq row.household_id household

pub data Call : Type 0 where
  get_all : Call
  get_one : String → Call
  post : String → CreateEventInput → Call
  delete : String → Call

pub data Answer : Type 0 where
  events : List Event → Answer
  event : Event → Answer
  deleted : String → Answer

module _ (parse : String → Option IsoDateTime) (table : Table Event (λ e. e.id))
    (tenant : TenantContext) where
  abbrev pub list : Action table.Rows (List Event)
  list rows = elim (household_id tenant) [
    | throw fault ↦ (rows, throw fault)
    | ok household ↦ (rows, ok (table.find_many (belongs_to household) rows))
  ]

  abbrev pub get : String → Action table.Rows Event
  get id = get_row table (λ e. e.household_id) tenant id

  abbrev pub create : String → CreateEventInput → Action table.Rows Event
  create id input = do
    household ← lift (household_id tenant)
    row ← lift (new_event parse id input household)
    insert_row table row

  abbrev pub remove : String → Action table.Rows String
  remove id = answered (λ row. id) (delete_own table (λ e. e.household_id) tenant id)

  abbrev pub serve : Call → Action table.Rows Answer
  serve get_all = answered events list
  serve (get_one id) = answered event (get id)
  serve (post id input) = answered event (create id input)
  serve (delete id) = answered deleted (remove id)
