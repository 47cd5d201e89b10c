-- ===== src/Api/Events/Tests.antt =====
-- Runs of events.service.ts.
use nestai.Prelude.{◌≡◌, refl, [], none, some, String, Option, str_eq, if◌then◌else◌}
use nestai.Prelude.Results.{ok, throw, invalid_argument}
use nestai.Contracts.Entities.{Event, IsoDateTime}
use nestai.Core.Samples.{noon}
use nestai.Api.Table.{Table}
use nestai.Api.Table.Rows.{list_table}
use nestai.Api.Events.{CreateEventInput, create, event_row}

abbrev events : Table Event (λ e. e.id)
events = list_table (λ e. e.id)

abbrev reads_noon : String → Option IsoDateTime
reads_noon text = if str_eq text "noon" then some noon else none

abbrev concert : CreateEventInput
concert = record {
  title = "concert";
  starts_at = "noon";
  ends_at = some "";
  location = none;
  all_day = none;
  owner_member_id = none;
  color_tag = none;
}

-- An empty end is no end; a start that is no date is refused.
empty_end :
    (create reads_noon events (some "h-1") "e-1" concert []).1
    ≡ ok (event_row "e-1" concert "h-1" noon none)
empty_end = refl

no_start :
    create reads_noon events (some "h-1") "e-1" (record concert { starts_at = "soon" }) []
    ≡ ([], throw invalid_argument)
no_start = refl
