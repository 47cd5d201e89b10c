-- ===== src/Api/Members/Tests.antt =====
-- Runs of members.service.ts on a small table, and its theorems at concrete inputs.
use nestai.Prelude.{◌≡◌, refl, true, false, List, [], ◌∷◌, String, Option, none, some}
use nestai.Prelude.Results.{throw, not_found}
use nestai.Contracts.Enums.{Role}
use nestai.Contracts.Entities.{IsoDateTime, Member}
use nestai.Core.Routing.Age.{compute_age}
use nestai.Core.Samples.{noon, mum}
use nestai.Api.Table.{Table}
use nestai.Api.Table.Rows.{list_table}
use nestai.Api.Members.{
  CreateMemberInput, UpdateMemberBody, get, serve, patch, new_member, changed_member,
}
use nestai.Api.Members.Isolation.{view_of, serve-view_of}
use nestai.Api.Members.Lookup.{IsCreated, IsPatched, Returns, created, updated, removed, get-writes}

abbrev members : Table Member (λ m. m.id)
members = list_table (λ m. m.id)

abbrev no_dates : String → Option IsoDateTime
no_dates text = none

abbrev grandma : CreateMemberInput
grandma = record {
  display_name = "Grandma";
  role = Role.head;
  birth_date = none;
  skills = none;
  driving_privileges = some true;
  home_location = none;
  office_location = none;
  commute_minutes = none;
  availability_state = none;
  contact_email = none;
  contact_phone = none;
  messaging_handle = none;
  active = none;
}

abbrev retired : UpdateMemberBody
retired = record {
  household_id = none;
  input = record {
    display_name = none;
    role = none;
    birth_date = none;
    skills = none;
    driving_privileges = some false;
    home_location = none;
    office_location = none;
    commute_minutes = none;
    availability_state = none;
    contact_email = none;
    contact_phone = none;
    messaging_handle = none;
    active = some false;
  };
}

abbrev rows : List Member
rows = new_member "m-9" grandma "h-2" ∷ mum ∷ []

serve-view_of_example :
    view_of no_dates members noon "h-2" "m-9"
      (serve no_dates members (some "h-1") noon (patch "m-9" retired) rows).0
    ≡ view_of no_dates members noon "h-2" "m-9" rows
serve-view_of_example =
    serve-view_of no_dates members noon "h-1" "h-2" (patch "m-9" retired) "m-9" rows refl refl

-- A body that names a household moves the member there.
abbrev moving : UpdateMemberBody
moving = record retired { household_id = some "h-2" }

moves :
    view_of no_dates members noon "h-2" "mum"
      (serve no_dates members (some "h-1") noon (patch "mum" moving) rows).0
    ≡ some (changed_member moving mum)
unfolding compute_age
moves = refl

get-writes_example :
    (m : Member) × (n : Member) × IsCreated "h-1" "m-8" grandma m
    × Returns no_dates members "h-1" noon "m-8"
        (created no_dates members "h-1" noon "m-8" grandma retired rows).0
        (created no_dates members "h-1" noon "m-8" grandma retired rows).1
        m
    × IsPatched retired.input m n
    × Returns no_dates members "h-1" noon "m-8"
        (updated no_dates members "h-1" noon "m-8" grandma retired rows).0
        (updated no_dates members "h-1" noon "m-8" grandma retired rows).1
        n
    × ((get no_dates members
          (some "h-1")
          noon
          "m-8"
          (removed no_dates members "h-1" noon "m-8" grandma retired rows).0).1
        ≡ throw not_found)
get-writes_example =
    get-writes no_dates members "h-1" noon "m-8" grandma retired rows refl refl refl
