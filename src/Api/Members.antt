-- ===== src/Api/Members.antt =====
-- services/api/src/modules/members: the inputs and operations of members.service.ts, and the calls of
-- members.controller.ts. A body has the fields of its declared type, and that of PATCH, which nothing
-- validates, may name a household as well. `parse` is the host's reading of a date text; the time and
-- the id that the database draws are arguments.
pub mod Isolation
pub mod Lookup
mod Tests
use nestai.Prelude.{ℕ, Bool, true, false, String, List, [], map, Option, none, some, str_eq}
use nestai.Prelude.Results
use nestai.Prelude.Results.{Result, ok, throw, each}
use nestai.Contracts.Enums.{Role, AvailabilityState}
use nestai.Contracts.Entities.{IsoDateTime, Location, Member}
use nestai.Core.Time.{date}
use nestai.Core.Routing.Age.{compute_age}
use nestai.Api.Action.{Action, checked, answered}
use nestai.Api.Database.{TenantContext, household_id}
use nestai.Api.Owned.{get_row, create_own, update_own, delete_own}
use nestai.Api.Table.{Table}

pub record CreateMemberInput : Type 0 where
  pub display_name : String
  pub role : Role
  pub birth_date : Option String
  pub skills : Option (List String)
  pub driving_privileges : Option Bool
  pub home_location : Option Location
  pub office_location : Option Location
  pub commute_minutes : Option ℕ
  pub availability_state : Option AvailabilityState
  pub contact_email : Option String
  pub contact_phone : Option String
  pub messaging_handle : Option String
  pub active : Option Bool

-- `Partial<CreateMemberInput>`.
pub record UpdateMemberInput : Type 0 where
  pub display_name : Option String
  pub role : Option Role
  pub birth_date : Option String
  pub skills : Option (List String)
  pub driving_privileges : Option Bool
  pub home_location : Option Location
  pub office_location : Option Location
  pub commute_minutes : Option ℕ
  pub availability_state : Option AvailabilityState
  pub contact_email : Option String
  pub contact_phone : Option String
  pub messaging_handle : Option String
  pub active : Option Bool

-- The body of PATCH as it is handed to the database's client: what it declares, and a `householdId`.
pub record UpdateMemberBody : Type 0 where
  pub input : UpdateMemberInput
  pub household_id : Option String

-- A field that is left out has the default of the schema, and one that an update leaves out stays.
abbrev pub given {ℓ} : {A : Type ℓ} → A → Option A → A
given default none = default
given default (some value) = value

abbrev pub given_or_kept {ℓ} : {A : Type ℓ} → Option A → Option A → Option A
given_or_kept kept none = kept
given_or_kept kept (some value) = some value

abbrev pub new_member : String → CreateMemberInput → String → Member
new_member id input household = record {
  id = id;
  household_id = household;
  display_name = input.display_name;
  role = input.role;
  birth_date = input.birth_date;
  skills = given [] input.skills;
  driving_privileges = given false input.driving_privileges;
  home_location = input.home_location;
  office_location = input.office_location;
  commute_minutes = input.commute_minutes;
  availability_state = given AvailabilityState.available input.availability_state;
  contact_email = input.contact_email;
  contact_phone = input.contact_phone;
  messaging_handle = input.messaging_handle;
  active = given true input.active;
}

abbrev pub changed_fields : UpdateMemberInput → Member → Member
changed_fields input row = record row {
  display_name = given row.display_name input.display_name;
  role = given row.role input.role;
  birth_date = given_or_kept row.birth_date input.birth_date;
  skills = given row.skills input.skills;
  driving_privileges = given row.driving_privileges input.driving_privileges;
  home_location = given_or_kept row.home_location input.home_location;
  office_location = given_or_kept row.office_location input.office_location;
  commute_minutes = given_or_kept row.commute_minutes input.commute_minutes;
  availability_state = given row.availability_state input.availability_state;
  contact_email = given_or_kept row.contact_email input.contact_email;
  contact_phone = given_or_kept row.contact_phone input.contact_phone;
  messaging_handle = given_or_kept row.messaging_handle input.messaging_handle;
  active = given row.active input.active;
}

abbrev pub changed_member : UpdateMemberBody → Member → Member
changed_member body row = record (changed_fields body.input row) {
  household_id = given row.household_id body.household_id;
}

pub record MemberWithAge : Type 0 where
  pub member : Member
  pub age : Option ℕ

abbrev pub with_age : (String → Option IsoDateTime) → IsoDateTime → Member → Result MemberWithAge
with_age parse now row =
    Results.and_then (compute_age parse row.birth_date (date now))
      (λ age. ok (record { member = row; age = age }))

abbrev pub belongs_to : String → Member → Bool
belongs_to household row = str_eq row.household_id household

-- The calls of members.controller.ts; `post` comes with the id that is drawn.
pub data Call : Type 0 where
  get_all : Call
  get_one : String → Call
  post : String → CreateMemberInput → Call
  patch : String → UpdateMemberBody → Call
  delete : String → Call

-- What a call returns: members, or the id that is deleted.
pub data Answer : Type 0 where
  members : List MemberWithAge → Answer
  member : MemberWithAge → Answer
  deleted : String → Answer

module _ (parse : String → Option IsoDateTime) (table : Table Member (λ m. m.id))
    (tenant : TenantContext) (now : IsoDateTime) where
  abbrev pub find_own : Action table.Rows (List Member)
  find_own rows = elim (household_id tenant) [
    | throw fault ↦ (rows, throw fault)
    | ok household ↦ (rows, ok (table.find_many (belongs_to household) rows))
  ]

  abbrev pub list : Action table.Rows (List MemberWithAge)
  list = checked (each (with_age parse now)) find_own

  abbrev pub get : String → Action table.Rows MemberWithAge
  get id = checked (with_age parse now) (get_row table (λ m. m.household_id) tenant id)

  abbrev pub create : String → CreateMemberInput → Action table.Rows MemberWithAge
  create id input = checked (with_age parse now) (create_own table tenant (new_member id input))

  abbrev pub update : String → UpdateMemberBody → Action table.Rows MemberWithAge
  update id body =
      checked (with_age parse now)
        (update_own table (λ m. m.household_id) tenant id (changed_member body))

  abbrev pub remove : String → Action table.Rows String
  remove id = answered (λ row. id) (delete_own table (λ m. m.household_id) tenant id)

  abbrev pub serve : Call → Action table.Rows Answer
  serve get_all = answered members list
  serve (get_one id) = answered member (get id)
  serve (post id input) = answered member (create id input)
  serve (patch id body) = answered member (update id body)
  serve (delete id) = answered deleted (remove id)
