-- ===== src/Api/Members/Lookup.antt =====
-- members.service.ts: the rows that the writes make, and what `get` returns after each of them.
use nestai.Prelude.{
  ℕ, ◌≡◌, refl, ◌∙◌, inl, inr, true, false, String, [], Option, none, some, arith, str_eq, eq_iff,
  Bool-cases, Option-cases,
}
use nestai.Prelude.Results.{Result, ok, throw, not_found}
use nestai.Contracts.Enums.{AvailabilityState}
use nestai.Contracts.Entities.{IsoDateTime, Member}
use nestai.Core.Routing.Age.{compute_age, birth_iso, age_between}
use nestai.Core.Calendar.{civil}
use nestai.Core.Time.{date}
use nestai.Api.Members.{
  CreateMemberInput, UpdateMemberInput, UpdateMemberBody, MemberWithAge, get, create, update,
  remove, with_age, given, given_or_kept, new_member, changed_member,
}
use nestai.Api.Table.{Table}

-- The value `new` is the one that is sent, or `old` where none is.
abbrev pub Takes : {A : Type 0} → Option A → A → A → Type 0
Takes none old new = new ≡ old
Takes (some sent) old new = new ≡ sent

-- The same, for a field that may be missing.
abbrev pub Sets : {A : Type 0} → Option A → Option A → Option A → Type 0
Sets none old new = new ≡ old
Sets (some sent) old new = new ≡ some sent

given-Takes : {A : Type 0} (sent : Option A) (old : A) → Takes sent old (given old sent)
given-Takes none old = refl
given-Takes (some value) old = refl

given-Sets : {A : Type 0} (sent old : Option A) → Sets sent old (given_or_kept old sent)
given-Sets none old = refl
given-Sets (some value) old = refl

-- A new member of household `h`: what is sent, and the defaults of the schema for the rest.
pub record IsCreated (h key : String) (input : CreateMemberInput) (m : Member) : Type 0 where
  pub id : m.id ≡ key
  pub household_id : m.household_id ≡ h
  pub display_name : m.display_name ≡ input.display_name
  pub role : m.role ≡ input.role
  pub birth_date : m.birth_date ≡ input.birth_date
  pub skills : Takes input.skills [] m.skills
  pub driving_privileges : Takes input.driving_privileges false m.driving_privileges
  pub home_location : m.home_location ≡ input.home_location
  pub office_location : m.office_location ≡ input.office_location
  pub commute_minutes : m.commute_minutes ≡ input.commute_minutes
  pub availability_state :
      Takes input.availability_state AvailabilityState.available m.availability_state
  pub contact_email : m.contact_email ≡ input.contact_email
  pub contact_phone : m.contact_phone ≡ input.contact_phone
  pub messaging_handle : m.messaging_handle ≡ input.messaging_handle
  pub active : Takes input.active true m.active

-- The member `new` is `old` with the fields that are sent.
pub record IsPatched (input : UpdateMemberInput) (old new : Member) : Type 0 where
  pub id : new.id ≡ old.id
  pub household_id : new.household_id ≡ old.household_id
  pub display_name : Takes input.display_name old.display_name new.display_name
  pub role : Takes input.role old.role new.role
  pub birth_date : Sets input.birth_date old.birth_date new.birth_date
  pub skills : Takes input.skills old.skills new.skills
  pub driving_privileges :
      Takes input.driving_privileges old.driving_privileges new.driving_privileges
  pub home_location : Sets input.home_location old.home_location new.home_location
  pub office_location : Sets input.office_location old.office_location new.office_location
  pub commute_minutes : Sets input.commute_minutes old.commute_minutes new.commute_minutes
  pub availability_state :
      Takes input.availability_state old.availability_state new.availability_state
  pub contact_email : Sets input.contact_email old.contact_email new.contact_email
  pub contact_phone : Sets input.contact_phone old.contact_phone new.contact_phone
  pub messaging_handle : Sets input.messaging_handle old.messaging_handle new.messaging_handle
  pub active : Takes input.active old.active new.active

new_member-IsCreated :
    (h id : String) (input : CreateMemberInput) → IsCreated h id input (new_member id input h)
new_member-IsCreated h id input = record {
  id = refl;
  household_id = refl;
  display_name = refl;
  role = refl;
  birth_date = refl;
  skills = given-Takes input.skills [];
  driving_privileges = given-Takes input.driving_privileges false;
  home_location = refl;
  office_location = refl;
  commute_minutes = refl;
  availability_state = given-Takes input.availability_state AvailabilityState.available;
  contact_email = refl;
  contact_phone = refl;
  messaging_handle = refl;
  active = given-Takes input.active true;
}

changed_member-IsPatched :
    (body : UpdateMemberBody) (old : Member)
    → body.household_id ≡ none
    → IsPatched body.input old (changed_member body old)
changed_member-IsPatched body old plain = record {
  id = refl;
  household_id = rw plain refl;
  display_name = given-Takes body.input.display_name old.display_name;
  role = given-Takes body.input.role old.role;
  birth_date = given-Sets body.input.birth_date old.birth_date;
  skills = given-Takes body.input.skills old.skills;
  driving_privileges = given-Takes body.input.driving_privileges old.driving_privileges;
  home_location = given-Sets body.input.home_location old.home_location;
  office_location = given-Sets body.input.office_location old.office_location;
  commute_minutes = given-Sets body.input.commute_minutes old.commute_minutes;
  availability_state = given-Takes body.input.availability_state old.availability_state;
  contact_email = given-Sets body.input.contact_email old.contact_email;
  contact_phone = given-Sets body.input.contact_phone old.contact_phone;
  messaging_handle = given-Sets body.input.messaging_handle old.messaging_handle;
  active = given-Takes body.input.active old.active;
}

-- At a valid time an age is never a fault.
compute_age_returns :
    (parse : String → Option IsoDateTime) (birth_date : Option String) (now : IsoDateTime)
    → (age : Option ℕ) × (compute_age parse birth_date (date now) ≡ ok age)
unfolding compute_age
compute_age_returns parse none now = (none, refl)
compute_age_returns parse (some text) now = elim (Bool-cases (str_eq text "")) [
  | inl empty ↦ (none, rw empty refl)
  | inr set ↦ elim (Option-cases (parse (birth_iso text))) [
    | inl unread ↦ (none, rw (set, unread) refl)
    | inr (t, read) ↦ (some (age_between (civil t) (civil now)), rw (set, read) refl)
  ]
]

module _ (parse : String → Option IsoDateTime) (table : Table Member (λ m. m.id)) (h : String)
    (now : IsoDateTime) (id : String) where
  -- `get` of the id returns the member with its age.
  pub record Returns (after : table.Rows) (answer : Result MemberWithAge) (m : Member)
      : Type 0 where
    pub age : Option ℕ
    pub aged : compute_age parse m.birth_date (date now) ≡ ok age
    pub answered : answer ≡ ok (record { member = m; age = age })
    pub got : (get parse table (some h) now id after).1 ≡ ok (record { member = m; age = age })

  got-stored :
      (after : table.Rows) (m : Member)
      → str_eq h "" ≡ false
      → m.household_id ≡ h
      → table.find_unique id after ≡ some m
      → (get parse table (some h) now id after).1 ≡ with_age parse now m
  got-stored after m set own found = ground (arith, set, found, (eq_iff m.household_id h).1 own)

  aged-lem :
      (m : Member) (age : Option ℕ)
      → compute_age parse m.birth_date (date now) ≡ ok age
      → with_age parse now m ≡ ok (record { member = m; age = age })
  aged-lem m age e = rw e refl

  create-answer :
      (input : CreateMemberInput) (rows : table.Rows)
      → str_eq h "" ≡ false
      → table.find_unique id rows ≡ none
      → ((create parse table (some h) now id input rows).1
          ≡ with_age parse now (new_member id input h))
        × (table.find_unique id (create parse table (some h) now id input rows).0
            ≡ some (new_member id input h))
  create-answer input rows set fresh =
      let made = table.find_unique-create id (new_member id input h) rows fresh in
      (ground (arith, set, fresh), ground (arith, set, fresh, made, eq_iff id id))

  update-answer :
      (body : UpdateMemberBody) (rows : table.Rows) (m : Member)
      → str_eq h "" ≡ false
      → m.household_id ≡ h
      → table.find_unique id rows ≡ some m
      → ((update parse table (some h) now id body rows).1
          ≡ with_age parse now (changed_member body m))
        × (table.find_unique id (update parse table (some h) now id body rows).0
            ≡ some (changed_member body m))
  update-answer body rows m set own found =
      let is_own = (eq_iff m.household_id h).1 own in
      let changed = table.find_unique-update id id (changed_member body) rows m (λ x. refl) found in
      (
        ground (arith, set, found, is_own),
        ground (arith, set, found, is_own, changed, eq_iff id id),
      )

  stored-Returns :
      (after : table.Rows) (answer : Result MemberWithAge) (m : Member)
      → str_eq h "" ≡ false
      → m.household_id ≡ h
      → answer ≡ with_age parse now m
      → table.find_unique id after ≡ some m
      → Returns after answer m
  stored-Returns after answer m set own returned found =
      let (age, aged) = compute_age_returns parse m.birth_date now in
      record {
        age = age;
        aged = aged;
        answered = returned ∙ aged-lem m age aged;
        got = got-stored after m set own found ∙ aged-lem m age aged;
      }

  removed-lem :
      (rows : table.Rows)
      → str_eq h "" ≡ false
      → (get parse table (some h) now id (remove parse table (some h) now id rows).0).1
        ≡ throw not_found
  removed-lem rows set = elim (Option-cases (table.find_unique id rows)) [
    | inl missing ↦ ground (arith, missing)
    | inr (row, found) ↦ ground (
      arith,
      set,
      found,
      table.find_unique_id id rows row found,
      table.find_unique-delete_many id (λ r. str_eq r.id id) rows,
      eq_iff id id,
    )
  ]

module _ (parse : String → Option IsoDateTime) (table : Table Member (λ m. m.id)) (h : String)
    (now : IsoDateTime) (id : String) (input : CreateMemberInput) (body : UpdateMemberBody)
    (rows : table.Rows) where
  -- What each of three calls in a row leaves and returns.
  abbrev pub created : table.Rows × Result MemberWithAge
  created = create parse table (some h) now id input rows

  abbrev pub updated : table.Rows × Result MemberWithAge
  updated = update parse table (some h) now id body created.0

  abbrev pub removed : table.Rows × Result String
  removed = remove parse table (some h) now id updated.0

  -- In a household whose id is not empty, under a fresh id, and where the body of the update sends no
  -- `householdId`: `create` returns, and `get` returns after it, the member of the household with the
  -- fields that were sent, the defaults of the schema for those that were not, and its age; after an
  -- update both return that member with the fields that were sent and no others changed, and the age;
  -- and after `remove` the id is a 404.
  pub get-writes :
      str_eq h "" ≡ false
      → table.find_unique id rows ≡ none
      → body.household_id ≡ none
      → (m : Member) × (n : Member) × IsCreated h id input m
        × Returns parse table h now id created.0 created.1 m
        × IsPatched body.input m n
        × Returns parse table h now id updated.0 updated.1 n
        × ((get parse table (some h) now id removed.0).1 ≡ throw not_found)
  get-writes set fresh plain =
      let m : Member = new_member id input h in
      let n : Member = changed_member body m in
      let (answer, stored) = create-answer parse table h now id input rows set fresh in
      let (answer', stored') =
        update-answer parse table h now id body created.0 m set refl stored in
      (
        m,
        n,
        new_member-IsCreated h id input,
        stored-Returns parse table h now id created.0 created.1 m set refl answer stored,
        changed_member-IsPatched body m plain,
        stored-Returns parse table h now id updated.0 updated.1 n set (rw plain refl) answer'
            stored',
        removed-lem parse table h now id updated.0 set,
      )
