-- ===== src/Api/Events/Isolation.antt =====
-- events.service.ts: no call of one household changes what another has.
use nestai.Prelude.{
  ◌≡◌, refl, ◌∙◌, ap, inl, inr, false, String, Option, some, arith, str_eq, Bool-cases,
  Option-cases,
}
use nestai.Prelude.Results.{ok, Result-cases}
use nestai.Contracts.Entities.{IsoDateTime, Event}
use nestai.Api.Action.{checked-writes}
use nestai.Api.Owned.{delete_own}
use nestai.Api.Owned.Views.{view, insert_row-view, delete_own-view}
use nestai.Api.Events.{
  CreateEventInput, Call, get_all, get_one, post, delete, list, get, create, remove, serve,
  written_end, new_event,
}
use nestai.Api.Table.{Table}

module _ (parse : String → Option IsoDateTime) (table : Table Event (λ e. e.id)) where
  abbrev pub events_of : String → String → table.Rows → Option Event
  events_of g = view table (λ e. e.household_id) g

  new_event-household_id :
      (id : String) (input : CreateEventInput) (h : String) (row : Event)
      → new_event parse id input h ≡ ok row
      → row.household_id ≡ h
  new_event-household_id id input h row made = elim (Option-cases (parse input.starts_at)) [
    | inl unread ↦ ground (arith, unread, made)
    | inr (t, read) ↦ elim (Result-cases (written_end parse input.ends_at)) [
      | inl (u, ends) ↦ ground (arith, read, ends, made)
      | inr (fault, ends) ↦ ground (arith, read, ends, made)
    ]
  ]

  create-events_of :
      (h g : String) (id : String) (input : CreateEventInput) (k : String) (rows : table.Rows)
      → str_eq h g ≡ false
      → events_of g k (create parse table (some h) id input rows).0 ≡ events_of g k rows
  create-events_of h g id input k rows other = elim (Bool-cases (str_eq h "")) [
    | inl empty ↦ rw (empty, create) refl
    | inr set ↦ elim (Result-cases (new_event parse id input h)) [
      | inl (row, made) ↦
          rw (set, made, create)
            (insert_row-view table (λ e. e.household_id) g h other rows row k
              (new_event-household_id id input h row made))
      | inr (fault, refused) ↦ rw (set, refused, create) refl
    ]
  ]

  -- A call of household `h`, whichever it is and whatever it returns or throws, leaves every event of
  -- another household as it was, and adds none to it.
  pub serve-events_of :
      (h g : String) (call : Call) (k : String) (rows : table.Rows)
      → str_eq h g ≡ false
      → events_of g k (serve parse table (some h) call rows).0 ≡ events_of g k rows
  serve-events_of h g get_all k rows other = elim (Bool-cases (str_eq h "")) [
    | inl empty ↦ rw (empty, list) refl
    | inr set ↦ rw (set, list) refl
  ]
  serve-events_of h g (get_one id) k rows other =
      ap (events_of g k) (checked-writes _ (get parse table (some h) id) rows)
  serve-events_of h g (post id input) k rows other =
      ap (events_of g k) (checked-writes _ (create parse table (some h) id input) rows)
      ∙ create-events_of h g id input k rows other
  serve-events_of h g (delete id) k rows other =
      ap (events_of g k) (
        checked-writes _ (remove parse table (some h) id) rows
        ∙ checked-writes _ (delete_own table (λ e. e.household_id) (some h) id) rows)
      ∙ delete_own-view table (λ e. e.household_id) g h other rows id k
