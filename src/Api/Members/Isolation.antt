-- ===== src/Api/Members/Isolation.antt =====
-- members.service.ts: no call of one household changes what another has.
use nestai.Prelude.{
  Bool-cases, inl, inr, ◌≡◌, refl, ◌∙◌, ap, false, String, Option, some, str_eq, none,
}
use nestai.Contracts.Entities.{IsoDateTime, Member}
use nestai.Api.Action.{checked-writes}
use nestai.Api.Owned.{get_row, create_own, update_own, delete_own}
use nestai.Api.Members.{
  list, get, create, update, remove, Call, get_all, get_one, post, patch, delete, serve, new_member,
  changed_member, find_own,
}
use nestai.Api.Owned.Views.{view, create_own-view, update_own-view, delete_own-view}
use nestai.Api.Table.{Table}

-- The body of PATCH, which nothing validates, names no household.
abbrev pub NamesNoHousehold : Call → Type 0
NamesNoHousehold (patch id body) = body.household_id ≡ none
NamesNoHousehold other = Unit {0}

module _ (parse : String → Option IsoDateTime) (table : Table Member (λ m. m.id))
    (now : IsoDateTime) where
  abbrev pub view_of : String → String → table.Rows → Option Member
  view_of g = view table (λ m. m.household_id) g

  find_own-writes :
      (h : String) (rows : table.Rows) → (find_own parse table (some h) now rows).0 ≡ rows
  find_own-writes h rows = elim (Bool-cases (str_eq h "")) [
    | inl e ↦ rw (e, find_own) refl
    | inr e ↦ rw (e, find_own) refl
  ]

  -- A call of household `h` that does not send a `householdId` in the body of PATCH, whatever it is and
  -- whatever it returns or throws, leaves every row of another household as it was, and adds none to
  -- it.
  pub serve-view_of :
      (h g : String) (call : Call) (k : String) (rows : table.Rows)
      → str_eq h g ≡ false
      → NamesNoHousehold call
      → view_of g k (serve parse table (some h) now call rows).0 ≡ view_of g k rows
  serve-view_of h g get_all k rows other plain =
      ap (view_of g k) (
        checked-writes _ (list parse table (some h) now) rows
        ∙ checked-writes _ (find_own parse table (some h) now) rows)
      ∙ ap (view_of g k) (find_own-writes h rows)
  serve-view_of h g (get_one id) k rows other plain =
      ap (view_of g k) (
        checked-writes _ (get parse table (some h) now id) rows
        ∙ checked-writes _ (get_row table (λ m. m.household_id) (some h) id) rows)
      ∙ refl
  serve-view_of h g (post id input) k rows other plain =
      ap (view_of g k) (
        checked-writes _ (create parse table (some h) now id input) rows
        ∙ checked-writes _ (create_own table (some h) (new_member id input)) rows)
      ∙ create_own-view table (λ m. m.household_id) g h other rows (new_member id input) k
          (λ x. refl)
  serve-view_of h g (patch id body) k rows other plain =
      ap (view_of g k) (
        checked-writes _ (update parse table (some h) now id body) rows
        ∙ checked-writes _
            (update_own table (λ m. m.household_id) (some h) id (changed_member body)) rows)
      ∙ update_own-view table (λ m. m.household_id) g h other rows id k (changed_member body)
          (λ x. refl) (λ x. rw plain refl)
  serve-view_of h g (delete id) k rows other plain =
      ap (view_of g k) (
        checked-writes _ (remove parse table (some h) now id) rows
        ∙ checked-writes _ (delete_own table (λ m. m.household_id) (some h) id) rows)
      ∙ delete_own-view table (λ m. m.household_id) g h other rows id k
