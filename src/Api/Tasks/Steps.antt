-- ===== src/Api/Tasks/Steps.antt =====
-- tasks.service.ts: what the reads of an operation find, and what its writes change.
use nestai.Prelude.{
  ℕ, ◌≡◌, ◌≢◌, ◌⊎◌, refl, sym, ap, ◌∙◌, inl, inr, subst, Bool, true, false, ◌||◌, List, Some, here,
  there, All-Some, Option, none, some, String, arith, Bool-cases, str_eq, str_eq→eq, eq_iff,
  if◌then◌else◌,
}
use nestai.Prelude.Results.{Fault, Result, ok, throw}
use nestai.Contracts.Entities.{IsoDateTime, Task}
use nestai.Contracts.Enums.{TaskStatus}
use nestai.Core.Time.{date}
use nestai.Core.Escalation.{
  is_set, claim, EscalationState, ClaimResult, already_claimed, claimed_and_locked,
}
use nestai.Api.Table.{Table}
use nestai.Api.Database.{Database, Store, TenantContext, household_id, assert_owned}
use nestai.Api.Action.{◌>>=◌, lift, fail, return}
use nestai.Api.Tasks.{get, owned_or_404}

-- A table has the same rows of other households before and after.
abbrev pub KeepsForeign :
    {Row : Type 0} {id_of : Row → String} (table : Table Row id_of)
    → (Row → String)
    → String
    → table.Rows
    → table.Rows
    → Type 0
KeepsForeign {Row} table of_row h before after =
    (k : String) (r : Row)
    → of_row r ≢ h
    → (table.find_unique k before ≡ some r → table.find_unique k after ≡ some r)
      × (table.find_unique k after ≡ some r → table.find_unique k before ≡ some r)

module _ {Row : Type 0} {id_of : Row → String} (table : Table Row id_of) (of_row : Row → String)
    (h : String) where
  pub update-KeepsForeign :
      (i : String) (f : Row → Row) (rows : table.Rows) (r : Row)
      → ((x : Row) → id_of (f x) ≡ id_of x)
      → ((x : Row) → of_row (f x) ≡ of_row x)
      → table.find_unique i rows ≡ some r
      → of_row r ≡ h
      → KeepsForeign table of_row h rows (table.update i f rows)
  update-KeepsForeign i f rows r keeps_id keeps found own k x foreign =
      elim (Bool-cases (str_eq i k)) [
        | inl e ↦
            let same : i ≡ k = str_eq→eq i k e in
            rw (table.find_unique-update k i f rows r keeps_id found, e)
              (
                λ b.
                    let both : some r ≡ some x =
                      sym found ∙ ap (λ j. table.find_unique j rows) same ∙ b in
                    let row : r ≡ x = ground arith in
                    elim (foreign (ap of_row (sym row) ∙ own)) [ ],
                λ a.
                    let row : f r ≡ x = ground arith in
                    elim (foreign (ap of_row (sym row) ∙ keeps r ∙ own)) [ ],
              )
        | inr e ↦ rw (table.find_unique-update k i f rows r keeps_id found, e) (λ b. b, λ a. a)
      ]

  pub create-KeepsForeign :
      (r : Row) (rows : table.Rows)
      → table.find_unique (id_of r) rows ≡ none
      → of_row r ≡ h
      → KeepsForeign table of_row h rows (table.create r rows)
  create-KeepsForeign r rows fresh own k x foreign = elim (Bool-cases (str_eq (id_of r) k)) [
    | inl e ↦
        let same : id_of r ≡ k = str_eq→eq _ k e in
        rw (table.find_unique-create k r rows fresh, e)
          (
            λ b.
                let both : none ≡ some x =
                  sym fresh ∙ ap (λ j. table.find_unique j rows) same ∙ b in
                cc,
            λ a. let row : r ≡ x = ground arith in elim (foreign (ap of_row (sym row) ∙ own)) [ ],
          )
    | inr e ↦ rw (table.find_unique-create k r rows fresh, e) (λ b. b, λ a. a)
  ]

module _ (db : Database) (tenant : TenantContext) (h : String)
    (resolved : household_id tenant ≡ ok h) where
  owned-eq :
      {A : Type 0} (of_row : A → String) (a : A)
      → assert_owned tenant of_row (some a) ≡ ok (if str_eq (of_row a) h then some a else none)
  owned-eq {A} of_row a =
      ap {B = Result (Option A)}
        (λ (r : Result String). elim r [
          | throw fault ↦ throw fault
          | ok g ↦ ok (if str_eq (of_row a) g then some a else none)
        ])
        resolved

  abbrev chain : {A : Type 0} → Store db → Result (Option A) → Store db × Result A
  chain u r = (lift r >>= λ owned. elim owned [ none ↦ fail Fault.not_found | some x ↦ return x ]) u

  -- A row that passes the check is the household's.
  pub owned-cases :
      {A : Type 0} (of_row : A → String) (row : Option A) (s : Store db)
      → ((f : Fault) × (owned_or_404 db tenant of_row row s ≡ (s, throw f)))
        ⊎ ((a : A) × (owned_or_404 db tenant of_row row s ≡ (s, ok a))
            × (row ≡ some a)
            × (of_row a ≡ h))
  owned-cases of_row none s = inl (Fault.not_found, refl)
  owned-cases {A} of_row (some a) s = elim (Bool-cases (str_eq (of_row a) h)) [
    | inl e ↦
        let checked : assert_owned tenant of_row (some a) ≡ ok (some a) =
          owned-eq of_row a ∙ ap (λ b. ok (if b then some a else none)) e in
        inr (a, ap (chain s) checked, refl, str_eq→eq (of_row a) h e)
    | inr e ↦
        let checked : assert_owned tenant of_row (some a) ≡ ok none =
          owned-eq of_row a ∙ ap (λ b. ok (if b then some a else none)) e in
        inl (Fault.not_found, ap (chain s) checked)
  ]

  pub get-cases :
      (id : String) (s : Store db)
      → ((f : Fault) × (get db tenant id s ≡ (s, throw f)))
        ⊎ ((t : Task) × (get db tenant id s ≡ (s, ok t))
            × (db.task.find_unique id s.tasks ≡ some t)
            × (t.household_id ≡ h))
  unfolding get
  get-cases id s = owned-cases (λ t. t.household_id) (db.task.find_unique id s.tasks) s

  pub owned_or_404-own :
      {A : Type 0} (of_row : A → String) (row : Option A) (a : A) (s : Store db)
      → row ≡ some a
      → of_row a ≡ h
      → owned_or_404 db tenant of_row row s ≡ (s, ok a)
  owned_or_404-own {A} of_row row a s is_row own =
      let checked : assert_owned tenant of_row (some a) ≡ ok (some a) =
        owned-eq of_row a
        ∙ ap (λ b. ok (if b then some a else none)) ((eq_iff (of_row a) h).1 own) in
      ap (λ r. owned_or_404 db tenant of_row r s) is_row ∙ ap (chain s) checked

  pub get-own :
      (id : String) (t : Task) (s : Store db)
      → db.task.find_unique id s.tasks ≡ some t
      → t.household_id ≡ h
      → get db tenant id s ≡ (s, ok t)
  unfolding get
  get-own id t s found own = owned_or_404-own (λ x. x.household_id) _ t s found own

-- A property that no element is needed for.
pub Some-const : {A : Type 0} {C : Type 0} {xs : List A} → Some (λ x. C) xs → C
Some-const (here c) = c
Some-const (there s) = Some-const s

module _ {Row : Type 0} {id_of : Row → String} (table : Table Row id_of) where
  pub find_first-found :
      (p : Row → Bool) (key : Row → ℕ) (rows : table.Rows) (r : Row)
      → table.find_first p key rows ≡ some r
      → (p r ≡ true) × (table.find_unique (id_of r) rows ≡ some r)
  find_first-found p key rows r h = Some-const (
      All-Some (table.find_many p rows)
        (λ x (facts : (p x ≡ true) × (table.find_unique (id_of x) rows ≡ some x)) (same : x ≡ r).
          subst (λ y. (p y ≡ true) × (table.find_unique (id_of y) rows ≡ some y)) same facts)
        (table.find_many-find_unique p rows) (table.find_first-find_many p key rows r h).0)

-- The two answers of the core engine's claim at a valid time.
abbrev pub refused : EscalationState → ClaimResult
refused event = record {
  event = event;
  task_patch = record { status = none; assigned_member_id = none };
  succeeded = false;
  reason = already_claimed;
}

abbrev pub granted : EscalationState → String → IsoDateTime → ClaimResult
granted event member now = record {
  event = record event { claimed_by_id = some member; resolved_at = some now };
  task_patch = record { status = some TaskStatus.claimed; assigned_member_id = some member };
  succeeded = true;
  reason = claimed_and_locked member;
}

pub claim-cases :
    (event : EscalationState) (member : String) (now : IsoDateTime)
    → ((claim event member (date now) ≡ ok (refused event))
        × ((is_set event.resolved_at || is_set event.claimed_by_id) ≡ true))
      ⊎ ((claim event member (date now) ≡ ok (granted event member now))
          × ((is_set event.resolved_at || is_set event.claimed_by_id) ≡ false))
unfolding claim
claim-cases event member now =
    elim (Bool-cases (is_set event.resolved_at || is_set event.claimed_by_id)) [
      | inl e ↦ inl (rw e refl, e)
      | inr e ↦ inr (rw e refl, e)
    ]
