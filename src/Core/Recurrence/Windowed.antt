-- ===== src/Core/Recurrence/Windowed.antt =====
-- recurrence.ts: what is expanded or generated lies in the window, is bounded and is sorted.
use nestai.Prelude.{
  ℕ, zero, suc, ◌*◌, ◌≤◌, ◌≡◌, refl, ap, subst, Bool, String, List, [], ◌∷◌, map, arith, take,
  length, length-append, All, Some, here, there, All-map, All-append,
}
use nestai.Prelude.Results.{ok, >>=-eq-ok, ok_inj}
use nestai.Prelude.Sorting.{length-sort_by, IsSorted, sort_by-All, sort_by-IsSorted}
use nestai.Contracts.Entities.{IsoDateTime}
use nestai.Core.Locale.{Locale}
use nestai.Core.Text.{trim}
use nestai.Core.Time.{date}
use nestai.Core.Recurrence.{
  RruleLibrary, ExpandOptions, MaintenanceTemplate, GenerateMaintenanceInput, MaintenanceDraft,
  or_default, default_maintenance_templates, compute_anchor, rule_of, expand_recurrence,
  build_rrule, draft_of, occurrences_of, collect, due_le, window_end, generate_maintenance_tasks,
}

pub length-take : {A : Type 0} (n : ℕ) (xs : List A) → length (take n xs) ≤ n
length-take zero xs = omega arith
length-take (suc n) [] = omega arith
length-take (suc n) (x ∷ xs) = omega (arith, length-take n xs)

pub take-All : {A : Type 0} (P : A → Type 0) (n : ℕ) (xs : List A) → All P xs → All P (take n xs)
take-All P zero xs h = tt
take-All P (suc n) [] h = tt
take-All P (suc n) (x ∷ xs) h = (h.0, take-All P n xs h.1)

pub length-map : {A B : Type 0} (f : A → B) (xs : List A) → length (map f xs) ≡ length xs
length-map f [] = refl
length-map f (x ∷ xs) = ap suc (length-map f xs)

pub map-All :
    {A B : Type 0} (P : B → Type 0) (f : A → B) (xs : List A)
    → All (λ x. P (f x)) xs
    → All P (map f xs)
map-All P f [] h = tt
map-All P f (x ∷ xs) h = (h.0, map-All P f xs h.1)

abbrev pub IsWithin : IsoDateTime → IsoDateTime → IsoDateTime → Type 0
IsWithin from to t = (from ≤ t) × (t ≤ to)

-- A draft of one of the templates, due in the window.
abbrev pub IsChore :
    List MaintenanceTemplate → IsoDateTime → IsoDateTime → MaintenanceDraft → Type 0
IsChore templates from to d =
    IsWithin from to d.due × Some (λ tpl. d ≡ draft_of tpl d.due) templates

module _ (lib : RruleLibrary) where
  -- The dates that a rule is expanded to lie between the ends of the window, and are no more than
  -- the limit, which is 500 when none is given.
  pub expand_recurrence-bounds :
      (rule : String) (opts : ExpandOptions) {from to : IsoDateTime} {dates : List IsoDateTime}
      → opts.from ≡ date from
      → opts.to ≡ date to
      → expand_recurrence lib rule opts ≡ ok dates
      → All (IsWithin from to) dates × (length dates ≤ or_default opts.limit 500)
  unfolding expand_recurrence
  expand_recurrence-bounds rule opts {from} {to} starts ends e =
      let (rrule, built, e') =
        >>=-eq-ok (rule_of lib (trim rule) (or_default opts.dtstart (date from))) _
          (rw (starts, ends) at e) in
      let (found, listed, e'') = >>=-eq-ok (lib.between rrule (date from) (date to)) _ e' in
      let n : ℕ = or_default opts.limit 500 in
      subst (λ ds. All (IsWithin from to) ds × (length ds ≤ n)) (ok_inj e'')
        (take-All _ n found (lib.between_lem rrule from to listed), length-take n found)

  occurrences_of_lem :
      (tpl : MaintenanceTemplate) (from to : IsoDateTime) (limit : ℕ)
      {drafts : List MaintenanceDraft}
      → occurrences_of lib tpl from (date to) limit ≡ ok drafts
      → All (λ d. IsWithin from to d.due × (d ≡ draft_of tpl d.due)) drafts
        × (length drafts ≤ limit)
  unfolding occurrences_of
  occurrences_of_lem tpl from to limit e =
      let (rrule, built, e') = >>=-eq-ok (build_rrule lib tpl (compute_anchor tpl from)) _ e in
      let (found, listed, e'') = >>=-eq-ok (lib.between rrule (date from) (date to)) _ e' in
      subst
        (λ ds.
          All (λ d. IsWithin from to d.due × (d ≡ draft_of tpl d.due)) ds × (length ds ≤ limit))
        (ok_inj e'')
        (
          map-All _ (draft_of tpl) (take limit found) (
              All-map _ (λ t within. (within, refl))
                (take-All _ limit found (lib.between_lem rrule from to listed))),
          omega (arith, length-map (draft_of tpl) (take limit found), length-take limit found),
        )

  collect_lem :
      (templates : List MaintenanceTemplate) (from to : IsoDateTime) (limit : ℕ)
      {drafts : List MaintenanceDraft}
      → collect lib templates from (date to) limit ≡ ok drafts
      → All (IsChore templates from to) drafts × (length drafts ≤ length templates * limit)
  unfolding collect
  collect_lem [] from to limit e =
      subst (λ ds. All (IsChore [] from to) ds × (length ds ≤ 0 * limit)) (ok_inj e)
        (tt, omega arith)
  collect_lem (tpl ∷ templates) from to limit e =
      let (own, occurred, e') = >>=-eq-ok (occurrences_of lib tpl from (date to) limit) _ e in
      let (rest, collected, e'') = >>=-eq-ok (collect lib templates from (date to) limit) _ e' in
      let (own_chores, few) = occurrences_of_lem tpl from to limit occurred in
      let (chores, bounded) = collect_lem templates from to limit collected in
      let P : MaintenanceDraft → Type 0 = IsChore (tpl ∷ templates) from to in
      subst (λ ds. All P ds × (length ds ≤ length (tpl ∷ templates) * limit)) (ok_inj e'')
        (
          All-append P own rest (All-map own (λ d h. (h.0, here h.1)) own_chores)
              (All-map rest (λ d h. (h.0, there h.1)) chores),
          omega (arith, length-append own rest, few, bounded),
        )

module _ (lib : RruleLibrary) (L : Locale) (iso : IsoDateTime → String) where
  -- What is generated for a window: chores of the templates that are due in it, at most the limit
  -- for each template, sorted by the texts of their due dates.
  pub generate_maintenance_tasks-IsChore :
      (input : GenerateMaintenanceInput) {from to : IsoDateTime} {drafts : List MaintenanceDraft}
      → input.from ≡ date from
      → window_end input.to from ≡ ok (date to)
      → generate_maintenance_tasks lib L iso input ≡ ok drafts
      → All (IsChore (or_default input.templates default_maintenance_templates) from to) drafts
        × (length drafts
            ≤ length (or_default input.templates default_maintenance_templates)
              * or_default input.per_template_limit 12)
        × IsSorted (due_le L iso) drafts
  unfolding generate_maintenance_tasks
  generate_maintenance_tasks-IsChore input {from} {to} starts ends e =
      let templates : List MaintenanceTemplate =
        or_default input.templates default_maintenance_templates in
      let limit : ℕ = or_default input.per_template_limit 12 in
      let (found, collected, e') =
        >>=-eq-ok (collect lib templates from (date to) limit) _ (rw (starts, ends) at e) in
      let (chores, bounded) = collect_lem lib templates from to limit collected in
      let P : MaintenanceDraft → Type 0 = IsChore templates from to in
      let le : MaintenanceDraft → MaintenanceDraft → Bool = due_le L iso in
      subst (λ ds. All P ds × (length ds ≤ length templates * limit) × IsSorted le ds) (ok_inj e')
        (
          sort_by-All le P found chores,
          omega (arith, length-sort_by le found, bounded),
          sort_by-IsSorted le (λ a b. L.le_total _ _) (λ a b c. L.le_trans _ _ _) found,
        )
