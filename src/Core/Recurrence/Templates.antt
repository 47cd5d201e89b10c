-- ===== src/Core/Recurrence/Templates.antt =====
-- recurrence.ts, generateMaintenanceTasks: the drafts of each template.
use nestai.Prelude.{
  ℕ, ◌≤◌, ◌≡◌, refl, sym, ◌∙◌, ap, subst, Bool, false, String, List, [], ◌∷◌, ◌++◌, map, some,
  arith, take, length, All, Perm,
}
use nestai.Prelude.Results.{ok, >>=-eq-ok, ok_inj}
use nestai.Prelude.Sorting.{sort_by, IsSorted, sort_by-perm, sort_by-IsSorted}
use nestai.Contracts.Enums.{TaskCategory, TaskUrgency}
use nestai.Contracts.Entities.{IsoDateTime}
use nestai.Core.Locale.{Locale}
use nestai.Core.Time.{date}
use nestai.Core.Recurrence.{
  RruleLibrary, MaintenanceTemplate, GenerateMaintenanceInput, MaintenanceDraft, or_default,
  default_maintenance_templates, compute_anchor, build_rrule, draft_of, occurrences_of, collect,
  due_le, window_end, generate_maintenance_tasks,
}
use nestai.Core.Recurrence.Windowed.{IsWithin, length-take, take-All, length-map, map-All}

-- A draft of a template, with its fields and the defaults for those that it leaves out.
pub record IsChoreOf (tpl : MaintenanceTemplate) (d : MaintenanceDraft) : Type 0 where
  pub template_key : d.template_key ≡ tpl.key
  pub title : d.draft.title ≡ tpl.title
  pub description : d.draft.description ≡ tpl.description
  pub due_at : d.draft.due_at ≡ some d.due
  pub urgency : d.draft.urgency ≡ or_default tpl.urgency TaskUrgency.med
  pub category : d.draft.category ≡ or_default tpl.category TaskCategory.maintenance
  pub required_skills : d.draft.required_skills ≡ or_default tpl.required_skills []
  pub requires_approval : d.draft.requires_approval ≡ false

draft_of-IsChoreOf :
    (tpl : MaintenanceTemplate) (due : IsoDateTime) → IsChoreOf tpl (draft_of tpl due)
draft_of-IsChoreOf tpl due = record {
  template_key = refl;
  title = refl;
  description = refl;
  due_at = refl;
  urgency = refl;
  category = refl;
  required_skills = refl;
  requires_approval = refl;
}

abbrev pub concat : List (List MaintenanceDraft) → List MaintenanceDraft
concat [] = []
concat (part ∷ parts) = part ++ concat parts

map-due :
    (tpl : MaintenanceTemplate) (ts : List IsoDateTime)
    → map (λ d. d.due) (map (draft_of tpl) ts) ≡ ts
map-due tpl [] = refl
map-due tpl (t ∷ ts) = ap (λ rest. t ∷ rest) (map-due tpl ts)

chores_of :
    (tpl : MaintenanceTemplate) (ts : List IsoDateTime)
    → All (IsChoreOf tpl) (map (draft_of tpl) ts)
chores_of tpl [] = tt
chores_of tpl (t ∷ ts) = (draft_of-IsChoreOf tpl t, chores_of tpl ts)

module _ (lib : RruleLibrary) (from to : IsoDateTime) (limit : ℕ) where
  -- The drafts of one template: due on the first dates that the library lists for its rule in the
  -- window, as many as the limit allows.
  pub record IsPart (tpl : MaintenanceTemplate) (part : List MaintenanceDraft) : Type 0 where
    pub rule : lib.Rule
    pub dates : List IsoDateTime
    pub built : build_rrule lib tpl (compute_anchor tpl from) ≡ ok rule
    pub listed : lib.between rule (date from) (date to) ≡ ok dates
    pub first : map (λ d. d.due) part ≡ take limit dates
    pub few : length part ≤ limit
    pub within : All (λ d. IsWithin from to d.due) part
    pub chores : All (IsChoreOf tpl) part

  abbrev pub AreParts : List MaintenanceTemplate → List (List MaintenanceDraft) → Type 0
  AreParts [] [] = Unit {0}
  AreParts (tpl ∷ templates) (part ∷ parts) = IsPart tpl part × AreParts templates parts
  AreParts templates parts = ⊥

  occurrences_of-IsPart :
      (tpl : MaintenanceTemplate) {part : List MaintenanceDraft}
      → occurrences_of lib tpl from (date to) limit ≡ ok part
      → IsPart tpl part
  unfolding occurrences_of
  occurrences_of-IsPart tpl e =
      let (rule, built, e') = >>=-eq-ok (build_rrule lib tpl (compute_anchor tpl from)) _ e in
      let (dates, listed, e'') = >>=-eq-ok (lib.between rule (date from) (date to)) _ e' in
      subst (IsPart tpl) (ok_inj e'') (record {
        rule = rule;
        dates = dates;
        built = built;
        listed = listed;
        first = map-due tpl (take limit dates);
        few = omega (arith, length-map (draft_of tpl) (take limit dates), length-take limit dates);
        within =
            map-All _ (draft_of tpl) (take limit dates)
              (take-All _ limit dates (lib.between_lem rule from to listed));
        chores = chores_of tpl (take limit dates);
      })

  collect-AreParts :
      (templates : List MaintenanceTemplate) {drafts : List MaintenanceDraft}
      → collect lib templates from (date to) limit ≡ ok drafts
      → (parts : List (List MaintenanceDraft)) × AreParts templates parts × (concat parts ≡ drafts)
  unfolding collect
  collect-AreParts [] e = ([], tt, ok_inj e)
  collect-AreParts (tpl ∷ templates) e =
      let (own, occurred, e') = >>=-eq-ok (occurrences_of lib tpl from (date to) limit) _ e in
      let (rest, collected, e'') = >>=-eq-ok (collect lib templates from (date to) limit) _ e' in
      let (parts, are, joined) = collect-AreParts templates collected in
      (
        own ∷ parts,
        (occurrences_of-IsPart tpl occurred, are),
        ap (λ ds. own ++ ds) joined ∙ ok_inj e'',
      )

module _ (lib : RruleLibrary) (L : Locale) (iso : IsoDateTime → String) where
  -- What is generated for a window, when it is, consists of a part for each template, in which are
  -- chores of the template that are due in the window, on the first dates that the library lists for
  -- its rule, at most the limit for each template; all are sorted by the texts of their due dates.
  pub generate_maintenance_tasks-AreParts :
      (input : GenerateMaintenanceInput) {from to : IsoDateTime} {drafts : List MaintenanceDraft}
      → input.from ≡ date from
      → window_end input.to from ≡ ok (date to)
      → generate_maintenance_tasks lib L iso input ≡ ok drafts
      → (parts : List (List MaintenanceDraft)) × AreParts lib from to
          (or_default input.per_template_limit 12)
          (or_default input.templates default_maintenance_templates)
          parts
        × Perm drafts (concat parts)
        × IsSorted (due_le L iso) drafts
  unfolding generate_maintenance_tasks
  generate_maintenance_tasks-AreParts input {from} {to} {drafts} starts ends e =
      let templates : List MaintenanceTemplate =
        or_default input.templates default_maintenance_templates in
      let limit : ℕ = or_default input.per_template_limit 12 in
      let (found, collected, e') =
        >>=-eq-ok (collect lib templates from (date to) limit) _ (rw (starts, ends) at e) in
      let (parts, are, joined) = collect-AreParts lib from to limit templates collected in
      let le : MaintenanceDraft → MaintenanceDraft → Bool = due_le L iso in
      (
        parts,
        are,
        subst (λ ds. Perm ds (concat parts)) (ok_inj e')
            (subst (Perm (sort_by le found)) (sym joined) (sort_by-perm le found)),
        subst (IsSorted le) (ok_inj e')
            (sort_by-IsSorted le (λ a b. L.le_total _ _) (λ a b c. L.le_trans _ _ _) found),
      )
