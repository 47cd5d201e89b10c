-- ===== src/Core/Recurrence.antt =====
-- packages/core/src/recurrence/recurrence.ts. The rrule library is a parameter: its rules, what it
-- reads from a text, and the occurrences of a rule in a window.
pub mod Windowed
pub mod Templates
mod Tests
use nestai.Prelude.{
  ℕ, suc, ◌-◌, ◌*◌, ◌≤◌, ◌≡◌, Bool, true, false, ◌&&◌, String, List, [], ◌∷◌, ◌++◌, map, Option,
  none, some, leb, if◌then◌else◌, take, All, str_eq,
}
use nestai.Prelude.Int.{pos}
use nestai.Prelude.Results.{Result, ok, throw, ◌>>=◌}
use nestai.Prelude.Sorting.{sort_by}
use nestai.Contracts.Enums.{TaskUrgency, TaskCategory}
use nestai.Contracts.Entities.{IsoDateTime, TaskDraft}
use nestai.Core.Calendar.{Civil, civil}
use nestai.Core.Locale.{Locale}
use nestai.Core.Seasonal.OpensRule.{is_before}
use nestai.Core.Text.{codes, to_lower, contains, trim, date_utc}
use nestai.Core.Time.{Clock, date, to_date, add_days}

-- `rrulestr`; `RRule.parseString` and `new RRule` of its options with a start; `new RRule` of a
-- frequency with an interval and a start; `between`, with both ends, which refuses invalid dates.
pub record RruleLibrary : Type 1 where
  pub Rule : Type 0
  pub rrulestr : String → Result Rule
  pub with_start : String → Clock → Result Rule
  pub daily : ℕ → Clock → Result Rule
  pub monthly : ℕ → Clock → Result Rule
  pub between : Rule → Clock → Clock → Result (List IsoDateTime)
  pub between_lem :
      (rule : Rule) (from to : IsoDateTime) {dates : List IsoDateTime}
      → between rule (date from) (date to) ≡ ok dates
      → All (λ t. (from ≤ t) × (t ≤ to)) dates

pub record ExpandOptions : Type 0 where
  pub from : Clock
  pub to : Clock
  pub dtstart : Option Clock
  pub limit : Option ℕ

-- The cadence of a chore.
pub record MaintenanceTemplate : Type 0 where
  pub key : String
  pub title : String
  pub description : Option String
  pub category : Option TaskCategory
  pub required_skills : Option (List String)
  pub rrule : Option String
  pub every_months : Option ℕ
  pub every_days : Option ℕ
  pub anchor_month : Option ℕ
  pub anchor_day : Option ℕ
  pub urgency : Option TaskUrgency

pub record GenerateMaintenanceInput : Type 0 where
  pub templates : Option (List MaintenanceTemplate)
  pub from : Clock
  pub to : Option Clock
  pub per_template_limit : Option ℕ

-- A draft, its due date and the key of its template.
pub record MaintenanceDraft : Type 0 where
  pub template_key : String
  pub due : IsoDateTime
  pub draft : TaskDraft

-- `??`
abbrev pub or_default {ℓ} : {A : Type ℓ} → Option A → A → A
or_default none other = other
or_default (some a) other = a

abbrev no_template : MaintenanceTemplate
no_template = record {
  key = "";
  title = "";
  description = none;
  category = some TaskCategory.maintenance;
  required_skills = none;
  rrule = none;
  every_months = none;
  every_days = none;
  anchor_month = none;
  anchor_day = none;
  urgency = some TaskUrgency.med;
}

abbrev pub default_maintenance_templates : List MaintenanceTemplate
default_maintenance_templates =
    record no_template {
      key = "hvac-filter";
      title = "Replace HVAC filter";
      description = some "Swap the furnace/AC air filter.";
      every_months = some 3;
    }
    ∷ record no_template {
      key = "gutter-cleaning";
      title = "Clean gutters";
      description = some "Clear gutters of leaves before winter.";
      every_months = some 12;
      anchor_month = some 11;
      anchor_day = some 15;
    }
    ∷ record no_template {
      key = "smoke-detector-battery";
      title = "Test smoke & CO detectors";
      every_months = some 6;
      urgency = some TaskUrgency.high;
    }
    ∷ []

-- The day in this year, or in the next one when it is over; the month is counted from 1.
abbrev anchor_in : ℕ → ℕ → IsoDateTime → Clock
anchor_in month day_of_month from =
    let anchor : Clock = date_utc (civil from).year month day_of_month in
    if is_before anchor from then date_utc (suc (civil from).year) month day_of_month else anchor

unfoldable pub compute_anchor : MaintenanceTemplate → IsoDateTime → Clock
compute_anchor tpl from = elim tpl.anchor_month [
  | none ↦ date from
  | some month ↦ anchor_in month (or_default tpl.anchor_day 1) from
]

abbrev pub draft_of : MaintenanceTemplate → IsoDateTime → MaintenanceDraft
draft_of tpl due = record {
  template_key = tpl.key;
  due = due;
  draft = record {
    title = tpl.title;
    description = tpl.description;
    due_at = some due;
    urgency = or_default tpl.urgency TaskUrgency.med;
    category = or_default tpl.category TaskCategory.maintenance;
    required_skills = or_default tpl.required_skills [];
    min_age = none;
    max_age = none;
    requires_approval = false;
  };
}

abbrev window_end : Option Clock → IsoDateTime → Result Clock
window_end none from = add_days (date from) (pos 365)
window_end (some to) from = to_date to >>= λ t. ok (date t)

module _ (lib : RruleLibrary) where
  abbrev has_start : String → Bool
  has_start rule = contains (codes "dtstart") (map to_lower (codes rule))

  abbrev rule_of : String → Clock → Result lib.Rule
  rule_of rule start =
      if has_start rule
      then lib.rrulestr rule
      else to_date start >>= λ t. lib.with_start rule (date t)

  unfoldable pub expand_recurrence : String → ExpandOptions → Result (List IsoDateTime)
  expand_recurrence rule opts = to_date opts.from >>= λ from. to_date opts.to >>= λ to.
      rule_of (trim rule) (or_default opts.dtstart (date from)) >>= λ rrule.
      lib.between rrule (date from) (date to) >>= λ dates.
      ok (take (or_default opts.limit 500) dates)

  abbrev every : MaintenanceTemplate → Clock → Result lib.Rule
  every tpl anchor = elim tpl.every_days [
    | some days ↦ lib.daily days anchor
    | none ↦ lib.monthly (or_default tpl.every_months 3) anchor
  ]

  -- An empty text is no cadence.
  unfoldable pub build_rrule : MaintenanceTemplate → Clock → Result lib.Rule
  build_rrule tpl anchor = elim tpl.rrule [
    | none ↦ every tpl anchor
    | some rule ↦ if str_eq rule "" then every tpl anchor else lib.with_start rule anchor
  ]

  -- The drafts of one template.
  unfoldable pub occurrences_of :
      MaintenanceTemplate → IsoDateTime → Clock → ℕ → Result (List MaintenanceDraft)
  occurrences_of tpl from to limit = build_rrule tpl (compute_anchor tpl from) >>= λ rrule.
      lib.between rrule (date from) to >>= λ dates. ok (map (draft_of tpl) (take limit dates))

  unfoldable pub collect :
      List MaintenanceTemplate → IsoDateTime → Clock → ℕ → Result (List MaintenanceDraft)
  collect [] from to limit = ok []
  collect (tpl ∷ templates) from to limit = occurrences_of tpl from to limit >>= λ drafts.
      collect templates from to limit >>= λ rest. ok (drafts ++ rest)

-- The due dates are compared as texts, which `iso` gives for `toISOString`.
abbrev pub due_le : Locale → (IsoDateTime → String) → MaintenanceDraft → MaintenanceDraft → Bool
due_le L iso a b = L.le (iso a.due) (iso b.due)

module _ (lib : RruleLibrary) (L : Locale) (iso : IsoDateTime → String) where
  unfoldable pub generate_maintenance_tasks :
      GenerateMaintenanceInput → Result (List MaintenanceDraft)
  generate_maintenance_tasks input = to_date input.from >>= λ from.
      window_end input.to from >>= λ to.
      collect lib (or_default input.templates default_maintenance_templates) from to
        (or_default input.per_template_limit 12)
      >>= λ drafts. ok (sort_by (due_le L iso) drafts)
