-- ===== src/Core/Recurrence/Tests.antt =====
-- Runs of recurrence.ts with rules of whole days, and its theorems at concrete inputs.
use nestai.Prelude.{
  ℕ, zero, suc, ◌+◌, ◌*◌, ◌≤◌, ◌≡◌, refl, sym, Bool, ◌&&◌, String, List, [], ◌∷◌, map, none, some,
  arith, leb, filter, filter-passes, length, All, All-map, Perm,
}
use nestai.Prelude.Results.{Result, ok, throw, invalid_date, ok_inj}
use nestai.Prelude.Sorting.{sort_by, IsSorted}
use nestai.Contracts.Entities.{IsoDateTime}
use nestai.Core.Calendar.{civil}
use nestai.Core.Samples.{code_points, noon}
use nestai.Core.Text.{date_utc}
use nestai.Core.Time.{Clock, date, invalid, day, add_days}
use nestai.Core.Recurrence.{
  RruleLibrary, ExpandOptions, GenerateMaintenanceInput, MaintenanceDraft,
  default_maintenance_templates, compute_anchor, expand_recurrence, build_rrule, occurrences_of,
  collect, due_le, generate_maintenance_tasks,
}
use nestai.Core.Recurrence.Templates.{AreParts, concat, generate_maintenance_tasks-AreParts}
use nestai.Core.Recurrence.Windowed.{IsWithin, expand_recurrence-bounds}

-- A start and a number of days.
abbrev DayRule : Type 0
DayRule = IsoDateTime × ℕ

abbrev every_days : ℕ → Clock → Result DayRule
every_days n invalid = throw invalid_date
every_days n (date t) = ok (t, n)

abbrev steps : ℕ → IsoDateTime → ℕ → List IsoDateTime
steps zero t n = []
steps (suc count) t n = t ∷ steps count (t + n * day) n

abbrev in_window : IsoDateTime → IsoDateTime → IsoDateTime → Bool
in_window from to t = leb from t && leb t to

abbrev between_days : DayRule → Clock → Clock → Result (List IsoDateTime)
between_days (start, n) (date from) (date to) = ok (filter (in_window from to) (steps 15 start n))
between_days rule from to = throw invalid_date

between_days-IsWithin :
    (rule : DayRule) (from to : IsoDateTime) {dates : List IsoDateTime}
    → between_days rule (date from) (date to) ≡ ok dates
    → All (λ t. (from ≤ t) × (t ≤ to)) dates
between_days-IsWithin (start, n) from to {dates} e =
    let found : filter (in_window from to) (steps 15 start n) ≡ dates = ok_inj e in
    rw (sym found)
      (All-map _ (λ t h. ground arith) (filter-passes (in_window from to) (steps 15 start n)))

-- Texts start at the given date every week; months have 30 days.
abbrev day_rules : RruleLibrary
day_rules = record {
  Rule = DayRule;
  rrulestr = λ text. ok (noon, 7);
  with_start = λ text start. every_days 7 start;
  daily = every_days;
  monthly = λ n start. every_days (30 * n) start;
  between = between_days;
  between_lem = between_days-IsWithin;
}

abbrev constant_text : IsoDateTime → String
constant_text t = ""

recurrence : Unit {0}
unfolding compute_anchor expand_recurrence build_rrule occurrences_of collect
    generate_maintenance_tasks sort_by date_utc civil add_days
recurrence = tt

abbrev three_weeks : ExpandOptions
three_weeks = record {
  from = date noon;
  to = date (noon + 21 * day);
  dtstart = none;
  limit = some 3;
}

abbrev mondays : List IsoDateTime
mondays = noon ∷ (noon + 7 * day) ∷ (noon + 14 * day) ∷ []

mondays_run : expand_recurrence day_rules " FREQ=WEEKLY" three_weeks ≡ ok mondays
unfolding recurrence
mondays_run = refl

expand_recurrence-bounds_example :
    All (IsWithin noon (noon + 21 * day)) mondays × (length mondays ≤ 3)
expand_recurrence-bounds_example =
    expand_recurrence-bounds day_rules " FREQ=WEEKLY" three_weeks refl refl mondays_run

abbrev half_year : GenerateMaintenanceInput
half_year = record {
  templates = none;
  from = date noon;
  to = some (date (noon + 180 * day));
  per_template_limit = some 2;
}

abbrev keys : Result (List MaintenanceDraft) → List String
keys (throw fault) = []
keys (ok drafts) = map (λ d. d.template_key) drafts

abbrev outcome : Result (List MaintenanceDraft)
outcome = generate_maintenance_tasks day_rules code_points constant_text half_year

half_year_keys :
    keys outcome
    ≡ "hvac-filter" ∷ "hvac-filter" ∷ "gutter-cleaning" ∷ "smoke-detector-battery"
      ∷ "smoke-detector-battery" ∷ []
unfolding recurrence
half_year_keys = refl

abbrev drafts_of : Result (List MaintenanceDraft) → List MaintenanceDraft
drafts_of (throw fault) = []
drafts_of (ok drafts) = drafts

half_year_runs : outcome ≡ ok (drafts_of outcome)
unfolding recurrence
half_year_runs = refl

generate_maintenance_tasks-AreParts_example :
    (parts : List (List MaintenanceDraft)) × AreParts day_rules noon
      (noon + 180 * day)
      2
      default_maintenance_templates
      parts
    × Perm (drafts_of outcome) (concat parts)
    × IsSorted (due_le code_points constant_text) (drafts_of outcome)
generate_maintenance_tasks-AreParts_example =
    generate_maintenance_tasks-AreParts day_rules code_points constant_text half_year refl refl
      half_year_runs
