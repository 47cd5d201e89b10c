-- ===== src/Core/Seasonal/Tests.antt =====
-- Runs of seasonal.ts, and its theorems at concrete inputs.
use nestai.Prelude.{
  ◌-◌, ℕ, ◌+◌, ◌*◌, ◌≡◌, ◌↔◌, refl, true, List, [], ◌∷◌, Option, none, some, arith,
}
use nestai.Prelude.Results.{ok, throw, no_goal_date, each}
use nestai.Contracts.Enums.{SeasonalKind, SeasonalStatus}
use nestai.Contracts.Entities.{IsoDateTime, SeasonalProject, RegistrationTimeline}
use nestai.Core.Samples.{noon}
use nestai.Core.Time.{date, invalid, day, minute, add_minutes, to_iso}
use nestai.Core.Calendar.{civil}
use nestai.Core.Text.{codes, date_utc, iso_day}
use nestai.Core.Seasonal.OpensRule.{month_phrase, in_month, look_up, upcoming, parse_opens_rule}
use nestai.Core.Seasonal.{
  ComputeMilestonesInput, MilestoneDraft, milestone_content, resolve_goal_date, draft_of,
  compute_milestones,
}
use nestai.Core.Seasonal.Schedule.{
  IsSchedule, HasNoOpening, compute_milestones-IsSchedule, compute_milestones-no_goal_date,
}
use nestai.Core.Seasonal.Intent.{mentions, count, tally_from, intent_of, classify_seasonal_intent}
use nestai.Core.Seasonal.Intent.Best.{IsClassified, classify_seasonal_intent-IsClassified}

abbrev no_dates : List ℕ → Option IsoDateTime
no_dates text = none

seasonal : Unit {0}
unfolding month_phrase in_month look_up upcoming parse_opens_rule milestone_content
    resolve_goal_date draft_of compute_milestones date_utc civil iso_day add_minutes to_iso each
    mentions count tally_from intent_of classify_seasonal_intent
seasonal = tt

abbrev ski_week : SeasonalProject
ski_week = record {
  id = "p-1";
  household_id = "h-1";
  kind = SeasonalKind.ski_trip;
  status = SeasonalStatus.confirmed;
  title = "Ski week";
  target_window = none;
}

abbrev passes : RegistrationTimeline
passes = record {
  id = "t-1";
  household_id = "h-1";
  kind = SeasonalKind.ski_trip;
  region = none;
  label = "Passes";
  opens_rule = " December 1";
  lead_days = 14;
}

abbrev planned : ComputeMilestonesInput
planned = record { project = ski_week; timeline = some passes; goal_date = none; now = date noon }

abbrev unplanned : ComputeMilestonesInput
unplanned = record planned { timeline = none }

-- 2026-06-04 is past 1 March, so the phrase names the next year's.
first_of_march :
    month_phrase (codes "March 1") (date noon) ≡ ok (some (date (noon + 270 * day - 720 * minute)))
unfolding seasonal
first_of_march = refl

first_of_september :
    month_phrase (codes "september") (date noon) ≡ ok (some (date (noon + 89 * day - 720 * minute)))
unfolding seasonal
first_of_september = refl

no_month : month_phrase (codes "Opens March 1") (date noon) ≡ ok none
unfolding seasonal
no_month = refl

-- The word that every object of the language inherits a member for.
inherited_member : month_phrase (codes "constructor") (date noon) ≡ ok (some invalid)
unfolding seasonal
inherited_member = refl

-- The day 0 of January is the last day of the year before, which may be over.
day_zero :
    month_phrase (codes "January 0") (date (noon + 210 * day))
    ≡ ok (some (date (noon + 210 * day - 720 * minute)))
unfolding seasonal
day_zero = refl

abbrev opening : IsoDateTime
opening = noon + 180 * day - 720 * minute

planned_goal : resolve_goal_date no_dates planned ≡ ok (date opening)
unfolding seasonal
planned_goal = refl

compute_milestones-IsSchedule_example :
    (drafts : List MilestoneDraft) × (compute_milestones no_dates planned ≡ ok drafts)
    × IsSchedule ski_week opening drafts
compute_milestones-IsSchedule_example =
    compute_milestones-IsSchedule no_dates planned planned_goal (omega arith)

compute_milestones-no_goal_date_example :
    (compute_milestones no_dates unplanned ≡ throw no_goal_date) ↔ (
      (unplanned.goal_date ≡ none)
      × HasNoOpening no_dates unplanned
      × (unplanned.project.target_window ≡ none))
compute_milestones-no_goal_date_example = compute_milestones-no_goal_date no_dates unplanned

abbrev fall : List ℕ
fall = codes "plan a ski trip, a vacation and skis this fall"

fall_intent : classify_seasonal_intent fall ≡ record {
  is_seasonal = true;
  kind = some SeasonalKind.trip;
  confidence = 100;
  matched = "ski" ∷ "trip" ∷ "vacation" ∷ "this fall" ∷ "plan" ∷ [];
}
unfolding seasonal
fall_intent = refl

classify_seasonal_intent-IsClassified_example :
    IsClassified (mentions fall) (classify_seasonal_intent fall)
classify_seasonal_intent-IsClassified_example = classify_seasonal_intent-IsClassified fall
