-- ===== src/Core/Seasonal.antt =====
-- packages/core/src/seasonal/seasonal.ts, the milestones of a project: computeMilestones and
-- resolveGoalDate. The reading of a timeline's rule and the classifier of texts are the children.
pub mod OpensRule
pub mod Schedule
pub mod Intent
mod Tests
use nestai.Prelude.{ℕ, ◌*◌, Bool, true, false, String, List, [], ◌∷◌, Option, none, some}
use nestai.Prelude.Int.{ℤ, pos, negsuc, sub_ℕ}
use nestai.Prelude.Results.{Result, ok, throw, range_error, no_goal_date, ◌>>=◌, each}
use nestai.Contracts.Enums.{MilestoneStage}
use nestai.Contracts.Enums.MilestoneStage.{prep_30d, asset_check_14d, final_48h, jit_15m}
use nestai.Contracts.Entities.{IsoDateTime, SeasonalProject, RegistrationTimeline, TimeWindow}
use nestai.Core.Time.{Clock, date, invalid, to_date, to_iso, add_minutes}
use nestai.Core.Text.{◌+++◌, codes, iso_day}
use nestai.Core.Seasonal.OpensRule.{parse_opens_rule}

-- The minutes before the goal, which the source writes as negative offsets.
abbrev pub lead_minutes : MilestoneStage → ℕ
lead_minutes prep_30d = 30 * 24 * 60
lead_minutes asset_check_14d = 14 * 24 * 60
lead_minutes final_48h = 48 * 60
lead_minutes jit_15m = 15

abbrev pub stage_offset : MilestoneStage → ℤ
stage_offset stage = sub_ℕ 0 (lead_minutes stage)

abbrev pub milestone_stage_order : List MilestoneStage
milestone_stage_order = prep_30d ∷ asset_check_14d ∷ final_48h ∷ jit_15m ∷ []

pub record ComputeMilestonesInput : Type 0 where
  pub project : SeasonalProject
  pub timeline : Option RegistrationTimeline
  pub goal_date : Option Clock
  pub now : Clock

pub record MilestoneDraft : Type 0 where
  pub household_id : String
  pub seasonal_project_id : String
  pub stage : MilestoneStage
  pub fire_at : IsoDateTime
  pub content : String
  pub fired : Bool

abbrev quoted : String → String
quoted s = "\"" +++ s +++ "\""

abbrev content_of : MilestoneStage → String → String → String
content_of prep_30d label on =
    "30-day prep for "
    +++ quoted label
    +++ ": confirm dates (target "
    +++ on
    +++ "), budget and who's going. Start any registrations now."
content_of asset_check_14d label on =
    "2-week asset check for "
    +++ quoted label
    +++ ": verify gear and vehicle readiness, and audit kids' sizes before "
    +++ on
    +++ "."
content_of final_48h label on =
    "48-hour final for "
    +++ quoted label
    +++ ": pack, confirm reservations and assign drivers for "
    +++ on
    +++ "."
content_of jit_15m label on =
    "Heads up — " +++ quoted label +++ " starts in 15 minutes. Grab the bags and go."

-- `toISOString` of the invalid date throws.
unfoldable pub milestone_content : MilestoneStage → SeasonalProject → Clock → Result String
milestone_content stage project (date t) = ok (content_of stage project.title (iso_day t))
milestone_content stage project invalid = throw range_error

unfoldable pub draft_of : SeasonalProject → Clock → MilestoneStage → Result MilestoneDraft
draft_of project goal stage = add_minutes goal (stage_offset stage) >>= λ at.
    to_iso at >>= λ fire_at. milestone_content stage project goal >>= λ content. ok (record {
      household_id = project.household_id;
      seasonal_project_id = project.id;
      stage = stage;
      fire_at = fire_at;
      content = content;
      fired = false;
    })

module _ (parse : List ℕ → Option IsoDateTime) where
  abbrev of_window : Option TimeWindow → Result Clock
  of_window none = throw no_goal_date
  of_window (some window) = to_date (date window.start) >>= λ t. ok (date t)

  abbrev of_opening : Option Clock → Option TimeWindow → Result Clock
  of_opening (some opens) window = ok opens
  of_opening none window = of_window window

  abbrev of_timeline : Option RegistrationTimeline → ComputeMilestonesInput → Result Clock
  of_timeline none input = of_window input.project.target_window
  of_timeline (some timeline) input =
      parse_opens_rule parse timeline.opens_rule input.now >>= λ opens.
      of_opening opens input.project.target_window

  -- A `Date`, which is the invalid one where the rule names one.
  unfoldable pub resolve_goal_date : ComputeMilestonesInput → Result Clock
  resolve_goal_date input = elim input.goal_date [
    | some goal ↦ to_date goal >>= λ t. ok (date t)
    | none ↦ of_timeline input.timeline input
  ]

  unfoldable pub compute_milestones : ComputeMilestonesInput → Result (List MilestoneDraft)
  compute_milestones input =
      resolve_goal_date input >>= λ goal. each (draft_of input.project goal) milestone_stage_order
