-- ===== src/Core/Seasonal/Schedule.antt =====
-- seasonal.ts, computeMilestones: the drafts of a goal date, and the errors.
use nestai.Prelude.{
  ℕ, ◌+◌, ◌-◌, ◌*◌, ◌≤◌, ◌<◌, ◌≡◌, refl, ◌⊎◌, inl, inr, ◌↔◌, false, List, map, Option, none, some,
  Option-cases, arith, All, Some-map, Some-⊥,
}
use nestai.Prelude.Sorting.{Pairwise}
use nestai.Prelude.Results.{
  ok, throw, no_goal_date, each-map, each-throw, Result-cases, >>=-eq-throw,
}
use nestai.Contracts.Enums.{MilestoneStage}
use nestai.Contracts.Enums.MilestoneStage.{prep_30d, asset_check_14d, final_48h, jit_15m}
use nestai.Contracts.Entities.{IsoDateTime, SeasonalProject, RegistrationTimeline}
use nestai.Core.Time.{Clock, date, invalid, minute, add_minutes, to_iso}
use nestai.Core.Text.{iso_day}
use nestai.Core.Seasonal.OpensRule.{parse_opens_rule}
use nestai.Core.Seasonal.OpensRule.Faults.{parse_opens_rule-fault}
use nestai.Core.Seasonal.{
  ComputeMilestonesInput, MilestoneDraft, lead_minutes, milestone_stage_order, milestone_content,
  content_of, resolve_goal_date, draft_of, compute_milestones,
}

-- A draft of the project that fires its stage's minutes before the goal, and has not fired.
pub record IsDraft (project : SeasonalProject) (goal : IsoDateTime) (d : MilestoneDraft)
    : Type 0 where
  pub before_goal : d.fire_at + lead_minutes d.stage * minute ≡ goal
  pub of_household : d.household_id ≡ project.household_id
  pub of_project : d.seasonal_project_id ≡ project.id
  pub unfired : d.fired ≡ false

-- The four stages in their order, each before the next.
pub record IsSchedule (project : SeasonalProject) (goal : IsoDateTime)
    (drafts : List MilestoneDraft) : Type 0 where
  pub drafted : All (IsDraft project goal) drafts
  pub staged : map (λ d. d.stage) drafts ≡ milestone_stage_order
  pub ordered : Pairwise (λ a b. a.fire_at < b.fire_at) drafts

abbrev draft_at : SeasonalProject → IsoDateTime → MilestoneStage → MilestoneDraft
draft_at project goal stage = record {
  household_id = project.household_id;
  seasonal_project_id = project.id;
  stage = stage;
  fire_at = goal - lead_minutes stage * minute;
  content = content_of stage project.title (iso_day goal);
  fired = false;
}

draft_of-draft_at :
    (project : SeasonalProject) (goal : IsoDateTime) (stage : MilestoneStage)
    → lead_minutes stage * minute ≤ goal
    → draft_of project (date goal) stage ≡ ok (draft_at project goal stage)
unfolding draft_of add_minutes to_iso milestone_content
draft_of-draft_at project goal prep_30d h = ground arith
draft_of-draft_at project goal asset_check_14d h = ground arith
draft_of-draft_at project goal final_48h h = ground arith
draft_of-draft_at project goal jit_15m h = ground arith

draft_of-fault :
    (project : SeasonalProject) (goal : Clock) (stage : MilestoneStage)
    → draft_of project goal stage ≡ throw no_goal_date
    → ⊥
unfolding draft_of add_minutes to_iso milestone_content
draft_of-fault project (date t) stage e = ground arith
draft_of-fault project invalid stage e = cc

for_stages :
    (P : MilestoneStage → Type 0)
    → ((stage : MilestoneStage) → P stage)
    → All P milestone_stage_order
for_stages P h = (h prep_30d, (h asset_check_14d, (h final_48h, (h jit_15m, tt))))

first_stage : (stage : MilestoneStage) → lead_minutes stage ≤ lead_minutes prep_30d
first_stage prep_30d = omega arith
first_stage asset_check_14d = omega arith
first_stage final_48h = omega arith
first_stage jit_15m = omega arith

draft_at-IsDraft :
    (project : SeasonalProject) (goal : IsoDateTime) (stage : MilestoneStage)
    → lead_minutes stage * minute ≤ goal
    → IsDraft project goal (draft_at project goal stage)
draft_at-IsDraft project goal stage h = record {
  before_goal = omega arith;
  of_household = refl;
  of_project = refl;
  unfired = refl;
}

module _ (parse : List ℕ → Option IsoDateTime) (input : ComputeMilestonesInput) where
  -- For a goal date from thirty days after the earliest date on, the milestones are computed: four
  -- unfired drafts of the project, one for each stage in their order, each at its lead before
  -- the goal and strictly before the next.
  pub compute_milestones-IsSchedule :
      {goal : IsoDateTime}
      → resolve_goal_date parse input ≡ ok (date goal)
      → lead_minutes prep_30d * minute ≤ goal
      → (drafts : List MilestoneDraft) × (compute_milestones parse input ≡ ok drafts)
        × IsSchedule input.project goal drafts
  unfolding compute_milestones
  compute_milestones-IsSchedule {goal} resolved early =
      let at : MilestoneStage → MilestoneDraft = draft_at input.project goal in
      let in_time : (stage : MilestoneStage) → lead_minutes stage * minute ≤ goal =
        λ stage. omega (arith, first_stage stage) in
      (
        map at milestone_stage_order,
        rw resolved (
            each-map (draft_of input.project (date goal)) at milestone_stage_order
              (for_stages _ (λ stage. draft_of-draft_at input.project goal stage (in_time stage)))),
        record {
          drafted =
              for_stages (λ stage. IsDraft input.project goal (at stage))
                (λ stage. draft_at-IsDraft input.project goal stage (in_time stage));
          staged = refl;
          ordered = ground arith;
        },
      )

  abbrev pub HasNoOpening : Type 0
  HasNoOpening =
      (input.timeline ≡ none)
      ⊎ ((timeline : RegistrationTimeline) × (input.timeline ≡ some timeline)
          × (parse_opens_rule parse timeline.opens_rule input.now ≡ ok none))

  resolve_goal_date-no_goal_date :
      (resolve_goal_date parse input ≡ throw no_goal_date)
      ↔ ((input.goal_date ≡ none) × HasNoOpening × (input.project.target_window ≡ none))
  unfolding resolve_goal_date
  resolve_goal_date-no_goal_date = elim (Option-cases input.timeline) [
    | inl unscheduled ↦ ground arith
    | inr (timeline, scheduled) ↦
        elim (Result-cases (parse_opens_rule parse timeline.opens_rule input.now)) [
          | inl (opens, parsed) ↦ ground arith
          | inr (fault, fails) ↦
              ground (arith, parse_opens_rule-fault parse timeline.opens_rule input.now fails)
        ]
  ]

  -- The goal date is missed exactly when there is none, no timeline whose rule is read as a date,
  -- and no target window.
  pub compute_milestones-no_goal_date :
      (compute_milestones parse input ≡ throw no_goal_date)
      ↔ ((input.goal_date ≡ none) × HasNoOpening × (input.project.target_window ≡ none))
  unfolding compute_milestones
  compute_milestones-no_goal_date = (
    (λ e. elim (>>=-eq-throw (resolve_goal_date parse input) _ e) [
      | inl unresolved ↦ resolve_goal_date-no_goal_date.0 unresolved
      | inr (goal, resolved, e') ↦ absurd (
          Some-⊥ (
            Some-map (draft_of-fault input.project goal)
              (each-throw (draft_of input.project goal) milestone_stage_order e')))
    ]),
    (λ missing. rw (resolve_goal_date-no_goal_date.1 missing) refl),
  )
