-- ===== src/Core/Routing/Engine/Tests.antt =====
-- Runs of routing/age.ts and routing/engine.ts, and their theorems at concrete inputs.
use nestai.Prelude.{
  ℕ, ◌+◌, ◌*◌, ◌≤◌, ◌≡◌, ◌↔◌, ◌⊎◌, refl, inl, false, String, [], ◌∷◌, Option, none, some, arith,
  All, Some, here, str_eq, if◌then◌else◌, eq_iff,
}
use nestai.Prelude.Sorting.{sort_by}
use nestai.Prelude.Int.{pos, ◌+ℤ◌}
use nestai.Prelude.Results.{ok}
use nestai.Contracts.Enums.{TaskCategory, TaskUrgency}
use nestai.Contracts.Entities.{IsoDateTime, RoutingRule, TaskDraft}
use nestai.Core.Samples.{code_points, noon, kid, family}
use nestai.Core.Time.{date, day, epoch}
use nestai.Core.Calendar.{civil}
use nestai.Core.Routing.Age.{compute_age}
use nestai.Core.Routing.Age.Birthdays.{IsReached, compute_age_iff}
use nestai.Core.Routing.Engine.{
  RouteInput, RoutingDecision, route, collect, candidate, score_candidate, is_eligible,
  rule_matches_task, rule_applies_to_member, apply_rules, force_first, decide,
}
use nestai.Core.Routing.Engine.Decision.{CanTake, route-eligible, route-none_iff, route-confidence}
use nestai.Core.Routing.Engine.Forcing.{IsForced, IsTaker, route-IsForced}

-- The host reads one date here.
abbrev parse : String → Option IsoDateTime
parse text = if str_eq text "2012-01-01T00:00:00.000Z" then some (epoch + 15_340 * day) else none

routing : Unit {0}
unfolding route collect candidate score_candidate is_eligible rule_matches_task
    rule_applies_to_member apply_rules force_first decide compute_age civil sort_by ◌+ℤ◌
routing = tt

kid_is_14 : compute_age parse kid.birth_date (date noon) ≡ ok (some 14)
unfolding routing
kid_is_14 = refl

compute_age_iff_example :
    (age : ℕ) × (compute_age parse (some "2012-01-01") (date noon) ≡ ok (some age))
    × ((14 ≤ age) ↔ ((◌≡◌ {A = ℕ} 14 0) ⊎ IsReached 14 (civil (epoch + 15_340 * day)) (civil noon)))
compute_age_iff_example =
    compute_age_iff parse "2012-01-01" (epoch + 15_340 * day) noon 14
      (ground (arith, eq_iff "2012-01-01" "")) refl

abbrev soccer : TaskDraft
soccer = record {
  title = "Soccer pickup";
  description = none;
  due_at = none;
  urgency = TaskUrgency.high;
  category = TaskCategory.logistics;
  required_skills = [];
  min_age = some 14;
  max_age = none;
  requires_approval = false;
}

abbrev kid_helps : RoutingRule
kid_helps = record {
  id = "r1";
  household_id = "h-1";
  name = "Kid helps";
  match_category = some TaskCategory.logistics;
  match_skills = [];
  min_age = none;
  max_age = none;
  assign_to_member_id = some "kid";
  priority = pos 10;
}

abbrev request : RouteInput
request = record { task = soccer; members = family; rules = kid_helps ∷ []; now = date noon }

abbrev decision : RoutingDecision
decision = record {
  assigned_member_id = some "kid";
  confidence = 95;
  rationale =
      nestai.Core.Routing.Engine.assigned_because "kid"
        (nestai.Core.Routing.Engine.available_now
          ∷ nestai.Core.Routing.Engine.forced_by_rule "Kid helps" (pos 10)
          ∷ [])
        0;
  alternatives = some [];
}

-- Dad and mum have no birth date, so the task's least age rules them out.
route_runs : route code_points parse request ≡ ok decision
unfolding routing
route_runs = refl

route-eligible_example : Some (λ m. (m.id ≡ "kid") × CanTake parse request m) family
route-eligible_example = route-eligible code_points parse request decision "kid" route_runs refl

route-none_iff_example :
    (decision.assigned_member_id ≡ none) ↔ All (λ m. ¬ CanTake parse request m) family
route-none_iff_example = route-none_iff code_points parse request decision route_runs

route-confidence_example :
    ((decision.assigned_member_id ≡ none) × (decision.confidence ≡ 0))
    ⊎ ((id : String) × (decision.assigned_member_id ≡ some id)
        × (50 ≤ decision.confidence)
        × (decision.confidence ≤ 95))
route-confidence_example = route-confidence code_points parse request decision route_runs

kid_takes : Some (IsTaker code_points parse request kid_helps) family
unfolding routing
kid_takes = here (
  some 14,
  record {
    aged = refl;
    eligible = record { active = refl; skilled = tt; old_enough = omega arith; young_enough = tt };
  },
  refl,
)

route-IsForced_example : IsForced code_points parse request kid_helps decision
unfolding routing
route-IsForced_example =
    route-IsForced code_points parse request kid_helps decision route_runs (here refl) refl
      (inl refl, tt) (omega arith) kid_takes
