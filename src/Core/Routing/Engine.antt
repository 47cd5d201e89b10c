-- ===== src/Core/Routing/Engine.antt =====
-- packages/core/src/routing/engine.ts. A rationale that the code builds as a text is a constructor
-- over the values that it interpolates; confidences are in hundredths.
pub mod Eligibility
pub mod Candidates
pub mod Ranking
pub mod Decision
pub mod Forcing
mod Tests
use nestai.Prelude.{
  ℕ, zero, suc, ◌+◌, ◌-◌, ◌*◌, min, max, Bool, true, false, not, ◌&&◌, ◌||◌, String, List, [], ◌∷◌,
  ◌++◌, Option, none, some, ltb, leb, ◌==◌, str_eq, if◌then◌else◌, includes, filter, map, all, any,
  length,
}
use nestai.Prelude.Int.{ℤ, pos, negsuc, pos_part, neg_part, sub_ℕ, ◌+ℤ◌, leb_ℤ, ltb_ℤ, eq_ℤ}
use nestai.Prelude.Results.{Result, ok, throw, ◌>>=◌}
use nestai.Prelude.Sorting.{sort_by}
use nestai.Contracts.Enums.{TaskCategory, AvailabilityState, same_category, is_head}
use nestai.Contracts.Entities.{IsoDateTime, Member, RoutingRule, TaskDraft}
use nestai.Core.Locale.{Locale}
use nestai.Core.Time.{Clock}
use nestai.Core.Routing.Age.{compute_age}

pub record RouteInput : Type 0 where
  pub task : TaskDraft
  pub members : List Member
  pub rules : List RoutingRule
  pub now : Clock

pub data Reason : Type 0 where
  available_now : Reason
  travelling : Reason
  busy : Reason
  driving_for_category : Reason
  matches_skills : (count bonus : ℕ) → Reason
  head_handles : Reason
  forced_by_rule : (name : String) → (priority : ℤ) → Reason

pub record Candidate : Type 0 where
  pub member : Member
  pub age : Option ℕ
  pub score : ℤ
  pub reasons : List Reason
  pub forced_by : Option RoutingRule

pub data Verdict : Type 0 where
  eligible : Verdict
  inactive : Verdict
  missing_skill : String → Verdict
  age_unknown : Verdict
  under_min_age : ℕ → Verdict
  over_max_age : ℕ → Verdict

abbrev pub is_ok : Verdict → Bool
is_ok eligible = true
is_ok _ = false

abbrev check_max : Option ℕ → Option ℕ → Verdict
check_max none age = eligible
check_max (some most) none = age_unknown
check_max (some most) (some age) = if ltb most age then over_max_age most else eligible

abbrev check_min : Option ℕ → Option ℕ → Verdict → Verdict
check_min none age rest = rest
check_min (some least) none rest = age_unknown
check_min (some least) (some age) rest = if ltb age least then under_min_age least else rest

-- The loop over the required skills.
abbrev check_skills : List String → List String → Verdict → Verdict
check_skills have [] rest = rest
check_skills have (skill ∷ skills) rest =
    if includes skill have then check_skills have skills rest else missing_skill skill

unfoldable pub is_eligible : Member → TaskDraft → Option ℕ → Verdict
is_eligible m task age =
    if not m.active
    then inactive
    else check_skills m.skills task.required_skills
        (check_min task.min_age age (check_max task.max_age age))

abbrev matches_category : Option TaskCategory → TaskCategory → Bool
matches_category none c = true
matches_category (some wanted) c = same_category wanted c

unfoldable pub rule_matches_task : RoutingRule → TaskDraft → Bool
rule_matches_task rule task =
    matches_category rule.match_category task.category
    && all (λ skill. includes skill task.required_skills) rule.match_skills

abbrev at_least : Option ℕ → Option ℕ → Bool
at_least none age = true
at_least (some least) none = false
at_least (some least) (some age) = leb least age

abbrev at_most : Option ℕ → Option ℕ → Bool
at_most none age = true
at_most (some most) none = false
at_most (some most) (some age) = leb age most

abbrev is_target : Option String → String → Bool
is_target none id = true
is_target (some wanted) id = str_eq wanted id

unfoldable pub rule_applies_to_member : RoutingRule → Member → Option ℕ → Bool
rule_applies_to_member rule m age =
    all (λ skill. includes skill m.skills) rule.match_skills
    && at_least rule.min_age age
    && at_most rule.max_age age
    && is_target rule.assign_to_member_id m.id

pub record Score : Type 0 where
  pub score : ℕ
  pub reasons : List Reason

abbrev availability_score : AvailabilityState → Score
availability_score AvailabilityState.available = record { score = 30; reasons = available_now ∷ [] }
availability_score AvailabilityState.travel = record { score = 5; reasons = travelling ∷ [] }
availability_score AvailabilityState.busy = record { score = 0; reasons = busy ∷ [] }

abbrev needs_driving : TaskCategory → Bool
needs_driving TaskCategory.logistics = true
needs_driving TaskCategory.errand = true
needs_driving TaskCategory.school = true
needs_driving _ = false

abbrev is_admin : TaskCategory → Bool
is_admin TaskCategory.admin = true
is_admin _ = false

abbrev driving_score : Member → TaskDraft → Score
driving_score m task =
    if m.driving_privileges && needs_driving task.category
    then record { score = 15; reasons = driving_for_category ∷ [] }
    else record { score = 0; reasons = [] }

abbrev skill_score : ℕ → Score
skill_score zero = record { score = 0; reasons = [] }
skill_score (suc n) = record {
  score = min 10 (suc n * 5);
  reasons = matches_skills (suc n) (min 10 (suc n * 5)) ∷ [];
}

abbrev head_score : Member → TaskDraft → Score
head_score m task =
    if is_head m.role && (is_admin task.category || task.requires_approval)
    then record { score = 8; reasons = head_handles ∷ [] }
    else record { score = 0; reasons = [] }

infixl 65 ◌⊕◌
abbrev ◌⊕◌ : Score → Score → Score
a ⊕ b = record { score = a.score + b.score; reasons = a.reasons ++ b.reasons }

unfoldable pub score_candidate : Member → TaskDraft → Score
score_candidate m task =
    availability_score m.availability_state
    ⊕ driving_score m task
    ⊕ skill_score (length (filter (λ s. includes s task.required_skills) m.skills))
    ⊕ head_score m task

unfoldable pub candidate : Member → TaskDraft → Option ℕ → Candidate
candidate m task age =
    let s : Score = score_candidate m task in
    record { member = m; age = age; score = pos s.score; reasons = s.reasons; forced_by = none }

-- The loop over the members.
unfoldable pub collect :
    (String → Option IsoDateTime) → TaskDraft → Clock → List Member → Result (List Candidate)
collect parse task now [] = ok []
collect parse task now (m ∷ ms) = do
  age ← compute_age parse m.birth_date now
  rest ← collect parse task now ms
  ok (if is_ok (is_eligible m task age) then candidate m task age ∷ rest else rest)

abbrev pub applies : RoutingRule → Candidate → Bool
applies rule c = rule_applies_to_member rule c.member c.age

abbrev pub force : RoutingRule → Candidate → Candidate
force rule c = record c {
  score = c.score +ℤ (pos 1000 +ℤ rule.priority);
  reasons = c.reasons ++ forced_by_rule rule.name rule.priority ∷ [];
  forced_by = some rule;
}

-- The candidate that `find` returns is changed in place.
unfoldable pub force_first : RoutingRule → List Candidate → List Candidate
force_first rule [] = []
force_first rule (c ∷ cs) = if applies rule c then force rule c ∷ cs else c ∷ force_first rule cs

-- The loop over the rules breaks at the first that finds a candidate.
unfoldable pub apply_rules : List RoutingRule → List Candidate → List Candidate
apply_rules [] cs = cs
apply_rules (rule ∷ rules) cs =
    if any (applies rule) cs then force_first rule cs else apply_rules rules cs

abbrev pub by_priority : RoutingRule → RoutingRule → Bool
by_priority a b = leb_ℤ b.priority a.priority

-- The comparator: higher scores first, ties by member id.
abbrev pub before : Locale → Candidate → Candidate → Bool
before locale a b =
    if eq_ℤ a.score b.score then locale.le a.member.id b.member.id else ltb_ℤ b.score a.score

pub record Alternative : Type 0 where
  pub member_id : String
  pub score : ℤ

pub data Rationale : Type 0 where
  no_eligible_member : Rationale
  assigned_because : (display_name : String) → List Reason → (alternatives : ℕ) → Rationale

pub record RoutingDecision : Type 0 where
  pub assigned_member_id : Option String
  pub confidence : ℕ
  pub rationale : Rationale
  pub alternatives : Option (List Alternative)

abbrev min_ℤ : ℤ → ℤ → ℤ
min_ℤ a b = if leb_ℤ a b then a else b

-- The gap between the best score and the next.
abbrev gap : ℤ → ℤ → ℤ
gap a b = sub_ℕ (pos_part a + neg_part b) (neg_part a + pos_part b)

abbrev confidence_of : Candidate → List Candidate → ℤ
confidence_of best rest = elim best.forced_by [
  | some rule ↦ pos 95
  | none ↦ elim rest [
    | [] ↦ pos 90
    | second ∷ others ↦ min_ℤ (pos 90) (pos 50 +ℤ gap best.score second.score)
  ]
]

unfoldable pub decide : List Candidate → RoutingDecision
decide [] = record {
  assigned_member_id = none;
  confidence = 0;
  rationale = no_eligible_member;
  alternatives = none;
}
decide (best ∷ rest) = record {
  assigned_member_id = some best.member.id;
  confidence = min 100 (pos_part (confidence_of best rest));
  rationale = assigned_because best.member.display_name best.reasons (length rest);
  alternatives = some (map (λ c. record { member_id = c.member.id; score = c.score }) rest);
}

-- The rules that match the task, in descending priority.
abbrev pub ranked_rules : RouteInput → List RoutingRule
ranked_rules input = sort_by by_priority (filter (λ r. rule_matches_task r input.task) input.rules)

unfoldable pub route : Locale → (String → Option IsoDateTime) → RouteInput → Result RoutingDecision
route locale parse input = do
  candidates ← collect parse input.task input.now input.members
  ok (decide (sort_by (before locale) (apply_rules (ranked_rules input) candidates)))
