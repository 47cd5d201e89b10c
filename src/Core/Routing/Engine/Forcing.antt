-- ===== src/Core/Routing/Engine/Forcing.antt =====
-- engine.ts, route: a rule of the highest priority forces its member.
use nestai.Prelude.{
  ℕ, ◌≡◌, ◌⊎◌, refl, sym, subst, inl, inr, ap, true, false, String, List, [], ◌∷◌, Option, none,
  some, arith, All, Some, here, there, All-map, All-both, filter-All, filter-passes, filter-Some,
  any, filter, Bool-cases, All-Some, Some-⊥, Some-map,
}
use nestai.Prelude.Int.{pos, negsuc, ◌≤ℤ◌, ◌<ℤ◌, ◌+ℤ◌, +ℤ_parts}
use nestai.Prelude.Results.{ok}
use nestai.Prelude.Sorting.{IsSorted, sort_by-All, All-sort_by, sort_by-Some}
use nestai.Contracts.Entities.{Member, TaskDraft, IsoDateTime, RoutingRule}
use nestai.Core.Locale.{Locale}
use nestai.Core.Routing.Engine.{
  RouteInput, RoutingDecision, Candidate, candidate, decide, route, apply_rules, ranked_rules,
  before, force_first, force, applies, by_priority, rule_matches_task, rule_applies_to_member,
}
use nestai.Core.Routing.Engine.Candidates.{
  IsAble, IsGenuine, Collected, nil, keep, skip, score_candidate_bound,
}
use nestai.Core.Routing.Engine.Decision.{route-candidates, ranked, ranked-IsGenuine, same_age}
use nestai.Core.Routing.Engine.Ranking.{before-score, ranked-IsSorted, rules-IsSorted}

-- A rule outranks another rule of the task: its priority is higher.
abbrev pub Outranks : TaskDraft → RoutingRule → RoutingRule → Type 0
Outranks task rule r =
    (r ≡ rule) ⊎ (rule_matches_task r task ≡ false) ⊎ (r.priority <ℤ rule.priority)

priority_clash :
    (r y rule : RoutingRule) → by_priority r y ≡ true → y ≡ rule → r.priority <ℤ rule.priority → ⊥
priority_clash r y rule le e lt = ground arith

first_of_sorted :
    (rule : RoutingRule) (rs : List RoutingRule)
    → IsSorted by_priority rs
    → Some (λ r. r ≡ rule) rs
    → All (λ r. (r ≡ rule) ⊎ (r.priority <ℤ rule.priority)) rs
    → (rest : List RoutingRule) × (rs ≡ rule ∷ rest)
first_of_sorted rule [] sorted s lower = elim s [ ]
first_of_sorted rule (r ∷ rs) sorted s (inl e, lower) = (rs, ap (λ x. x ∷ rs) e)
first_of_sorted rule (r ∷ rs) sorted (here e) (inr lt, lower) = (rs, ap (λ x. x ∷ rs) e)
first_of_sorted rule (r ∷ rs) sorted (there s) (inr lt, lower) =
    absurd (Some-⊥ (All-Some rs (λ y le e. priority_clash r y rule le e lt) sorted.0 s))

-- What a candidate is after the rule has forced one: the forced one, or one with soft signals only.
abbrev Shape : RoutingRule → Candidate → Type 0
Shape rule c =
    ((c.forced_by ≡ some rule) × (applies rule c ≡ true) × (pos 64 ≤ℤ c.score))
    ⊎ ((c.forced_by ≡ none) × (c.score ≤ℤ pos 63))

abbrev IsPlain : Candidate → Type 0
IsPlain c = (c.forced_by ≡ none) × (c.score ≤ℤ pos 63) × (pos 0 ≤ℤ c.score)

force-Shape :
    (rule : RoutingRule) (c : Candidate)
    → negsuc 935 ≤ℤ rule.priority
    → applies rule c ≡ true
    → IsPlain c
    → Shape rule (force rule c) × (pos 64 ≤ℤ (force rule c).score)
force-Shape rule c strong a p =
    let high : pos 64 ≤ℤ (force rule c).score =
      omega
        (arith, +ℤ_parts c.score (pos 1000 +ℤ rule.priority), +ℤ_parts (pos 1000) rule.priority) in
    (inl (refl, a, high), high)

module _ (rule : RoutingRule) (strong : negsuc 935 ≤ℤ rule.priority) where
  force_first-Shape :
      (cs : List Candidate)
      → All IsPlain cs
      → any (applies rule) cs ≡ true
      → All (Shape rule) (force_first rule cs) × Some (λ c. pos 64 ≤ℤ c.score) (force_first rule cs)
  unfolding force_first
  force_first-Shape [] h e = cc
  force_first-Shape (c ∷ cs) h e = elim (Bool-cases (applies rule c)) [
    | inl a ↦
        let (shape, high) = force-Shape rule c strong a h.0 in
        rw a ((shape, All-map cs (λ x p. inr (p.0, p.1)) h.1), here high)
    | inr a ↦
        let (shapes, high) = force_first-Shape cs h.1 (ground arith) in
        rw a ((inr (h.0.0, h.0.1), shapes), there high)
  ]

module _ (locale : Locale) (parse : String → Option IsoDateTime) (input : RouteInput)
    (rule : RoutingRule) where
  -- The rule's own targeting admits a member that can take the task.
  abbrev pub IsTaker : Member → Type 0
  IsTaker m =
      (age : Option ℕ) × IsAble parse input.task input.now m age
      × (rule_applies_to_member rule m age ≡ true)

  Collected-IsPlain :
      {ms : List Member} {cs : List Candidate}
      → Collected parse input.task input.now ms cs
      → All IsPlain cs
  unfolding candidate
  Collected-IsPlain nil = tt
  Collected-IsPlain (keep {m} able r) = (
    (refl, ground (arith, score_candidate_bound m input.task), ground arith),
    Collected-IsPlain r,
  )
  Collected-IsPlain (skip aged barred r) = Collected-IsPlain r

  taker-applies :
      {ms : List Member} {cs : List Candidate}
      → Collected parse input.task input.now ms cs
      → Some IsTaker ms
      → any (applies rule) cs ≡ true
  unfolding candidate
  taker-applies nil s = elim s [ ]
  taker-applies (keep {m} {age} able r) (here t) =
      let same : age ≡ t.0 = ground (arith, able.aged, t.1.aged) in
      let applies_here : rule_applies_to_member rule m age ≡ true = rw same t.2 in ground arith
  taker-applies (keep {cs = cs} able r) (there s) = ground (arith, taker-applies r s)
  taker-applies (skip {age = age} aged barred r) (here t) =
      absurd (barred (same_age locale parse input t.1 age aged))
  taker-applies (skip aged barred r) (there s) = taker-applies r s

  ranked_rules-head :
      Some (λ r. r ≡ rule) input.rules
      → rule_matches_task rule input.task ≡ true
      → All (Outranks input.task rule) input.rules
      → (rest : List RoutingRule) × (ranked_rules input ≡ rule ∷ rest)
  ranked_rules-head listed matching first =
      let test = λ (r : RoutingRule). rule_matches_task r input.task in
      first_of_sorted rule (ranked_rules input) (rules-IsSorted (filter test input.rules))
        (sort_by-Some by_priority _ _ (filter-Some _ test (λ r e. rw e matching) listed))
        (sort_by-All by_priority _ _ (
          All-both (filter test input.rules) (λ r o passes. ground arith)
            (filter-All _ test input.rules first) (filter-passes test input.rules)))

  -- What the decision says when the rule has its way.
  abbrev pub IsForced : RoutingDecision → Type 0
  IsForced d =
      (id : String) × (d.assigned_member_id ≡ some id)
      × (d.confidence ≡ 95)
      × Some (λ m. (m.id ≡ id) × IsTaker m) input.members

  low_scores :
      (b : Candidate) (cs : List Candidate)
      → b.score ≤ℤ pos 63
      → All (λ c. before locale b c ≡ true) cs
      → All (λ c. c.score ≤ℤ pos 63) cs
  low_scores b cs low sorted = All-map cs (λ c e. omega (arith, before-score locale b c e)) sorted

  decide-IsForced :
      (cs : List Candidate)
      → All (Shape rule) cs
      → All (IsGenuine parse input.task input.now input.members) cs
      → IsSorted (before locale) cs
      → ¬ All (λ c. c.score ≤ℤ pos 63) cs
      → IsForced (decide cs)
  unfolding decide
  decide-IsForced [] shape genuine sorted high = absurd (high tt)
  decide-IsForced (b ∷ cs) (inr low, shapes) genuine sorted high =
      absurd (high (low.1, low_scores b cs low.1 sorted.0))
  decide-IsForced (b ∷ cs) (inl forced, shapes) genuine sorted high = (
    b.member.id,
    refl,
    ground arith,
    Some-map
        (λ m same.
          subst (λ x. (x.id ≡ b.member.id) × IsTaker x) (sym same)
            (refl, (b.age, genuine.0.able, forced.1)))
        genuine.0.listed,
  )

  high-not-low :
      (cs : List Candidate) → Some (λ c. pos 64 ≤ℤ c.score) cs → ¬ All (λ c. c.score ≤ℤ pos 63) cs
  high-not-low cs s h = Some-⊥ (All-Some cs (λ c low high. omega arith) h s)

  -- If a rule matches the task, outranks every other rule that does, has a priority of -936 or more,
  -- and targets a member that can take the task, then the decision assigns a member that the rule
  -- targets and that can take the task, with confidence 0.95, whatever the soft signals say.
  pub route-IsForced :
      (d : RoutingDecision)
      → route locale parse input ≡ ok d
      → Some (λ r. r ≡ rule) input.rules
      → rule_matches_task rule input.task ≡ true
      → All (Outranks input.task rule) input.rules
      → negsuc 935 ≤ℤ rule.priority
      → Some IsTaker input.members
      → IsForced d
  unfolding apply_rules
  route-IsForced d h listed matching first strong takers =
      let (cs, r, same) = route-candidates locale parse input d h in
      let (rest, head) = ranked_rules-head listed matching first in
      let some_applies = taker-applies r takers in
      let applied : apply_rules (ranked_rules input) cs ≡ force_first rule cs =
        rw (head, some_applies) refl in
      let (shapes, high) = force_first-Shape rule strong cs (Collected-IsPlain r) some_applies in
      rw same (
        decide-IsForced (ranked locale parse input cs)
          (sort_by-All (before locale) _ _ (rw applied shapes))
          (ranked-IsGenuine locale parse input r) (ranked-IsSorted locale _)
          (λ low. high-not-low _ high (rw applied at (All-sort_by (before locale) _ _ low))))
