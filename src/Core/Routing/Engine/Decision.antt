-- ===== src/Core/Routing/Engine/Decision.antt =====
-- engine.ts, route: whom a decision names, when it names nobody, and how confident it is.
use nestai.Prelude.{
  ℕ, ◌≤◌, ◌≡◌, ◌↔◌, ◌⊎◌, refl, sym, subst, ◌∙◌, Some-map, inl, inr, ap, String, List, [], ◌∷◌,
  Option, none, some, arith, All, Some,
}
use nestai.Prelude.Int.{◌+ℤ◌}
use nestai.Prelude.Results.{ok, >>=-eq-ok}
use nestai.Prelude.Sorting.{sort_by, IsSorted, sort_by-All, All-sort_by}
use nestai.Contracts.Entities.{Member, IsoDateTime, RoutingRule}
use nestai.Core.Locale.{Locale}
use nestai.Core.Routing.Age.{compute_age}
use nestai.Core.Routing.Engine.{
  RouteInput, RoutingDecision, Candidate, decide, route, collect, apply_rules, ranked_rules, before,
  force_first,
}
use nestai.Core.Routing.Engine.Candidates.{
  IsAble, IsGenuine, Collected, nil, keep, skip, collect-Collected, Collected-IsGenuine,
  apply_rules-IsGenuine,
}
use nestai.Core.Routing.Engine.Eligibility.{IsEligible}
use nestai.Core.Routing.Engine.Ranking.{before-score, ranked-IsSorted}

-- `m` has an age that makes it eligible.
abbrev pub CanTake : (String → Option IsoDateTime) → RouteInput → Member → Type 0
CanTake parse input m = (age : Option ℕ) × IsAble parse input.task input.now m age

module _ (locale : Locale) (parse : String → Option IsoDateTime) (input : RouteInput) where
  abbrev pub ranked : List Candidate → List Candidate
  ranked cs = sort_by (before locale) (apply_rules (ranked_rules input) cs)

  pub route-candidates :
      (d : RoutingDecision)
      → route locale parse input ≡ ok d
      → (cs : List Candidate) × Collected parse input.task input.now input.members cs
        × (d ≡ decide (ranked cs))
  unfolding route
  route-candidates d h =
      let (cs, collected, h') = >>=-eq-ok (collect parse input.task input.now input.members) _ h in
      (cs, collect-Collected parse input.task input.now input.members cs collected, ground arith)

  pub ranked-IsGenuine :
      {cs : List Candidate}
      → Collected parse input.task input.now input.members cs
      → All (IsGenuine parse input.task input.now input.members) (ranked cs)
  ranked-IsGenuine {cs} r = sort_by-All (before locale) _ _ (
      apply_rules-IsGenuine parse input.task input.now input.members (ranked_rules input) cs
        (Collected-IsGenuine parse input.task input.now r))

  decide-head :
      (cs : List Candidate) (id : String)
      → All (IsGenuine parse input.task input.now input.members) cs
      → (decide cs).assigned_member_id ≡ some id
      → Some (λ m. (m.id ≡ id) × CanTake parse input m) input.members
  unfolding decide
  decide-head [] id g e = cc
  decide-head (c ∷ cs) id g e =
      Some-map
        (λ m same.
          subst (λ x. (x.id ≡ id) × CanTake parse input x) (sym same)
            (ground arith, (c.age, g.0.able)))
        g.0.listed

  -- A member that `route` assigns is one of the members given, is active, has every required skill,
  -- and has an age, computed from its birth date, that the task's bounds admit.
  pub route-eligible :
      (d : RoutingDecision) (id : String)
      → route locale parse input ≡ ok d
      → d.assigned_member_id ≡ some id
      → Some (λ m. (m.id ≡ id) × CanTake parse input m) input.members
  route-eligible d id h e =
      let (cs, r, same) = route-candidates d h in
      decide-head (ranked cs) id (ranked-IsGenuine r)
        (ap (λ (x : RoutingDecision). x.assigned_member_id) (sym same) ∙ e)

  force_first-⊥ :
      (rule : RoutingRule) (cs : List Candidate)
      → All (λ c. ⊥) (force_first rule cs)
      → All (λ c. ⊥) cs
  unfolding force_first
  force_first-⊥ rule [] h = tt
  force_first-⊥ rule (c ∷ cs) h = ground arith

  apply_rules-⊥ :
      (rules : List RoutingRule) (cs : List Candidate)
      → All (λ c. ⊥) (apply_rules rules cs)
      → All (λ c. ⊥) cs
  unfolding apply_rules
  apply_rules-⊥ [] cs h = h
  apply_rules-⊥ (rule ∷ rules) cs h = ground (arith, force_first-⊥ rule cs, apply_rules-⊥ rules cs)

  decide-⊥ : (cs : List Candidate) → (decide cs).assigned_member_id ≡ none → All (λ c. ⊥) cs
  unfolding decide
  decide-⊥ [] e = tt
  decide-⊥ (c ∷ cs) e = cc

  pub same_age :
      {m : Member} {age : Option ℕ}
      → IsAble parse input.task input.now m age
      → (b : Option ℕ) → compute_age parse m.birth_date input.now ≡ ok b
      → IsEligible input.task b m
  same_age {m} {age} able b e =
      let same : age ≡ b = ground (arith, able.aged) in
      subst (λ a. IsEligible input.task a m) same able.eligible

  nobody :
      {ms : List Member} {cs : List Candidate}
      → Collected parse input.task input.now ms cs
      → All (λ c. ⊥) cs
      → All (λ m. ¬ CanTake parse input m) ms
  nobody nil h = tt
  nobody (keep able r) h = absurd h.0
  nobody (skip {age = age} aged barred r) h = ((λ p. barred (same_age p.1 age aged)), nobody r h)

  nobody-nil :
      {ms : List Member} {cs : List Candidate}
      → Collected parse input.task input.now ms cs
      → All (λ m. ¬ CanTake parse input m) ms
      → cs ≡ []
  nobody-nil nil h = refl
  nobody-nil (keep {age = age} able r) h = absurd (h.0 (age, able))
  nobody-nil (skip aged barred r) h = nobody-nil r h.1

  apply_rules-nil : (rules : List RoutingRule) → apply_rules rules [] ≡ []
  unfolding apply_rules
  apply_rules-nil [] = refl
  apply_rules-nil (rule ∷ rules) = apply_rules-nil rules

  -- A decision names nobody exactly when no member can take the task: none is active, skilled and
  -- of an age that the task's bounds admit.
  pub route-none_iff :
      (d : RoutingDecision)
      → route locale parse input ≡ ok d
      → (d.assigned_member_id ≡ none) ↔ All (λ m. ¬ CanTake parse input m) input.members
  unfolding decide sort_by
  route-none_iff d h =
      let (cs, r, same) = route-candidates d h in
      (
        (λ e. nobody r (
            apply_rules-⊥ (ranked_rules input) cs (
              All-sort_by (before locale) (λ c. ⊥) _
                (decide-⊥ (ranked cs)
                  (ap (λ (x : RoutingDecision). x.assigned_member_id) (sym same) ∙ e))))),
        (λ k. rw (same, nobody-nil r k, apply_rules-nil (ranked_rules input))),
      )

  decide-confidence :
      (cs : List Candidate)
      → IsSorted (before locale) cs
      → (((decide cs).assigned_member_id ≡ none) × ((decide cs).confidence ≡ 0))
        ⊎ ((id : String) × ((decide cs).assigned_member_id ≡ some id)
            × (50 ≤ (decide cs).confidence)
            × ((decide cs).confidence ≤ 95))
  unfolding decide ◌+ℤ◌
  decide-confidence [] s = inl (refl, refl)
  decide-confidence (c ∷ []) s = inr (c.member.id, refl, ground arith, ground arith)
  decide-confidence (c ∷ b ∷ cs) s =
      inr (c.member.id, refl, ground (arith, before-score locale c b s.0.0), ground arith)

  -- A decision that names nobody has confidence 0; one that assigns a member has a confidence from
  -- 0.50 to 0.95, since the best score is never below the next.
  pub route-confidence :
      (d : RoutingDecision)
      → route locale parse input ≡ ok d
      → ((d.assigned_member_id ≡ none) × (d.confidence ≡ 0))
        ⊎ ((id : String) × (d.assigned_member_id ≡ some id)
            × (50 ≤ d.confidence)
            × (d.confidence ≤ 95))
  route-confidence d h =
      let (cs, r, same) = route-candidates d h in
      rw same (decide-confidence (ranked cs) (ranked-IsSorted locale _))
