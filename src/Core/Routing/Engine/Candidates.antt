-- ===== src/Core/Routing/Engine/Candidates.antt =====
-- engine.ts: the candidates stand for the eligible members, before and after the rules.
use nestai.Prelude.{
  ℕ, ◌≤◌, ◌≡◌, refl, subst, ap, inl, inr, String, List, [], ◌∷◌, Option, arith, All, Some, here,
  there, Bool-cases, any, All-map,
}
use nestai.Prelude.Results.{ok, >>=-eq-ok}
use nestai.Contracts.Entities.{Member, TaskDraft, IsoDateTime, RoutingRule}
use nestai.Core.Time.{Clock}
use nestai.Core.Routing.Age.{compute_age}
use nestai.Core.Routing.Engine.{
  Candidate, is_ok, is_eligible, collect, candidate, score_candidate, apply_rules, force_first,
  applies,
}
use nestai.Core.Routing.Engine.Eligibility.{
  IsEligible, is_eligible→IsEligible, IsEligible→is_eligible,
}

-- The soft signals add up to 63 at most.
pub score_candidate_bound : (m : Member) (task : TaskDraft) → (score_candidate m task).score ≤ 63
unfolding score_candidate
score_candidate_bound m task = ground arith

module _ (parse : String → Option IsoDateTime) (task : TaskDraft) (now : Clock) where
  -- The age that `computeAge` finds for the member makes it eligible.
  pub record IsAble (m : Member) (age : Option ℕ) : Type 0 where
    pub aged : compute_age parse m.birth_date now ≡ ok age
    pub eligible : IsEligible task age m

  -- The loop over the members, as a relation.
  pub data Collected : List Member → List Candidate → Type 0 where
    nil : Collected [] []
    keep :
        {m : Member} {age : Option ℕ} {ms : List Member} {cs : List Candidate}
        → IsAble m age
        → Collected ms cs
        → Collected (m ∷ ms) (candidate m task age ∷ cs)
    skip :
        {m : Member} {age : Option ℕ} {ms : List Member} {cs : List Candidate}
        → compute_age parse m.birth_date now ≡ ok age
        → ¬ IsEligible task age m
        → Collected ms cs
        → Collected (m ∷ ms) cs

  pub collect-Collected :
      (ms : List Member) (cs : List Candidate) → collect parse task now ms ≡ ok cs → Collected ms cs
  unfolding collect
  collect-Collected [] cs h = subst (Collected []) (ground arith) nil
  collect-Collected (m ∷ ms) cs h =
      let (age, aged, h') = >>=-eq-ok (compute_age parse m.birth_date now) _ h in
      let (rest, later, h'') = >>=-eq-ok (collect parse task now ms) _ h' in
      let tail = collect-Collected ms rest later in
      elim (Bool-cases (is_ok (is_eligible m task age))) [
        | inl e ↦
            let same : candidate m task age ∷ rest ≡ cs = ground arith in
            subst (Collected (m ∷ ms)) same
              (keep (record { aged = aged; eligible = is_eligible→IsEligible m task age e }) tail)
        | inr e ↦
            let same : rest ≡ cs = ground arith in
            subst (Collected (m ∷ ms)) same
              (skip aged (λ p. cc (ap is_ok (IsEligible→is_eligible m task age p))) tail)
      ]

  -- What a candidate stands for; forcing changes neither its member nor its age.
  pub record IsGenuine (pool : List Member) (c : Candidate) : Type 0 where
    pub listed : Some (λ m. m ≡ c.member) pool
    pub able : IsAble c.member c.age

  IsGenuine-tail :
      (m : Member) (ms : List Member) (c : Candidate) → IsGenuine ms c → IsGenuine (m ∷ ms) c
  IsGenuine-tail m ms c g = record { listed = there g.listed; able = g.able }

  pub Collected-IsGenuine :
      {ms : List Member} {cs : List Candidate} → Collected ms cs → All (IsGenuine ms) cs
  unfolding candidate
  Collected-IsGenuine nil = tt
  Collected-IsGenuine (keep {m} {ms = ms} {cs = cs} able r) = (
    record { listed = here refl; able = able },
    All-map cs (IsGenuine-tail m ms) (Collected-IsGenuine r),
  )
  Collected-IsGenuine (skip {m} {ms = ms} {cs = cs} aged barred r) =
      All-map cs (IsGenuine-tail m ms) (Collected-IsGenuine r)

  force_first-IsGenuine :
      (pool : List Member) (rule : RoutingRule) (cs : List Candidate)
      → All (IsGenuine pool) cs
      → All (IsGenuine pool) (force_first rule cs)
  unfolding force_first
  force_first-IsGenuine pool rule [] h = tt
  force_first-IsGenuine pool rule (c ∷ cs) h = elim (Bool-cases (applies rule c)) [
    | inl e ↦ rw e (record { listed = h.0.listed; able = h.0.able }, h.1)
    | inr e ↦ rw e (h.0, force_first-IsGenuine pool rule cs h.1)
  ]

  pub apply_rules-IsGenuine :
      (pool : List Member) (rules : List RoutingRule) (cs : List Candidate)
      → All (IsGenuine pool) cs
      → All (IsGenuine pool) (apply_rules rules cs)
  unfolding apply_rules
  apply_rules-IsGenuine pool [] cs h = h
  apply_rules-IsGenuine pool (rule ∷ rules) cs h = elim (Bool-cases (any (applies rule) cs)) [
    | inl e ↦ rw e (force_first-IsGenuine pool rule cs h)
    | inr e ↦ rw e (apply_rules-IsGenuine pool rules cs h)
  ]
