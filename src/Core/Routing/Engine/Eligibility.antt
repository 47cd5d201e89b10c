-- ===== src/Core/Routing/Engine/Eligibility.antt =====
-- engine.ts: who may be given a task, and the candidates that the router makes of them.
use nestai.Prelude.{
  ℕ, ◌≤◌, ◌≡◌, refl, inl, inr, true, String, List, [], ◌∷◌, Option, none, some, arith, All, Some,
  includes, includes→Some, Some→includes, Bool-cases,
}
use nestai.Contracts.Entities.{Member, TaskDraft}
use nestai.Core.Routing.Engine.{
  Verdict, eligible, is_ok, is_eligible, check_skills, check_min, check_max,
}

abbrev pub MeetsMin : Option ℕ → Option ℕ → Type 0
MeetsMin none age = Unit {0}
MeetsMin (some least) none = ⊥
MeetsMin (some least) (some age) = least ≤ age

abbrev pub MeetsMax : Option ℕ → Option ℕ → Type 0
MeetsMax none age = Unit {0}
MeetsMax (some most) none = ⊥
MeetsMax (some most) (some age) = age ≤ most

-- The hard constraints of a task: the member is active, has every required skill, and is of a known
-- age in the task's range wherever the task sets a bound.
pub record IsEligible (task : TaskDraft) (age : Option ℕ) (m : Member) : Type 0 where
  pub active : m.active ≡ true
  pub skilled : All (λ skill. Some (λ s. s ≡ skill) m.skills) task.required_skills
  pub old_enough : MeetsMin task.min_age age
  pub young_enough : MeetsMax task.max_age age

check_skills→All :
    (have skills : List String) (rest : Verdict)
    → is_ok (check_skills have skills rest) ≡ true
    → All (λ skill. Some (λ s. s ≡ skill) have) skills × (is_ok rest ≡ true)
check_skills→All have [] rest h = (tt, h)
check_skills→All have (skill ∷ skills) rest h = elim (Bool-cases (includes skill have)) [
  | inl e ↦
      let (later, end) = check_skills→All have skills rest (ground arith) in
      ((includes→Some skill have e, later), end)
  | inr e ↦ absurd (ground arith)
]

All→check_skills :
    (have skills : List String) (rest : Verdict)
    → All (λ skill. Some (λ s. s ≡ skill) have) skills
    → check_skills have skills rest ≡ rest
All→check_skills have [] rest h = refl
All→check_skills have (skill ∷ skills) rest h =
    ground (arith, Some→includes skill h.0, All→check_skills have skills rest h.1)

check_max→MeetsMax :
    (bound age : Option ℕ) → is_ok (check_max bound age) ≡ true → MeetsMax bound age
check_max→MeetsMax none age h = tt
check_max→MeetsMax (some most) none h = cc
check_max→MeetsMax (some most) (some age) h = ground arith

MeetsMax→check_max : (bound age : Option ℕ) → MeetsMax bound age → check_max bound age ≡ eligible
MeetsMax→check_max none age h = refl
MeetsMax→check_max (some most) none h = absurd h
MeetsMax→check_max (some most) (some age) h = ground arith

check_min→MeetsMin :
    (bound age : Option ℕ) (rest : Verdict)
    → is_ok (check_min bound age rest) ≡ true
    → MeetsMin bound age × (is_ok rest ≡ true)
check_min→MeetsMin none age rest h = (tt, h)
check_min→MeetsMin (some least) none rest h = cc
check_min→MeetsMin (some least) (some age) rest h = ground arith

MeetsMin→check_min :
    (bound age : Option ℕ) (rest : Verdict) → MeetsMin bound age → check_min bound age rest ≡ rest
MeetsMin→check_min none age rest h = refl
MeetsMin→check_min (some least) none rest h = absurd h
MeetsMin→check_min (some least) (some age) rest h = ground arith

pub is_eligible→IsEligible :
    (m : Member) (task : TaskDraft) (age : Option ℕ)
    → is_ok (is_eligible m task age) ≡ true
    → IsEligible task age m
unfolding is_eligible
is_eligible→IsEligible m task age h = elim (Bool-cases m.active) [
  | inl e ↦
      let (skilled, more) = check_skills→All m.skills task.required_skills _ (ground arith) in
      let (old, rest) = check_min→MeetsMin task.min_age age _ more in
      record {
        active = e;
        skilled = skilled;
        old_enough = old;
        young_enough = check_max→MeetsMax task.max_age age rest;
      }
  | inr e ↦ absurd (ground arith)
]

pub IsEligible→is_eligible :
    (m : Member) (task : TaskDraft) (age : Option ℕ)
    → IsEligible task age m
    → is_eligible m task age ≡ eligible
unfolding is_eligible
IsEligible→is_eligible m task age h =
    rw
      (
        h.active,
        All→check_skills m.skills task.required_skills _ h.skilled,
        MeetsMin→check_min task.min_age age _ h.old_enough,
      )
      (MeetsMax→check_max task.max_age age h.young_enough)
