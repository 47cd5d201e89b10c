-- ===== src/Core/Wellbeing/Loads.antt =====
-- wellbeing.ts, computeLoadEquity: the loads are the weights of the tasks.
use nestai.Prelude.{
  ℕ, ◌+◌, ◌≤◌, ◌≡◌, ◌≢◌, refl, ap, ◌∙◌, inl, inr, Bool, false, ◌&&◌, ◌||◌, List, [], ◌∷◌, none,
  some, String, arith, All, Some, here, there, Some-map, any, Some→any, Bool-cases, Option-cases,
  str_eq, str_eq→eq, eq_iff, if◌then◌else◌,
}
use nestai.Contracts.Enums.{TaskCategory}
use nestai.Contracts.Entities.{Member, Task}
use nestai.Core.Wellbeing.Equity.{
  urgency_weight, Loads, lookup, put, load_of, has, init_loads, in_categories, count_task,
  count_tasks,
}

lookup-put :
    (k j : String) (v : ℕ) (m : Loads)
    → lookup j (put k v m) ≡ (if str_eq k j then some v else lookup j m)
unfolding lookup put
lookup-put k j v [] = refl
lookup-put k j v ((i, w) ∷ m) =
    ground (arith, eq_iff k j, eq_iff i k, eq_iff i j, lookup-put k j v m)

init_loads-zero :
    (id : String) (ms : List Member) (m : Loads)
    → lookup id m ≡ some 0
    → lookup id (init_loads ms m) ≡ some 0
unfolding init_loads
init_loads-zero id [] m h = h
init_loads-zero id (x ∷ xs) m h =
    init_loads-zero id xs (put x.id 0 m) (ground (arith, lookup-put x.id id 0 m))

pub init_loads-member :
    (id : String) {ms : List Member} (m : Loads)
    → Some (λ x. x.id ≡ id) ms
    → lookup id (init_loads ms m) ≡ some 0
unfolding init_loads
init_loads-member id m (here {x} {xs} e) =
    init_loads-zero id xs (put x.id 0 m) (ground (arith, lookup-put x.id id 0 m, eq_iff x.id id))
init_loads-member id m (there {x} s) = init_loads-member id (put x.id 0 m) s

-- `task.assignedMemberId === id`.
abbrev pub is_assigned : String → Task → Bool
is_assigned id task = elim task.assigned_member_id [ none ↦ false | some a ↦ str_eq a id ]

-- The weight of the tasks of the categories that are assigned to the member.
unfoldable pub weight_assigned : List TaskCategory → String → List Task → ℕ
weight_assigned cs id [] = 0
weight_assigned cs id (t ∷ ts) =
    (if in_categories cs t && is_assigned id t then urgency_weight t.urgency else 0)
    + weight_assigned cs id ts

-- The weight of those that are assigned to any of the members.
unfoldable pub weight_total : List TaskCategory → List Member → List Task → ℕ
weight_total cs ms [] = 0
weight_total cs ms (t ∷ ts) =
    (if in_categories cs t && any (λ m. is_assigned m.id t) ms then urgency_weight t.urgency else 0)
    + weight_total cs ms ts

module _ (cs : List TaskCategory) (id : String) (given : id ≢ "") where
  count_task-load :
      (t : Task) (st : Loads × ℕ) (v : ℕ)
      → lookup id st.0 ≡ some v
      → lookup id (count_task cs t st).0
        ≡ some
            (v + (if in_categories cs t && is_assigned id t then urgency_weight t.urgency else 0))
  unfolding count_task
  count_task-load t (loads, total) v h = elim (Option-cases t.assigned_member_id) [
    | inl e ↦ rw e (ground arith)
    | inr (a, e) ↦ rw e (elim (Bool-cases (str_eq a "")) [
      | inl f ↦ ground (arith, eq_iff a "", eq_iff a id)
      | inr f ↦
          ground
            (arith, eq_iff a id, lookup-put a id (load_of a loads + urgency_weight t.urgency) loads)
    ])
  ]

  pub count_tasks-load :
      (ts : List Task) (st : Loads × ℕ) (v : ℕ)
      → lookup id st.0 ≡ some v
      → lookup id (count_tasks cs ts st).0 ≡ some (v + weight_assigned cs id ts)
  unfolding count_tasks weight_assigned
  count_tasks-load [] st v h = ground arith
  count_tasks-load (t ∷ ts) st v h =
      ground (arith, count_tasks-load ts (count_task cs t st) _ (count_task-load t st v h))

-- The map's keys are the members' ids.
abbrev HasKeys : List Member → Loads → Type 0
HasKeys ms loads = (a : String) → has a loads ≡ any (λ m. str_eq a m.id) ms

pub init_loads-keys :
    (a : String) (ms : List Member) (m : Loads)
    → has a (init_loads ms m) ≡ (has a m || any (λ x. str_eq a x.id) ms)
unfolding init_loads
init_loads-keys a [] m = ground arith
init_loads-keys a (x ∷ xs) m = ground (
  arith,
  init_loads-keys a xs (put x.id 0 m),
  lookup-put x.id a 0 m,
  eq_iff x.id a,
  eq_iff a x.id,
)

any_never : (ms : List Member) → any (λ m. false) ms ≡ false
any_never [] = refl
any_never (m ∷ ms) = any_never ms

any_empty : (ms : List Member) → All (λ m. m.id ≢ "") ms → any (λ m. str_eq "" m.id) ms ≡ false
any_empty [] given = refl
any_empty (m ∷ ms) (h, given) = ground (arith, eq_iff "" m.id, any_empty ms given)

module _ (cs : List TaskCategory) (ms : List Member) (given : All (λ m. m.id ≢ "") ms) where
  count_task-keys :
      (t : Task) (st : Loads × ℕ) → HasKeys ms st.0 → HasKeys ms (count_task cs t st).0
  unfolding count_task
  count_task-keys t (loads, total) h a = elim (Option-cases t.assigned_member_id) [
    | inl e ↦ rw e (ground (arith, h a))
    | inr (b, e) ↦ rw e (elim (Bool-cases (str_eq b "")) [
      | inl f ↦ ground (arith, h a)
      | inr f ↦ ground (
        arith,
        h a,
        h b,
        eq_iff b a,
        lookup-put b a (load_of b loads + urgency_weight t.urgency) loads,
      )
    ])
  ]

  count_task-total :
      (t : Task) (st : Loads × ℕ)
      → HasKeys ms st.0
      → (count_task cs t st).1
        ≡ st.1
          + (if in_categories cs t && any (λ m. is_assigned m.id t) ms
              then urgency_weight t.urgency
              else 0)
  unfolding count_task
  count_task-total t (loads, total) h = elim (Option-cases t.assigned_member_id) [
    | inl e ↦ rw e (rw (any_never ms) (ground arith))
    | inr (a, e) ↦ rw e (elim (Bool-cases (str_eq a "")) [
      | inl f ↦ rw (str_eq→eq a "" f) (rw (any_empty ms given) (ground arith))
      | inr f ↦ ground (arith, h a)
    ])
  ]

  pub count_tasks-total :
      (ts : List Task) (st : Loads × ℕ)
      → HasKeys ms st.0
      → (count_tasks cs ts st).1 ≡ st.1 + weight_total cs ms ts
  unfolding count_tasks weight_total
  count_tasks-total [] st h = ground arith
  count_tasks-total (t ∷ ts) st h = ground (
    arith,
    count_tasks-total ts (count_task cs t st) (count_task-keys t st h),
    count_task-total t st h,
  )

pub weight_assigned-le :
    (cs : List TaskCategory) (id : String) (ms : List Member) (ts : List Task)
    → Some (λ m. m.id ≡ id) ms
    → weight_assigned cs id ts ≤ weight_total cs ms ts
unfolding weight_assigned weight_total
weight_assigned-le cs id ms [] s = ground arith
weight_assigned-le cs id ms (t ∷ ts) s = elim (Bool-cases (is_assigned id t)) [
  | inl e ↦
      rw
        (Some→any (λ m. is_assigned m.id t)
          (Some-map (λ m (f : m.id ≡ id). ap (λ i. is_assigned i t) f ∙ e) s))
        (ground (arith, weight_assigned-le cs id ms ts s))
  | inr e ↦ ground (arith, weight_assigned-le cs id ms ts s)
]
