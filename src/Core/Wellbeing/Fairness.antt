-- ===== src/Core/Wellbeing/Fairness.antt =====
-- wellbeing.ts, computeLoadEquity: the entries.
use mathlib.Core.List.Perm
use mathlib.Core.Path.{ap₂}
use native.Mathlib.Nat.{mul-div-le, lt-mul-div-succ, mul-le-mul_left, le_of_mul-le-mul_left}
use nestai.Prelude.{
  ℕ, ◌+◌, ◌*◌, ◌≤◌, ◌<◌, ◌≡◌, ◌≢◌, refl, true, false, List, [], ◌∷◌, Option, String, arith, All,
  Some, here, there, All-map, ◌==◌, if◌then◌else◌, map, Perm, subst, ltb,
}
use nestai.Prelude.Doubles.{
  Double, quotient, times, round, quotient-IsNear, times-above, times-below,
}
use nestai.Prelude.Sorting.{IsSorted, sort_by-All, sort_by-perm, sort_by-IsSorted}
use nestai.Contracts.Enums.{TaskCategory}
use nestai.Contracts.Entities.{Member, Task, LoadEquity}
use nestai.Core.Locale.{Locale}
use nestai.Core.Wellbeing.Equity.{
  share, capped, lookup, load_of, init_loads, categories_of, equity_entry, larger_share, loads_of,
  compute_load_equity,
}
use nestai.Core.Wellbeing.Loads.{
  weight_assigned, weight_total, init_loads-member, init_loads-keys, count_tasks-load,
  count_tasks-total, weight_assigned-le,
}

-- 2 ^ 50.
abbrev fine : ℕ
fine = 1_125_899_906_842_624

-- The share `n` of `part` in `whole`, in tenths of a per cent, is within half a tenth of the
-- quotient, up to one part in 2 ^ 50 of it; it is zero where there is no whole.
abbrev pub IsShare : ℕ → ℕ → ℕ → Type 0
IsShare n part whole =
    (whole ≡ 0 → n ≡ 0)
    × (0 < whole
        → (fine * (2 * (whole * n)) ≤ fine * (2000 * part + whole) + 2000 * part)
          × (fine * (2000 * part) ≤ fine * (2 * (whole * n) + whole) + 2000 * part))

capped-eq : (x : Double) → x.num ≤ 100 * x.den → capped x ≡ x
unfolding capped
capped-eq x h = rw (exact) refl
  where
    exact : ltb (100 * x.den) x.num ≡ false
    exact = ground arith

-- An integer nearest to `x` is nearest to the quotient which `x` is near.
round-nearest :
    (part whole : ℕ) (x : Double)
    → 0 < x.den
    → fine * (x.num * whole) ≤ (fine + 1) * (1000 * part * x.den)
    → 1_125_899_906_842_623 * (1000 * part * x.den) ≤ fine * (x.num * whole)
    → (fine * (2 * (whole * round x)) ≤ fine * (2000 * part + whole) + 2000 * part)
      × (fine * (2000 * part) ≤ fine * (2 * (whole * round x) + whole) + 2000 * part)
round-nearest part whole x pos above below =
    let low = mul-le-mul_left (fine * whole) (mul-div-le (2 * x.num + x.den) (2 * x.den)) in
    let over = lt-mul-div-succ (2 * x.num + x.den) {b = 2 * x.den} (omega (arith, pos)) in
    let next : 2 * x.num ≤ 2 * x.den * round x + x.den = omega (arith, over) in
    let high = mul-le-mul_left (fine * whole) next in
    (
      le_of_mul-le-mul_left {k = x.den} (omega (arith, low, above)) pos,
      le_of_mul-le-mul_left {k = x.den} (omega (arith, high, below)) pos,
    )

nearest :
    (part whole : ℕ)
    → part ≤ whole
    → 0 < whole
    → (fine * (2 * (whole * share part whole)) ≤ fine * (2000 * part + whole) + 2000 * part)
      × (fine * (2000 * part) ≤ fine * (2 * (whole * share part whole) + whole) + 2000 * part)
unfolding share
nearest part whole h pos =
    let one : Double = quotient part whole in
    let near = quotient-IsNear part whole pos in
    let hundred : Double = times 100 one in
    let nearer = quotient-IsNear (100 * one.num) one.den near.positive in
    let within = near.capped 1 (omega (arith, h)) in
    let kept = nearer.capped 100 (omega (arith, within)) in
    let last : Double = times 10 hundred in
    let nearest = quotient-IsNear (10 * hundred.num) hundred.den nearer.positive in
    let up =
      times-above _ 0 _ (100 * part) whole 10 hundred last nearer.positive nearest
        (times-above _ 0 _ part whole 100 one hundred near.positive nearer near.above) in
    let down =
      times-below 0 _ _ (100 * part) whole 10 hundred last nearer.positive nearest
        (times-below 0 _ _ part whole 100 one hundred near.positive nearer near.below) in
    rw (capped-eq hundred kept)
      (round-nearest part whole last nearest.positive (omega (arith, up)) (omega (arith, down)))

share-IsShare :
    (part whole : ℕ)
    → part ≤ whole
    → IsShare (if whole == 0 then 0 else share part whole) part whole
share-IsShare part whole h =
    (λ e. ground arith, λ pos. rw (not_zero pos) (nearest part whole h pos))
  where
    not_zero : 0 < whole → (whole == 0) ≡ false
    not_zero pos = ground arith

-- The entry's load is the weight of the member's tasks, and its share that of the load in the total
-- weight of the members' tasks.
pub record IsFair (cs : List TaskCategory) (ms : List Member) (ts : List Task) (e : LoadEquity)
    : Type 0 where
  pub weighed : e.task_load ≡ weight_assigned cs e.member_id ts
  pub rounded : IsShare e.share_pct (weight_assigned cs e.member_id ts) (weight_total cs ms ts)

larger_share_total :
    (locale : Locale) (a b : LoadEquity)
    → larger_share locale a b ≡ false
    → larger_share locale b a ≡ true
larger_share_total locale a b h = ground (arith, locale.le_total a.member_id b.member_id)

larger_share_trans :
    (locale : Locale) (a b c : LoadEquity)
    → larger_share locale a b ≡ true
    → larger_share locale b c ≡ true
    → larger_share locale a c ≡ true
larger_share_trans locale a b c h k =
    ground (arith, locale.le_trans a.member_id b.member_id c.member_id)

map-All :
    {A B : Type 0} (P : B → Type 0) (f : A → B) (xs : List A)
    → All (λ x. P (f x)) xs
    → All P (map f xs)
map-All P f [] h = tt
map-All P f (x ∷ xs) (h, rest) = (h, map-All P f xs rest)

map-map-eq :
    {A B C : Type 0} (f : A → B) (g : B → C) (h : A → C)
    → ((x : A) → g (f x) ≡ h x)
    → (xs : List A) → map g (map f xs) ≡ map h xs
map-map-eq f g h e [] = refl
map-map-eq f g h e (x ∷ xs) = ap₂ (◌∷◌) (e x) (map-map-eq f g h e xs)

module _ (locale : Locale) (members : List Member) (tasks : List Task)
    (categories : Option (List TaskCategory)) (given : All (λ m. m.id ≢ "") members) where
  abbrev cs : List TaskCategory
  cs = categories_of categories

  total-weight : (loads_of members tasks categories).1 ≡ weight_total cs members tasks
  unfolding loads_of lookup
  total-weight = ground (
    arith,
    count_tasks-total cs members given tasks (init_loads members [], 0)
        (λ a. init_loads-keys a members []),
  )

  load-weight :
      (id : String)
      → id ≢ ""
      → Some (λ m. m.id ≡ id) members
      → load_of id (loads_of members tasks categories).0 ≡ weight_assigned cs id tasks
  unfolding loads_of
  load-weight id named s = ground (
    arith,
    count_tasks-load cs id named tasks (init_loads members [], 0) 0 (init_loads-member id [] s),
  )

  entry-IsFair :
      (m : Member)
      → m.id ≢ ""
      → Some (λ x. x.id ≡ m.id) members
      → IsFair cs members tasks (equity_entry (loads_of members tasks categories) m)
  entry-IsFair m named s = record {
    weighed = load-weight m.id named s;
    rounded =
        rw (total-weight, load-weight m.id named s)
          (share-IsShare (weight_assigned cs m.id tasks) (weight_total cs members tasks)
            (weight_assigned-le cs m.id members tasks s));
  }

  entries-IsFair :
      (ms : List Member)
      → All (λ m. m.id ≢ "") ms
      → All (λ m. Some (λ x. x.id ≡ m.id) members) ms
      → All (λ m. IsFair cs members tasks (equity_entry (loads_of members tasks categories) m)) ms
  entries-IsFair [] n s = tt
  entries-IsFair (m ∷ ms) (n, ns) (s, ss) = (entry-IsFair m n s, entries-IsFair ms ns ss)

  -- Each member of the family, none of whose ids is empty, has one entry. The load of an entry is
  -- the total weight of the member's tasks in the categories, and its share is the load's part of
  -- the weight of all members' such tasks, in tenths of a per cent and rounded to the nearest one,
  -- up to the rounding of the doubles, one part in 2 ^ 50 of it. The entries are sorted by their shares, the largest first, and equal ones by the ids.
  pub compute_load_equity-IsFair :
      All
        (IsFair (categories_of categories) members tasks)
        (compute_load_equity locale members tasks categories)
      × Perm
          (map (λ e. e.member_id) (compute_load_equity locale members tasks categories))
          (map (λ m. m.id) members)
      × IsSorted (larger_share locale) (compute_load_equity locale members tasks categories)
  unfolding compute_load_equity
  compute_load_equity-IsFair = (
    sort_by-All (larger_share locale) _ _
        (map-All _ _ members (entries-IsFair members given (all_members members))),
    subst
        (λ ids.
          Perm (map (λ e. e.member_id) (compute_load_equity locale members tasks categories)) ids)
        (map-map-eq (equity_entry (loads_of members tasks categories)) (λ e. e.member_id)
          (λ m. m.id) (λ m. refl) members)
        (Perm.map (λ e. e.member_id) (sort_by-perm (larger_share locale) _)),
    sort_by-IsSorted (larger_share locale) (larger_share_total locale) (larger_share_trans locale)
        _,
  )
    where
      all_members : (ms : List Member) → All (λ m. Some (λ x. x.id ≡ m.id) ms) ms
      all_members [] = tt
      all_members (m ∷ ms) = (here refl, All-map ms (λ x s. there s) (all_members ms))
