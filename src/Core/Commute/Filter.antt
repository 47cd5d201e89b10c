-- ===== src/Core/Commute/Filter.antt =====
-- commute.ts, filterByCommute: who can reach the pickup in time.
use mathlib.Core.List.{perm_middle}
use mathlib.Core.List.Perm
use nestai.Prelude.{
  ℕ, ◌+◌, ◌*◌, ◌≤◌, ◌≡◌, ◌⊎◌, refl, inl, inr, true, false, not, ◌&&◌, List, [], ◌∷◌, ◌++◌, Option,
  none, some, arith, All, Bool-cases, map, Perm,
}
use nestai.Prelude.Int.{pos, ltb_ℤ}
use nestai.Prelude.Results.{ok}
use nestai.Contracts.Entities.{Member}
use nestai.Core.Time.{Clock, date, minute, floor_diff, diff_minutes}
use nestai.Core.Commute.{
  within_budget, put_in, CommuteFilterInput, CommuteFilterResult, Obstacle, obstacle,
  filter_members, filter_by_commute,
}

abbrev clock_of : Option ℕ → Option Clock
clock_of none = none
clock_of (some t) = some (date t)

-- Leaving at the time, the member arrives by the pickup, with the buffer to spare. Where the way or
-- the time is unknown nothing is asked.
abbrev pub InTime : ℕ → ℕ → Option ℕ → Option ℕ → Type 0
InTime pickup buffer none leave = Unit {0}
InTime pickup buffer (some commute) none = Unit {0}
InTime pickup buffer (some commute) (some leave) = leave + (commute + buffer) * minute ≤ pickup

pub record CanReach (input : CommuteFilterInput) (pickup : ℕ) (leave : Option ℕ) (m : Member)
    : Type 0 where
  pub active : m.active ≡ true
  pub drives : (input.requires_driving ≡ false) ⊎ (m.driving_privileges ≡ true)
  pub in_time : InTime pickup input.buffer_minutes m.commute_minutes leave

module _ (input : CommuteFilterInput) (pickup : ℕ) (leave : Option ℕ)
    (at : input.pickup_at ≡ date pickup) (from : input.leave_at ≡ clock_of leave) where
  within_budget-cases :
      (commute away : Option ℕ)
      → ((within_budget input commute (clock_of away) ≡ ok none)
          × InTime pickup input.buffer_minutes commute away)
        ⊎ ((why : Obstacle) × (within_budget input commute (clock_of away) ≡ ok (some why))
            × (InTime pickup input.buffer_minutes commute away → ⊥))
  unfolding diff_minutes
  within_budget-cases none away = inl (refl, tt)
  within_budget-cases (some commute) none = inl (refl, tt)
  within_budget-cases (some commute) (some away) =
      rw at
        (elim (Bool-cases
          (ltb_ℤ (floor_diff pickup away minute) (pos (commute + input.buffer_minutes)))) [
            | inl e ↦ inr (
              Obstacle.exceeds commute input.buffer_minutes (floor_diff pickup away minute),
              rw e refl,
              λ in_time. ground arith,
            )
            | inr e ↦ inl (rw e refl, ground arith)
          ])

  obstacle-cases :
      (m : Member)
      → ((obstacle input m ≡ ok none) × CanReach input pickup leave m)
        ⊎ ((why : Obstacle) × (obstacle input m ≡ ok (some why))
            × (CanReach input pickup leave m → ⊥))
  unfolding obstacle
  obstacle-cases m = elim (Bool-cases m.active) [
    | inr e ↦ inr (Obstacle.inactive, rw e refl, λ can. ground (arith, can.active))
    | inl e ↦ elim (Bool-cases (input.requires_driving && not m.driving_privileges)) [
      | inl f ↦ inr (Obstacle.cannot_drive, rw (e, f) refl, λ can. ground (arith, can.drives))
      | inr f ↦
          let drives : (input.requires_driving ≡ false) ⊎ (m.driving_privileges ≡ true) =
            ground arith in
          elim (within_budget-cases m.commute_minutes leave) [
            | inl (g, in_time) ↦
                inl (rw (e, f, from) g, record { active = e; drives = drives; in_time = in_time })
            | inr (why, g, late) ↦ inr (why, rw (e, f, from) g, λ can. late can.in_time)
          ]
    ]
  ]

  abbrev pub IsSplit : List Member → CommuteFilterResult → Type 0
  IsSplit ms r =
      All (CanReach input pickup leave) r.feasible
      × All (λ (entry : Member × Obstacle). CanReach input pickup leave entry.0 → ⊥) r.infeasible
      × Perm (r.feasible ++ map (λ (entry : Member × Obstacle). entry.0) r.infeasible) ms

  filter_members-IsSplit :
      (ms : List Member)
      → (r : CommuteFilterResult) × (filter_members input ms ≡ ok r) × IsSplit ms r
  unfolding filter_members
  filter_members-IsSplit [] = (record { feasible = []; infeasible = [] }, refl, (tt, tt, Perm.nil))
  filter_members-IsSplit (m ∷ ms) =
      let (r, e, (can, cannot, all)) = filter_members-IsSplit ms in
      elim (obstacle-cases m) [
        | inl (f, reach) ↦
            (put_in m none r, rw (f, e) refl, ((reach, can), cannot, Perm.cons m all))
        | inr (why, f, late) ↦ (
          put_in m (some why) r,
          rw (f, e) refl,
          (can, (late, cannot), Perm.trans (perm_middle r.feasible _) (Perm.cons m all)),
        )
      ]

  -- For a valid pickup time and a valid time to leave, if one is given, `filterByCommute` returns,
  -- and parts the members into those who can reach the pickup and those who cannot: each is active,
  -- may drive where the drive is to be done, and arrives in time, as far as its way is known.
  pub filter_by_commute-IsSplit :
      (r : CommuteFilterResult) × (filter_by_commute input ≡ ok r) × IsSplit input.members r
  unfolding filter_by_commute
  filter_by_commute-IsSplit = filter_members-IsSplit input.members
