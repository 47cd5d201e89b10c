-- ===== src/Core/Routing/Age/Birthdays.antt =====
-- age.ts: an age counts the birthdays that have been reached.
use nestai.Prelude.{ℕ, ◌+◌, ◌≤◌, ◌<◌, ◌≡◌, ◌≢◌, ◌↔◌, ◌⊎◌, String, Option, some, arith, eq_iff}
use nestai.Prelude.Results.{ok}
use nestai.Contracts.Entities.{IsoDateTime}
use nestai.Core.Time.{date}
use nestai.Core.Calendar.{Civil, civil}
use nestai.Core.Routing.Age.{birth_iso, age_between, compute_age}

-- The day `n` years after `born`, by its month and day of the month, is not after `ref`.
abbrev pub IsReached : ℕ → Civil → Civil → Type 0
IsReached n born ref =
    (born.year + n < ref.year)
    ⊎ ((born.year + n ≡ ref.year)
        × ((born.month < ref.month)
            ⊎ ((born.month ≡ ref.month) × (born.day_of_month ≤ ref.day_of_month))))

age_between_iff :
    (born ref : Civil) (n : ℕ) → (n ≤ age_between born ref) ↔ ((n ≡ 0) ⊎ IsReached n born ref)
age_between_iff born ref n = ground arith

-- For a birth date that parses and a valid time, `computeAge` returns an age, and the age is at
-- least `n` exactly when `n` is 0 or the `n`-th birthday has been reached: an age is never negative,
-- and grows by one on each birthday.
pub compute_age_iff :
    (parse : String → Option IsoDateTime) (text : String) (born now n : ℕ)
    → text ≢ ""
    → parse (birth_iso text) ≡ some born
    → (age : ℕ) × (compute_age parse (some text) (date now) ≡ ok (some age))
      × ((n ≤ age) ↔ ((n ≡ 0) ⊎ IsReached n (civil born) (civil now)))
unfolding compute_age
compute_age_iff parse text born now n given parsed = (
  age_between (civil born) (civil now),
  ground (arith, eq_iff text ""),
  age_between_iff (civil born) (civil now) n,
)
