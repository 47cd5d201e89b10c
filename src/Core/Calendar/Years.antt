-- ===== src/Core/Calendar/Years.antt =====
-- The day of a date, against the end of its calendar year.
use nestai.Prelude.{ℕ, ◌+◌, ◌-◌, ◌*◌, ◌/◌, ◌%◌, ◌≤◌, ◌<◌, arith}
use nestai.Contracts.Entities.{IsoDateTime}
use nestai.Core.Time.{day}
use nestai.Core.Calendar.{civil, civil_of_cycle, year_of_cycle, day_bias}

-- The days before the year that follows, counted as `civil` counts them.
abbrev pub year_end : ℕ → ℕ
year_end y = 365 * y + y / 4 - y / 100 + y / 400 + 306

year_of_cycle_lem :
    (doe : ℕ)
    → doe < 146_097
    → (year_of_cycle doe < 400)
      × (365 * year_of_cycle doe + year_of_cycle doe / 4 - year_of_cycle doe / 100 ≤ doe)
      × (doe < 365 * year_of_cycle doe + year_of_cycle doe / 4 - year_of_cycle doe / 100 + 367)
year_of_cycle_lem doe h = (omega arith, omega arith, omega arith)

year_end-cycle :
    (cycle yoe : ℕ)
    → yoe < 401
    → 146_097 * cycle + (365 * yoe + yoe / 4 - yoe / 100) + 306 ≤ year_end (400 * cycle + yoe)
year_end-cycle cycle yoe h = omega arith

civil_of_cycle-year_end :
    (cycle doe : ℕ)
    → doe < 146_097
    → 146_097 * cycle + doe < year_end (civil_of_cycle cycle doe).year
civil_of_cycle-year_end cycle doe h =
    let (few, from, to) = year_of_cycle_lem doe h in
    ground (
      arith,
      year_end-cycle cycle (year_of_cycle doe) (omega arith),
      year_end-cycle cycle (year_of_cycle doe + 1) (omega arith),
    )

-- A date comes before the end of its year.
pub civil-year_end : (t : IsoDateTime) → t / day + day_bias < year_end (civil t).year
unfolding civil
civil-year_end t =
    let h =
      civil_of_cycle-year_end ((t / day + day_bias) / 146_097) ((t / day + day_bias) % 146_097)
        (omega arith) in
    omega (arith, h)
