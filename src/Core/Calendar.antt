-- ===== src/Core/Calendar.antt =====
-- The UTC calendar fields of a date, which the language's `Date` computes. Days are counted from
-- 1 March of a year 680 cycles of 400 years before the year 0, so that no count is negative: a
-- `year` here is 272000 more than the calendar's.
pub mod Years
mod Tests
use nestai.Prelude.{ℕ, ◌+◌, ◌-◌, ◌*◌, ◌/◌, ◌%◌, ltb, leb, if◌then◌else◌}
use nestai.Contracts.Entities.{IsoDateTime}
use nestai.Core.Time.{day}

-- Months from 0, days from 1, as `getUTCMonth` and `getUTCDate` return them.
pub record Civil : Type 0 where
  pub year : ℕ
  pub month : ℕ
  pub day_of_month : ℕ

abbrev pub year_bias : ℕ
year_bias = 272_000

abbrev pub day_bias : ℕ
day_bias = 65_428

-- `doe` is the day of the cycle of 146097 days, `yoe` its year, counted from March.
abbrev year_of_cycle : ℕ → ℕ
year_of_cycle doe = (doe - doe / 1_460 + doe / 36_524 - doe / 146_096) / 365

abbrev civil_of_cycle : ℕ → ℕ → Civil
civil_of_cycle cycle doe =
    let yoe : ℕ = year_of_cycle doe in
    let doy : ℕ = doe - (365 * yoe + yoe / 4 - yoe / 100) in
    let mp : ℕ = (5 * doy + 2) / 153 in
    record {
      year = 400 * cycle + yoe + (if ltb mp 10 then 0 else 1);
      month = if ltb mp 10 then mp + 2 else mp - 10;
      day_of_month = doy - (153 * mp + 2) / 5 + 1;
    }

unfoldable pub civil : IsoDateTime → Civil
civil t = let z : ℕ = t / day + day_bias in civil_of_cycle (z / 146_097) (z % 146_097)
