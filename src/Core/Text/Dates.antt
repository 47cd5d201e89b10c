-- ===== src/Core/Text/Dates.antt =====
-- `Date.UTC` of a day in the year after a given one.
use nestai.Prelude.{refl, sym, ◌∙◌, ℕ, suc, ◌+◌, ◌-◌, ◌*◌, ◌/◌, ◌%◌, ◌≤◌, ◌<◌, ◌≡◌, arith}
use nestai.Contracts.Entities.{IsoDateTime}
use nestai.Core.Time.{date, day}
use nestai.Core.Calendar.{day_bias}
use nestai.Core.Calendar.Years.{year_end}
use nestai.Core.Text.{date_utc, date_of_days, days_before, full_year}

date_of_days_lem :
    (n : ℕ) {t : IsoDateTime} → date_of_days n ≡ date t → t + (day_bias + 1) * day ≡ n * day
date_of_days_lem n e = ground arith

year_end-le : (x y : ℕ) → x ≤ y → year_end x ≤ year_end y
year_end-le x y h = omega arith

days_before-year_end : (year month : ℕ) → month < 12 → year_end year ≤ days_before (suc year) month
days_before-year_end year month h = ground arith

full_year-year_end :
    (year month : ℕ) → month < 12 → year_end year ≤ days_before (full_year (suc year)) month
full_year-year_end year month h = ground (
  arith,
  days_before-year_end year month h,
  days_before-year_end (year + 1_900) month h,
  year_end-le year (year + 1_900) (omega arith),
)

date_utc_month :
    (year month day_of_month : ℕ)
    → month < 12
    → date_utc year (suc month) day_of_month
      ≡ date_of_days (days_before (full_year year) month + day_of_month)
unfolding date_utc
date_utc_month year month d h =
    let same_year : full_year year + (suc month + 11) / 12 - 1 ≡ full_year year = omega arith in
    let same_month : (suc month + 11) % 12 ≡ month = omega arith in rw (same_year, same_month) refl

-- It comes after that year.
pub date_utc-year_end :
    (year month day_of_month : ℕ) {t : IsoDateTime}
    → month < 12
    → 1 ≤ day_of_month
    → date_utc (suc year) (suc month) day_of_month ≡ date t
    → (year_end year) * day ≤ t + day_bias * day
date_utc-year_end year month d h k e =
    let n : ℕ = days_before (full_year (suc year)) month + d in
    omega (
      arith,
      full_year-year_end year month h,
      date_of_days_lem n (sym (date_utc_month (suc year) month d h) ∙ e),
    )
