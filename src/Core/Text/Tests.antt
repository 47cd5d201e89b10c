-- ===== src/Core/Text/Tests.antt =====
-- Runs of the functions on texts and dates.
use nestai.Prelude.{◌+◌, ◌*◌, ◌≡◌, refl, true, false}
use nestai.Core.Time.{epoch, day, date}
use nestai.Core.Calendar.{civil, year_bias}
use nestai.Core.Text.{codes, trim, contains, date_utc, iso_day}

trimmed : trim "  March 1 " ≡ "March 1"
trimmed = refl

contained : contains (codes "rack") (codes "a roof rack") ≡ true
contained = refl

not_contained : contains (codes "racks") (codes "a roof rack") ≡ false
not_contained = refl

new_year : date_utc (year_bias + 1_970) 1 1 ≡ date epoch
unfolding date_utc
new_year = refl

fourth_of_june : date_utc (year_bias + 2_026) 6 4 ≡ date (epoch + 20_608 * day)
unfolding date_utc
fourth_of_june = refl

-- The day 30 of February is 1 or 2 March.
rolls_over : date_utc (year_bias + 2_024) 2 30 ≡ date_utc (year_bias + 2_024) 3 1
unfolding date_utc
rolls_over = refl

first_century : date_utc (year_bias + 26) 6 4 ≡ date_utc (year_bias + 1_926) 6 4
unfolding date_utc
first_century = refl

shown : iso_day (epoch + 20_608 * day) ≡ "2026-06-04"
unfolding iso_day civil
shown = refl

-- The month 0 is the December before.
month_zero : date_utc (year_bias + 2_026) 0 31 ≡ date_utc (year_bias + 2_025) 12 31
unfolding date_utc
month_zero = refl
