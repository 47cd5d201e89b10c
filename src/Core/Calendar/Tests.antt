-- ===== src/Core/Calendar/Tests.antt =====
-- The fields of some dates.
use nestai.Prelude.{◌+◌, ◌*◌, ◌≡◌, refl}
use nestai.Core.Time.{epoch, day}
use nestai.Core.Calendar.{civil}

first_of_1970 : civil epoch ≡ record { year = 273_970; month = 0; day_of_month = 1 }
unfolding civil
first_of_1970 = refl

leap_day : civil (epoch + 11_016 * day) ≡ record { year = 274_000; month = 1; day_of_month = 29 }
unfolding civil
leap_day = refl

fourth_of_june :
    civil (epoch + 20_608 * day) ≡ record { year = 274_026; month = 5; day_of_month = 4 }
unfolding civil
fourth_of_june = refl
