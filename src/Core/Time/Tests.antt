-- ===== src/Core/Time/Tests.antt =====
-- Runs of time.ts, and its theorems at concrete inputs.
use nestai.Prelude.{◌+◌, ◌*◌, ◌≡◌, refl, true, false}
use nestai.Prelude.Int.{pos, negsuc}
use nestai.Prelude.Results.{ok, throw, invalid_date}
use nestai.Core.Time.{
  date, invalid, epoch, minute, last_date, add_minutes, add_days, diff_minutes, is_within,
  windows_overlap, clamp, to_iso,
}
use nestai.Core.Time.Laws.{diff_minutes-add_minutes}

floor_below_zero : diff_minutes (date epoch) (date (epoch + 90_000)) ≡ ok (negsuc 1)
unfolding diff_minutes
floor_below_zero = refl

past_the_last_date : add_days (date last_date) (pos 1) ≡ ok invalid
unfolding add_days
past_the_last_date = refl

short_circuits :
    (windows_overlap (date 10) invalid invalid (date 10) ≡ ok false)
    × (is_within (date 5) (date 5) (date 5) ≡ ok true)
    × (is_within (date 5) (date 5) invalid ≡ throw invalid_date)
    × (to_iso invalid ≡ throw invalid_date)
    × (clamp 130 0 100 ≡ 100)
unfolding windows_overlap is_within to_iso clamp
short_circuits = (refl, refl, refl, refl, refl)

diff_minutes-add_minutes_example :
    diff_minutes (date (epoch + 45 * minute)) (date (epoch + 60 * minute)) ≡ ok (negsuc 14)
unfolding add_minutes
diff_minutes-add_minutes_example =
    diff_minutes-add_minutes (date (epoch + 60 * minute)) (negsuc 14) (epoch + 45 * minute) refl
