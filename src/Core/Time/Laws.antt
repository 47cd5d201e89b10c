-- ===== src/Core/Time/Laws.antt =====
-- time.ts: shifting a date and measuring the distance of two dates.
use nestai.Prelude.{ℕ, ◌+◌, ◌*◌, ◌≤◌, ◌<◌, ◌≡◌, refl, arith}
use nestai.Prelude.Int.{ℤ, pos, negsuc, pos_part, neg_part}
use nestai.Prelude.Results.{ok}
use nestai.Core.Time.{
  Clock, date, invalid, minute, shift, scale, floor_diff, add_minutes, diff_minutes,
}

-- `diffMinutes` of two valid dates never throws, and returns the whole minutes from `b` to `a`
-- rounded down: the `q` with `60000 q <= a - b < 60000 (q + 1)`, also where `a` precedes `b`.
pub diff_minutes-floor :
    (a b : ℕ)
    → (q : ℤ) × (diff_minutes (date a) (date b) ≡ ok q)
      × (b + minute * pos_part q ≤ a + minute * neg_part q)
      × (a + minute * neg_part q < b + minute * pos_part q + minute)
unfolding diff_minutes
diff_minutes-floor a b = (floor_diff a b minute, refl, ground arith, ground arith)

floor_diff-shift : (t u : ℕ) (m : ℤ) → shift t (scale m minute) ≡ date u → floor_diff u t minute ≡ m
floor_diff-shift t u (pos m) h = ground arith
floor_diff-shift t u (negsuc m) h = ground arith

-- A date that `addMinutes` has moved by `m` minutes, without leaving the range of dates, is `m`
-- minutes from where it was, for every whole `m`, negative ones included.
pub diff_minutes-add_minutes :
    (c : Clock) (m : ℤ) (u : ℕ) → add_minutes c m ≡ ok (date u) → diff_minutes (date u) c ≡ ok m
unfolding add_minutes diff_minutes
diff_minutes-add_minutes (date t) m u h = ground (arith, floor_diff-shift t u m)
diff_minutes-add_minutes invalid m u h = cc
