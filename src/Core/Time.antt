-- ===== src/Core/Time.antt =====
-- packages/core/src/time.ts. Dates are time values counted from the earliest date (`IsoDateTime`);
-- a `Clock` is what its `Date` or text denotes, a date or the invalid one.
pub mod Laws
pub mod Overlap
mod Tests
use nestai.Prelude.{
  ℕ, suc, ◌+◌, ◌-◌, ◌*◌, ◌/◌, Bool, true, false, min, max, ltb, leb, if◌then◌else◌,
}
use nestai.Prelude.Int.{ℤ, pos, negsuc, sub_ℕ}
use nestai.Prelude.Results.{Result, ok, throw, invalid_date, ◌>>=◌}
use nestai.Contracts.Entities.{IsoDateTime}

pub data Clock : Type 0 where
  date : IsoDateTime → Clock
  invalid : Clock

-- The latest date of the language, 8.64e15 milliseconds after 1970.
abbrev pub last_date : IsoDateTime
last_date = 17_280_000_000_000_000

-- 1970-01-01.
abbrev pub epoch : IsoDateTime
epoch = 8_640_000_000_000_000

abbrev pub minute : ℕ
minute = 60_000

abbrev pub day : ℕ
day = 86_400_000

-- `new Date(t + ms)`: a sum out of range is the invalid date.
abbrev pub shift : IsoDateTime → ℤ → Clock
shift t (pos n) = if leb (t + n) last_date then date (t + n) else invalid
shift t (negsuc n) = if leb (suc n) t then date (t - suc n) else invalid

-- `n * k` milliseconds for a whole number `n` of units.
abbrev pub scale : ℤ → ℕ → ℤ
scale (pos n) k = pos (n * k)
scale (negsuc n) k = sub_ℕ 0 (suc n * k)

-- `Math.floor((a - b) / k)`.
abbrev pub floor_diff : ℕ → ℕ → ℕ → ℤ
floor_diff a b k = if leb b a then pos ((a - b) / k) else negsuc ((b - a - 1) / k)

abbrev pub to_date : Clock → Result IsoDateTime
to_date (date t) = ok t
to_date invalid = throw invalid_date

-- The text of a valid date is read back as the same time value.
unfoldable pub to_iso : Clock → Result IsoDateTime
to_iso clock = to_date clock

unfoldable pub add_minutes : Clock → ℤ → Result Clock
add_minutes clock minutes = do t ← to_date clock; ok (shift t (scale minutes minute))

unfoldable pub add_days : Clock → ℤ → Result Clock
add_days clock days = do t ← to_date clock; ok (shift t (scale days day))

unfoldable pub diff_minutes : Clock → Clock → Result ℤ
diff_minutes a b = do x ← to_date a; y ← to_date b; ok (floor_diff x y minute)

-- `&&` reads its second operand only after a true first one.
abbrev pub and_then : Bool → Result Bool → Result Bool
and_then true r = r
and_then false r = ok false

unfoldable pub is_within : Clock → Clock → Clock → Result Bool
is_within t start end = do
  ms ← to_date t
  from ← to_date start
  and_then (leb from ms) (to_date end >>= λ to. ok (leb ms to))

unfoldable pub windows_overlap : Clock → Clock → Clock → Clock → Result Bool
windows_overlap a_start a_end b_start b_end = do
  from_a ← to_date a_start
  to_b ← to_date b_end
  and_then (ltb from_a to_b)
      (to_date b_start >>= λ from_b. to_date a_end >>= λ to_a. ok (ltb from_b to_a))

unfoldable pub clamp : ℕ → ℕ → ℕ → ℕ
clamp value lo hi = min hi (max lo value)
