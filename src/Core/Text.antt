-- ===== src/Core/Text.antt =====
-- What the engines use of the language's texts: characters by their codes, `trim`, the classes of
-- its regular expressions, and `Date.UTC` and `toISOString().slice(0, 10)`.
pub mod Dates
pub mod Numerals
mod Tests
use Prim.Native.Char.{Char, code}
use Prim.Native.String
use nestai.Prelude.{
  ℕ, zero, suc, ◌+◌, ◌-◌, ◌*◌, ◌/◌, ◌%◌, Bool, true, false, not, ◌&&◌, ◌||◌, String, List, [], ◌∷◌,
  Option, none, some, ltb, leb, ◌==◌, if◌then◌else◌, any,
}
use nestai.Contracts.Entities.{IsoDateTime}
use nestai.Core.Time.{Clock, date, invalid, day, last_date}
use nestai.Core.Calendar.{Civil, civil, day_bias, year_bias}

infixr 60 ◌+++◌
abbrev pub ◌+++◌ : String → String → String
a +++ b = String.◌++◌ a b

abbrev pub codes : String → List ℕ
codes String.[] = []
codes (String.◌∷◌ c s) = code c ∷ codes s

abbrev pub eq_codes : List ℕ → List ℕ → Bool
eq_codes [] [] = true
eq_codes (x ∷ xs) (y ∷ ys) = x == y && eq_codes xs ys
eq_codes other_a other_b = false

-- \d
abbrev pub is_digit : ℕ → Bool
is_digit c = leb b'0' c && leb c b'9'

abbrev pub to_lower : ℕ → ℕ
to_lower c = if leb b'A' c && leb c b'Z' then c + 32 else c

-- [A-Za-z]
abbrev pub is_letter : ℕ → Bool
is_letter c = leb b'a' (to_lower c) && leb (to_lower c) b'z'

-- \w
abbrev pub is_word : ℕ → Bool
is_word c = is_letter c || is_digit c || c == b'_'

-- \s, and what `trim` removes.
abbrev pub is_space : ℕ → Bool
is_space c =
    (leb 9 c && leb c 13)
    || (leb 8_192 c && leb c 8_202)
    || any (λ x. x == c) (32 ∷ 160 ∷ 5_760 ∷ 8_232 ∷ 8_233 ∷ 8_239 ∷ 8_287 ∷ 12_288 ∷ 65_279 ∷ [])

abbrev pub skip_spaces : List ℕ → List ℕ
skip_spaces [] = []
skip_spaces (c ∷ cs) = if is_space c then skip_spaces cs else c ∷ cs

abbrev trim_start : String → String
trim_start String.[] = ""
trim_start (String.◌∷◌ c s) = if is_space (code c) then trim_start s else String.◌∷◌ c s

-- A character stays when it is no space, or something after it stays.
abbrev keep : Char → String → String
keep c String.[] = if is_space (code c) then "" else String.◌∷◌ c ""
keep c (String.◌∷◌ d rest) = String.◌∷◌ c (String.◌∷◌ d rest)

abbrev trim_end : String → String
trim_end String.[] = ""
trim_end (String.◌∷◌ c s) = keep c (trim_end s)

abbrev pub trim : String → String
trim s = trim_end (trim_start s)

-- What is left after a prefix.
abbrev pub strip : List ℕ → List ℕ → Option (List ℕ)
strip [] cs = some cs
strip (p ∷ ps) [] = none
strip (p ∷ ps) (c ∷ cs) = if p == c then strip ps cs else none

abbrev pub starts_with : List ℕ → List ℕ → Bool
starts_with ps cs = elim (strip ps cs) [ none ↦ false | some rest ↦ true ]

-- `text.includes(part)`
abbrev pub contains : List ℕ → List ℕ → Bool
contains part [] = starts_with part []
contains part (c ∷ cs) = starts_with part (c ∷ cs) || contains part cs

-- March is the month 0 of these years.
abbrev day_of_year : ℕ → ℕ
day_of_year month = (153 * ((month + 10) % 12) + 2) / 5

abbrev march_year : ℕ → ℕ → ℕ
march_year year month = if ltb month 2 then year - 1 else year

-- The days before the day 0 of a month, counted as `Calendar.civil` counts them.
abbrev days_before : ℕ → ℕ → ℕ
days_before year month =
    let y : ℕ = march_year year month in 365 * y + y / 4 - y / 100 + y / 400 + day_of_year month

-- `Date.UTC` writes the years 0 to 99 for 1900 to 1999.
abbrev full_year : ℕ → ℕ
full_year year = if leb year_bias year && ltb year (year_bias + 100) then year + 1_900 else year

abbrev date_of_days : ℕ → Clock
date_of_days days =
    if ltb days (day_bias + 1)
    then invalid
    else if leb ((days - 1 - day_bias) * day) last_date
    then date ((days - 1 - day_bias) * day)
    else invalid

-- `new Date(Date.UTC(year, month - 1, day))`, for a month and a day that may lie outside the year
-- and the month.
unfoldable pub date_utc : ℕ → ℕ → ℕ → Clock
date_utc year month day_of_month =
    date_of_days
      (days_before (full_year year + (month + 11) / 12 - 1) ((month + 11) % 12) + day_of_month)

abbrev nth : List String → ℕ → String
nth [] n = ""
nth (x ∷ xs) zero = x
nth (x ∷ xs) (suc n) = nth xs n

abbrev pub digit : ℕ → String
digit n = nth ("0" ∷ "1" ∷ "2" ∷ "3" ∷ "4" ∷ "5" ∷ "6" ∷ "7" ∷ "8" ∷ "9" ∷ []) n

abbrev pub hex_digit : ℕ → String
hex_digit n = if ltb n 10 then digit n else nth ("a" ∷ "b" ∷ "c" ∷ "d" ∷ "e" ∷ "f" ∷ []) (n - 10)

-- A number in decimal, with fuel for its digits.
abbrev pub digits_in : ℕ → ℕ → String
digits_in zero n = ""
digits_in (suc fuel) n =
    let rest : String = digits_in fuel (n / 10) in
    if ltb n 10 then digit n else rest +++ digit (n % 10)

unfoldable pub decimal : ℕ → String
decimal n = digits_in (suc n) n

abbrev two_digits : ℕ → String
two_digits n = digit (n / 10 % 10) +++ digit (n % 10)

abbrev four_digits : ℕ → String
four_digits n = two_digits (n / 100) +++ two_digits (n % 100)

abbrev six_digits : ℕ → String
six_digits n = two_digits (n / 10_000) +++ four_digits (n % 10_000)

-- The first ten characters: a year of four digits with its month and day, or one of six digits with
-- its sign and month.
abbrev day_text : Civil → String
day_text c =
    if ltb c.year year_bias
    then "-" +++ six_digits (year_bias - c.year) +++ "-" +++ two_digits (c.month + 1)
    else if leb (year_bias + 10_000) c.year
    then "+" +++ six_digits (c.year - year_bias) +++ "-" +++ two_digits (c.month + 1)
    else four_digits (c.year - year_bias)
      +++ "-"
      +++ two_digits (c.month + 1)
      +++ "-"
      +++ two_digits c.day_of_month

-- `toISOString().slice(0, 10)`
unfoldable pub iso_day : IsoDateTime → String
iso_day t = day_text (civil t)
