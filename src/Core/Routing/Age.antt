-- ===== src/Core/Routing/Age.antt =====
-- packages/core/src/routing/age.ts. `parse` is the host's reading of a date text by `new Date`.
pub mod Birthdays
use Prim.Native.Char.{code}
use Prim.Native.String
use nestai.Prelude.{
  ℕ, ◌-◌, Bool, true, false, ◌&&◌, ◌||◌, String, List, [], ◌∷◌, Option, none, some, ltb, leb, ◌==◌,
  str_eq, if◌then◌else◌,
}
use nestai.Prelude.Results.{Result, ok, throw, ◌>>=◌}
use nestai.Contracts.Entities.{IsoDateTime}
use nestai.Core.Time.{Clock, to_date}
use nestai.Core.Calendar.{Civil, civil}

abbrev codes : String → List ℕ
codes String.[] = []
codes (String.◌∷◌ c s) = code c ∷ codes s

abbrev is_digit : ℕ → Bool
is_digit c = leb b'0' c && leb c b'9'

-- /^\d{4}-\d{2}-\d{2}$/
abbrev is_ymd : List ℕ → Bool
is_ymd (a ∷ b ∷ c ∷ d ∷ e ∷ f ∷ g ∷ h ∷ i ∷ j ∷ []) =
    is_digit a
    && is_digit b
    && is_digit c
    && is_digit d
    && e == b'-'
    && is_digit f
    && is_digit g
    && h == b'-'
    && is_digit i
    && is_digit j
is_ymd other = false

abbrev pub birth_iso : String → String
birth_iso s = if is_ymd (codes s) then String.◌++◌ s "T00:00:00.000Z" else s

-- `now` comes before the birthday in its year.
abbrev pub before_birthday : Civil → Civil → Bool
before_birthday born ref =
    ltb ref.month born.month || (ref.month == born.month && ltb ref.day_of_month born.day_of_month)

-- `Math.max(0, …)` of the difference of years, less one before the birthday: differences of
-- natural numbers stop at 0.
abbrev pub age_between : Civil → Civil → ℕ
age_between born ref =
    if before_birthday born ref then ref.year - born.year - 1 else ref.year - born.year

abbrev age_of : Option IsoDateTime → Clock → Result (Option ℕ)
age_of none now = ok none
age_of (some born) now = to_date now >>= λ t. ok (some (age_between (civil born) (civil t)))

unfoldable pub compute_age :
    (String → Option IsoDateTime) → Option String → Clock → Result (Option ℕ)
compute_age parse none now = ok none
compute_age parse (some text) now =
    if str_eq text "" then ok none else age_of (parse (birth_iso text)) now
