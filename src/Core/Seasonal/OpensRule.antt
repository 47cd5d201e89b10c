-- ===== src/Core/Seasonal/OpensRule.antt =====
-- seasonal.ts, parseOpensRule. `parse` is the host's reading of a date text by `new Date`, for a
-- text given by the codes of its characters.
pub mod Upcoming
pub mod Faults
use nestai.Prelude.{
  ℕ, suc, ◌+◌, ◌-◌, ◌*◌, Bool, true, false, String, ◌&&◌, List, [], ◌∷◌, ◌++◌, map, Option, none,
  some, ltb, ◌==◌, if◌then◌else◌, any,
}
use nestai.Prelude.Results.{Result, ok, ◌>>=◌}
use nestai.Contracts.Entities.{IsoDateTime}
use nestai.Core.Time.{Clock, date, invalid, to_date}
use nestai.Core.Calendar.{Civil, civil}
use nestai.Core.Text.{
  codes, eq_codes, is_digit, is_letter, is_space, to_lower, trim, skip_spaces, date_utc,
}

-- /^\d{4}-\d{2}-\d{2}/
abbrev starts_ymd : List ℕ → Bool
starts_ymd (a ∷ b ∷ c ∷ d ∷ e ∷ f ∷ g ∷ h ∷ i ∷ j ∷ rest) =
    is_digit a
    && is_digit b
    && is_digit c
    && is_digit d
    && e == b'-'
    && is_digit f
    && is_digit g
    && h == b'-'
    && is_digit i
    && is_digit j
starts_ymd other = false

-- A date without a time is read as its start in UTC.
abbrev with_time : List ℕ → List ℕ
with_time text = if any (λ c. c == b'T') text then text else text ++ codes "T00:00:00.000Z"

-- The first run of letters of a text, and what follows it: /([A-Za-z]+)/.
abbrev letters : List ℕ → List ℕ × List ℕ
letters [] = ([], [])
letters (c ∷ cs) = if is_letter c then (c ∷ (letters cs).0, (letters cs).1) else ([], c ∷ cs)

abbrev from_letter : List ℕ → List ℕ
from_letter [] = []
from_letter (c ∷ cs) = if is_letter c then c ∷ cs else from_letter cs

-- (\d{1,2})?, as a number, with the day 1 where there is none.
abbrev day_of : List ℕ → ℕ
day_of [] = 1
day_of (a ∷ []) = if is_digit a then a - b'0' else 1
day_of (a ∷ b ∷ rest) =
    if is_digit a then (if is_digit b then 10 * (a - b'0') + (b - b'0') else a - b'0') else 1

abbrev month_names : List (List ℕ)
month_names = map codes (
    "january" ∷ "february" ∷ "march" ∷ "april" ∷ "may" ∷ "june" ∷ "july" ∷ "august" ∷ "september"
    ∷ "october" ∷ "november" ∷ "december" ∷ [])

abbrev index_from : ℕ → List ℕ → List (List ℕ) → Option ℕ
index_from n word [] = none
index_from n word (name ∷ names) =
    if eq_codes name word then some n else index_from (suc n) word names

-- What `months[word]` is: a month, the constructor that every object inherits, or nothing.
pub data MonthLookup : Type 0 where
  month : ℕ → MonthLookup
  inherited : MonthLookup
  unknown : MonthLookup

abbrev as_lookup : Option ℕ → List ℕ → MonthLookup
as_lookup (some n) word = month n
as_lookup none word = if eq_codes word (codes "constructor") then inherited else unknown

unfoldable pub look_up : List ℕ → MonthLookup
look_up word = as_lookup (index_from 0 word month_names) word

abbrev pub is_before : Clock → IsoDateTime → Bool
is_before (date t) ref = ltb t ref
is_before invalid ref = false

-- The day in this year, or in the next one when it is over.
unfoldable pub upcoming : IsoDateTime → ℕ → ℕ → Clock
upcoming ref month_index day =
    let candidate : Clock = date_utc (civil ref).year (suc month_index) day in
    if is_before candidate ref
    then date_utc (suc (civil ref).year) (suc month_index) day
    else candidate

-- `Date.UTC` of something that is no number is the invalid date.
unfoldable pub in_month : MonthLookup → ℕ → Clock → Result (Option Clock)
in_month unknown day now = ok none
in_month inherited day now = to_date now >>= λ ref. ok (some invalid)
in_month (month n) day now = to_date now >>= λ ref. ok (some (upcoming ref n day))

-- The month and the day of a phrase.
abbrev pub phrase_month : List ℕ → MonthLookup
phrase_month text = look_up (map to_lower (letters (from_letter text)).0)

abbrev pub phrase_day : List ℕ → ℕ
phrase_day text = day_of (skip_spaces (letters (from_letter text)).1)

unfoldable pub month_phrase : List ℕ → Clock → Result (Option Clock)
month_phrase text now = in_month (phrase_month text) (phrase_day text) now

abbrev or_phrase : Option IsoDateTime → List ℕ → Clock → Result (Option Clock)
or_phrase (some t) text now = ok (some (date t))
or_phrase none text now = month_phrase text now

abbrev read : (List ℕ → Option IsoDateTime) → List ℕ → Clock → Result (Option Clock)
read parse text now =
    if starts_ymd text then or_phrase (parse (with_time text)) text now else month_phrase text now

unfoldable pub parse_opens_rule :
    (List ℕ → Option IsoDateTime) → String → Clock → Result (Option Clock)
parse_opens_rule parse rule now = read parse (codes (trim rule)) now
