-- ===== src/Core/Seasonal/OpensRule/Upcoming.antt =====
-- seasonal.ts, parseOpensRule: the day that a phrase names is not over.
use nestai.Prelude.{
  ℕ, suc, ◌+◌, ◌≤◌, ◌<◌, ◌≡◌, inl, inr, arith, Bool-cases, refl, List, [], ◌∷◌, some, length,
  Option-cases,
}
use nestai.Prelude.Results.{ok}
use nestai.Contracts.Entities.{IsoDateTime}
use nestai.Core.Time.{date}
use nestai.Core.Calendar.{civil}
use nestai.Core.Calendar.Years.{civil-year_end}
use nestai.Core.Text.{date_utc}
use nestai.Core.Text.Dates.{date_utc-year_end}
use nestai.Core.Seasonal.OpensRule.{
  upcoming, is_before, MonthLookup, month, inherited, unknown, index_from, month_names, look_up,
  in_month, phrase_day, phrase_month, month_phrase,
}

-- A day of the next year comes after the reference date.
next_year :
    (ref : IsoDateTime) (n day_of_month : ℕ) {t : IsoDateTime}
    → n < 12
    → 1 ≤ day_of_month
    → date_utc (suc (civil ref).year) (suc n) day_of_month ≡ date t
    → ref ≤ t
next_year ref n day_of_month h k e =
    omega (arith, civil-year_end ref, date_utc-year_end (civil ref).year n day_of_month h k e)

upcoming-le :
    (ref : IsoDateTime) (n day_of_month : ℕ) {t : IsoDateTime}
    → n < 12
    → 1 ≤ day_of_month
    → upcoming ref n day_of_month ≡ date t
    → ref ≤ t
unfolding upcoming
upcoming-le ref n day_of_month {t} h k e =
    elim (Bool-cases (is_before (date_utc (civil ref).year (suc n) day_of_month) ref)) [
      | inl b ↦ next_year ref n day_of_month h k (rw b at e)
      | inr b ↦ ground arith
    ]

index_from-lt :
    (n : ℕ) (word : List ℕ) (names : List (List ℕ)) {k : ℕ}
    → index_from n word names ≡ some k
    → k < n + length names
index_from-lt n word [] e = cc
index_from-lt n word (x ∷ xs) {k} e = grind (arith, index_from-lt (suc n) word xs {k = k})

look_up-lt : (word : List ℕ) {n : ℕ} → look_up word ≡ month n → n < 12
unfolding look_up
look_up-lt word e = elim (Option-cases (index_from 0 word month_names)) [
  | inl missing ↦ ground arith
  | inr (k, found) ↦ ground (arith, index_from-lt 0 word month_names found)
]

in_month-le :
    (looked : MonthLookup) (day_of_month : ℕ) (ref : IsoDateTime) {t : IsoDateTime}
    → ((n : ℕ) → looked ≡ month n → n < 12)
    → 1 ≤ day_of_month
    → in_month looked day_of_month (date ref) ≡ ok (some (date t))
    → ref ≤ t
unfolding in_month
in_month-le (month n) d ref h k e = upcoming-le ref n d (h n refl) k (ground arith)
in_month-le inherited d ref h k e = cc
in_month-le unknown d ref h k e = cc

-- A date that is read from a phrase "Month Day", whose day is not 0, is not before `now`.
pub month_phrase-le :
    (text : List ℕ) (ref : IsoDateTime) {t : IsoDateTime}
    → 1 ≤ phrase_day text
    → month_phrase text (date ref) ≡ ok (some (date t))
    → ref ≤ t
unfolding month_phrase
month_phrase-le text ref k e =
    in_month-le (phrase_month text) (phrase_day text) ref (λ n. look_up-lt _) k e
