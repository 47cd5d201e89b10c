-- ===== src/Core/Seasonal/OpensRule/Faults.antt =====
-- seasonal.ts, parseOpensRule: what it throws.
use nestai.Prelude.{ℕ, ◌≡◌, inl, inr, List, String, Option, none, some, arith, Bool-cases}
use nestai.Prelude.Results.{Fault, throw, invalid_date}
use nestai.Contracts.Entities.{IsoDateTime}
use nestai.Core.Time.{Clock, date, invalid}
use nestai.Core.Text.{codes, trim}
use nestai.Core.Seasonal.OpensRule.{
  MonthLookup, month, inherited, unknown, in_month, month_phrase, phrase_month, phrase_day,
  starts_ymd, with_time, or_phrase, parse_opens_rule,
}

in_month-fault :
    (looked : MonthLookup) (d : ℕ) (now : Clock) {fault : Fault}
    → in_month looked d now ≡ throw fault
    → fault ≡ invalid_date
unfolding in_month
in_month-fault (month n) d (date t) e = cc
in_month-fault (month n) d invalid e = ground arith
in_month-fault inherited d (date t) e = cc
in_month-fault inherited d invalid e = ground arith
in_month-fault unknown d now e = cc

month_phrase-fault :
    (text : List ℕ) (now : Clock) {fault : Fault}
    → month_phrase text now ≡ throw fault
    → fault ≡ invalid_date
unfolding month_phrase
month_phrase-fault text now e = in_month-fault (phrase_month text) (phrase_day text) now e

or_phrase-fault :
    (read_date : Option IsoDateTime) (text : List ℕ) (now : Clock) {fault : Fault}
    → or_phrase read_date text now ≡ throw fault
    → fault ≡ invalid_date
or_phrase-fault none text now e = month_phrase-fault text now e
or_phrase-fault (some t) text now e = cc

pub parse_opens_rule-fault :
    (parse : List ℕ → Option IsoDateTime) (rule : String) (now : Clock) {fault : Fault}
    → parse_opens_rule parse rule now ≡ throw fault
    → fault ≡ invalid_date
unfolding parse_opens_rule
parse_opens_rule-fault parse rule now e = elim (Bool-cases (starts_ymd (codes (trim rule)))) [
  | inl iso ↦
      or_phrase-fault (parse (with_time (codes (trim rule)))) (codes (trim rule)) now (rw iso at e)
  | inr other ↦ month_phrase-fault (codes (trim rule)) now (rw other at e)
]
