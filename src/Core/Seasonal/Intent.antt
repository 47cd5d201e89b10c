-- ===== src/Core/Seasonal/Intent.antt =====
-- seasonal.ts, classifySeasonalIntent. `lower` is the text in lower case, by the host's tables of
-- characters, as the codes of its characters.
pub mod Best
use nestai.Prelude.{
  ℕ, ◌+◌, ◌*◌, Bool, true, false, not, ◌&&◌, ◌||◌, String, List, [], ◌∷◌, ◌++◌, Option, none, some,
  min, max, ltb, ◌==◌, str_eq, if◌then◌else◌, filter, length,
}
use nestai.Contracts.Enums.{SeasonalKind}
use nestai.Contracts.Enums.SeasonalKind.{camp, sports, campsite, ski_trip, trip}
use nestai.Core.Text.{codes, is_word, strip}

-- The confidence in hundredths.
pub record SeasonalIntent : Type 0 where
  pub is_seasonal : Bool
  pub kind : Option SeasonalKind
  pub confidence : ℕ
  pub matched : List String

pub record KindWords : Type 0 where
  pub kind : SeasonalKind
  pub words : List String

abbrev pub kind_keywords : List KindWords
kind_keywords =
    record {
      kind = ski_trip;
      words = "ski" ∷ "skiing" ∷ "snowboard" ∷ "slopes" ∷ "mountain resort" ∷ [];
    }
    ∷ record {
      kind = campsite;
      words =
          "campsite" ∷ "campground" ∷ "camping" ∷ "tent" ∷ "rv site" ∷ "yosemite" ∷ "national park"
          ∷ "state park" ∷ [];
    }
    ∷ record {
      kind = camp;
      words = "summer camp" ∷ "day camp" ∷ "sleepaway" ∷ "camp signup" ∷ "camp registration" ∷ [];
    }
    ∷ record {
      kind = sports;
      words =
          "soccer" ∷ "little league" ∷ "baseball" ∷ "season signup" ∷ "sports registration"
          ∷ "travel team" ∷ [];
    }
    ∷ record {
      kind = trip;
      words = "trip" ∷ "vacation" ∷ "getaway" ∷ "road trip" ∷ "holiday" ∷ "visit" ∷ [];
    }
    ∷ []

abbrev pub seasonal_hints : List String
seasonal_hints =
    "this fall" ∷ "this summer" ∷ "this winter" ∷ "this spring" ∷ "next year" ∷ "next season"
    ∷ "this season" ∷ "over the holidays" ∷ "this weekend" ∷ "plan" ∷ "book" ∷ "reserve" ∷ "sign up"
    ∷ "register" ∷ []

abbrev ends_word : Option (List ℕ) → Bool
ends_word none = false
ends_word (some []) = true
ends_word (some (c ∷ rest)) = not (is_word c)

-- `\bword\b`, for a word that begins and ends with a word character; `inside` is whether the
-- character before is one.
abbrev pub occurs : Bool → List ℕ → List ℕ → Bool
occurs inside word [] = not inside && ends_word (strip word [])
occurs inside word (c ∷ cs) =
    (not inside && ends_word (strip word (c ∷ cs))) || occurs (is_word c) word cs

-- The text between two spaces, and the test of one word in it.
unfoldable pub mentions : List ℕ → String → Bool
mentions lower word = occurs false (codes word) (32 ∷ lower ++ 32 ∷ [])

abbrev pub score : (String → Bool) → List String → ℕ
score test words = length (filter test words)

-- The loop over the kinds: the words found, the best kind and its score.
pub record Tally : Type 0 where
  pub best_kind : Option SeasonalKind
  pub best_score : ℕ

abbrev pub start : Tally
start = record { best_kind = none; best_score = 0 }

unfoldable pub count : (String → Bool) → KindWords → Tally → Tally
count test k tally =
    if ltb tally.best_score (score test k.words)
    then record { best_kind = some k.kind; best_score = score test k.words }
    else tally

unfoldable pub tally_from : (String → Bool) → List KindWords → Tally → Tally
tally_from test [] tally = tally
tally_from test (k ∷ ks) tally = tally_from test ks (count test k tally)

abbrev pub found : (String → Bool) → List KindWords → List String
found test [] = []
found test (k ∷ ks) = filter test k.words ++ found test ks

-- `[...new Set(texts)]`
abbrev pub distinct : List String → List String
distinct [] = []
distinct (x ∷ xs) = x ∷ filter (λ y. not (str_eq y x)) (distinct xs)

abbrev is_empty : List String → Bool
is_empty [] = true
is_empty (x ∷ xs) = false

abbrev pub confidence_of : ℕ → Bool → ℕ
confidence_of best_score hinted = min 100 (max 30 (40 * best_score + (if hinted then 30 else 0)))

unfoldable pub intent_of : (String → Bool) → SeasonalIntent
intent_of test =
    let tally : Tally = tally_from test kind_keywords start in
    let hints : List String = filter test seasonal_hints in
    let hinted : Bool = not (is_empty hints) in
    let is_seasonal : Bool = ltb 0 tally.best_score || hinted in
    record {
      is_seasonal = is_seasonal;
      kind = tally.best_kind;
      confidence = if is_seasonal then confidence_of tally.best_score hinted else 0;
      matched = distinct (found test kind_keywords ++ hints);
    }

unfoldable pub classify_seasonal_intent : List ℕ → SeasonalIntent
classify_seasonal_intent lower = intent_of (mentions lower)
