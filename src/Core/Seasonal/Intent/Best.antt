-- ===== src/Core/Seasonal/Intent/Best.antt =====
-- seasonal.ts, classifySeasonalIntent: the kind, the flag and the confidence, against the words that
-- occur in the text.
use nestai.Prelude.{
  ◌∙◌, sym, subst, ap, Some-element, All-map, ℕ, ◌≤◌, ◌<◌, ◌≡◌, refl, ◌⊎◌, inl, inr, ◌↔◌, Bool,
  true, false, String, List, [], ◌∷◌, Option, none, some, arith, ltb, filter, All, Some, here,
  there, Some-map, Bool-cases, All-map,
}
use nestai.Contracts.Enums.{SeasonalKind}
use nestai.Core.Seasonal.Intent.{
  SeasonalIntent, KindWords, Tally, kind_keywords, seasonal_hints, mentions, score, start, count,
  tally_from, intent_of, is_empty, classify_seasonal_intent,
}

module _ (test : String → Bool) where
  abbrev tally_of : KindWords → Tally
  tally_of k = record { best_kind = some k.kind; best_score = score test k.words }

  abbrev AtMost : ℕ → KindWords → Type 0
  AtMost n k = score test k.words ≤ n

  abbrev IsFrom : Tally → KindWords → Type 0
  IsFrom result k = (0 < score test k.words) × (result ≡ tally_of k)

  count_lem :
      (k : KindWords) (t : Tally)
      → (t.best_score ≤ (count test k t).best_score)
        × AtMost (count test k t).best_score k
        × ((count test k t ≡ t) ⊎ IsFrom (count test k t) k)
  unfolding count
  count_lem k t = elim (Bool-cases (ltb t.best_score (score test k.words))) [
    | inl e ↦ rw e (ground (arith, e), omega arith, inr (ground (arith, e), refl))
    | inr e ↦ rw e (omega arith, ground (arith, e), inl refl)
  ]

  tally_from_lem :
      (ks : List KindWords) (t : Tally)
      → (t.best_score ≤ (tally_from test ks t).best_score)
        × All (AtMost (tally_from test ks t).best_score) ks
        × ((tally_from test ks t ≡ t) ⊎ Some (IsFrom (tally_from test ks t)) ks)
  unfolding tally_from
  tally_from_lem [] t = (omega arith, tt, inl refl)
  tally_from_lem (k ∷ ks) t =
      let (more, covers, from) = count_lem k t in
      let (grows, covered, later) = tally_from_lem ks (count test k t) in
      (
        omega (arith, more, grows),
        (omega (arith, covers, grows), covered),
        elim later [
          | inr s ↦ inr (there s)
          | inl same ↦ elim from [
            | inl kept ↦ inl (same ∙ kept)
            | inr (some_occur, named) ↦ inr (here (some_occur, same ∙ named))
          ]
        ],
      )

  -- What is said of the words that occur: a kind is the kind of a group of keywords of which some
  -- occur, and of no other group do more occur; no kind is named when no keyword occurs.
  pub data IsBest : Option SeasonalKind → Type 0 where
    unnamed : All (λ k. score test k.words ≡ 0) kind_keywords → IsBest none
    named :
        (n : ℕ) {kind : SeasonalKind}
        → 0 < n
        → Some (λ k. (k.kind ≡ kind) × (score test k.words ≡ n)) kind_keywords
        → All (λ k. score test k.words ≤ n) kind_keywords
        → IsBest (some kind)

  unlisted :
      (t : Tally) (ks : List KindWords)
      → t ≡ start
      → All (AtMost t.best_score) ks
      → All (λ k. score test k.words ≡ 0) ks
  unlisted t ks none_yet covers = All-map ks (λ k h. ground arith) covers

  tally_lem :
      (t : Tally)
      → All (AtMost t.best_score) kind_keywords
      → (t ≡ start) ⊎ Some (IsFrom t) kind_keywords
      → IsBest t.best_kind
  tally_lem t covers (inl none_yet) =
      subst (λ x. IsBest x.best_kind) (sym none_yet)
        (unnamed (unlisted t kind_keywords none_yet covers))
  tally_lem t covers (inr from) =
      let (k, (some_occur, same), listed) = Some-element from in
      subst (λ x. IsBest x.best_kind) (sym same)
        (named (score test k.words) some_occur
          (Some-map (λ x e. (ap (λ y. y.kind) e, ap (λ y. score test y.words) e)) listed)
          (All-map kind_keywords (λ x h. subst (λ y. score test x.words ≤ y.best_score) same h)
            covers))

  intent_of-IsBest : IsBest (intent_of test).kind
  unfolding intent_of
  intent_of-IsBest =
      let (grows, covers, from) = tally_from_lem kind_keywords start in tally_lem _ covers from

  hit_of_filter :
      (xs : List String) → is_empty (filter test xs) ≡ false → Some (λ x. test x ≡ true) xs
  hit_of_filter [] e = cc
  hit_of_filter (x ∷ xs) e = elim (Bool-cases (test x)) [
    | inl hit ↦ here hit
    | inr miss ↦ there (hit_of_filter xs (rw miss at e))
  ]

  filter_of_hit :
      {xs : List String} → Some (λ x. test x ≡ true) xs → is_empty (filter test xs) ≡ false
  filter_of_hit (here hit) = rw hit refl
  filter_of_hit (there {x} {xs} s) = ground (arith, filter_of_hit s)

  score_of_hit : {xs : List String} → Some (λ x. test x ≡ true) xs → 0 < score test xs
  score_of_hit (here hit) = ground (arith, hit)
  score_of_hit (there {x} {xs} s) = ground (arith, score_of_hit s)

  hit_of_score : (xs : List String) → 0 < score test xs → Some (λ x. test x ≡ true) xs
  hit_of_score [] h = absurd (omega arith)
  hit_of_score (x ∷ xs) h = elim (Bool-cases (test x)) [
    | inl hit ↦ here hit
    | inr miss ↦ there (hit_of_score xs (rw miss at h))
  ]

  -- Some keyword of some kind occurs.
  abbrev pub SomeKeyword : Type 0
  SomeKeyword = Some (λ k. Some (λ w. test w ≡ true) k.words) kind_keywords

  abbrev pub SomeHint : Type 0
  SomeHint = Some (λ w. test w ≡ true) seasonal_hints

  score_of_keyword :
      (n : ℕ) {ks : List KindWords}
      → All (AtMost n) ks
      → Some (λ k. Some (λ w. test w ≡ true) k.words) ks
      → 0 < n
  score_of_keyword n covers (here hit) = omega (arith, covers.0, score_of_hit hit)
  score_of_keyword n covers (there s) = score_of_keyword n covers.1 s

  keyword_of_score :
      (t : Tally) → (t ≡ start) ⊎ Some (IsFrom t) kind_keywords → 0 < t.best_score → SomeKeyword
  keyword_of_score t (inl none_yet) h = absurd (ground arith)
  keyword_of_score t (inr from) h = Some-map (λ k found. hit_of_score k.words found.0) from

  abbrev final : Tally
  final = tally_from test kind_keywords start

  scored_iff : (0 < final.best_score) ↔ SomeKeyword
  scored_iff =
      let (grows, covers, from) = tally_from_lem kind_keywords start in
      (keyword_of_score _ from, score_of_keyword _ covers)

  hinted_iff : (is_empty (filter test seasonal_hints) ≡ false) ↔ SomeHint
  hinted_iff = (hit_of_filter seasonal_hints, filter_of_hit)

  intent_of_iff : ((intent_of test).is_seasonal ≡ true) ↔ (SomeKeyword ⊎ SomeHint)
  unfolding intent_of
  intent_of_iff = ground (arith, scored_iff, hinted_iff)

  intent_of-confidence :
      (((intent_of test).is_seasonal ≡ false) × ((intent_of test).confidence ≡ 0))
      ⊎ (((intent_of test).is_seasonal ≡ true)
          × (30 ≤ (intent_of test).confidence)
          × ((intent_of test).confidence ≤ 100))
  unfolding intent_of
  intent_of-confidence = ground arith

-- The kind is that of a group of keywords of which some occur, and of no other group do more occur.
-- The text is seasonal exactly when a keyword or a hint occurs. The confidence is 0 when it is not
-- seasonal, and from 30 to 100 hundredths when it is.
pub record IsClassified (test : String → Bool) (intent : SeasonalIntent) : Type 0 where
  pub best : IsBest test intent.kind
  pub seasonal : (intent.is_seasonal ≡ true) ↔ (SomeKeyword test ⊎ SomeHint test)
  pub confident :
      ((intent.is_seasonal ≡ false) × (intent.confidence ≡ 0))
      ⊎ ((intent.is_seasonal ≡ true) × (30 ≤ intent.confidence) × (intent.confidence ≤ 100))

-- A text is classified as seasonal exactly when a keyword or a hint occurs in it as a word. Its kind
-- is that of a group of keywords of which some occur and of no other group more, and none when no
-- keyword occurs. Its confidence is 0 when it is not seasonal, and from 30 to 100 hundredths when it
-- is.
pub classify_seasonal_intent-IsClassified :
    (lower : List ℕ) → IsClassified (mentions lower) (classify_seasonal_intent lower)
unfolding classify_seasonal_intent
classify_seasonal_intent-IsClassified lower = record {
  best = intent_of-IsBest (mentions lower);
  seasonal = intent_of_iff (mentions lower);
  confident = intent_of-confidence (mentions lower);
}
