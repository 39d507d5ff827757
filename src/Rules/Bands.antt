-- ===== src/Rules/Bands.antt =====
-- The score of crates/rules_engine/src/scoring.rs: its cap, and severity as triggers are added.
use stellar_risk.Common.{
  ℕ, ◌≤◌, ◌≡◌, refl, ◌↔◌, true, Option, none, some, List, [], ◌∷◌, ◌++◌, All, arith,
}
use stellar_risk.Platform.{Platform, FloatLaws}
use stellar_risk.Domain.Severity.{Severity}
use stellar_risk.Domain.Rule.{RuleTrigger}
use stellar_risk.Rules.Config.{ScoringConfig}
use stellar_risk.Rules.Scoring.{sum_weights, band, score_and_severity}

-- The severities in the order that the source derives, with none below all.
abbrev pub rank : Option Severity → ℕ
rank none = 0
rank (some Severity.low) = 1
rank (some Severity.medium) = 2
rank (some Severity.high) = 3
rank (some Severity.critical) = 4

module _ ⦃p : Platform⦄ (laws : FloatLaws) where
  open p use {F64, f64, f64_add, f64_min, f64_ge}

  band_mono :
      (c : ScoringConfig) (a b : F64)
      → f64_ge a b ≡ true
      → rank (some (band c b)) ≤ rank (some (band c a))
  unfolding band
  band_mono c a b h = ground (
    arith,
    laws.ge_trans a b c.critical_threshold h,
    laws.ge_trans a b c.high_threshold h,
    laws.ge_trans a b c.medium_threshold h,
  )

  sum_weights-append :
      (acc : F64) (ts : List RuleTrigger) (t : RuleTrigger)
      → sum_weights acc (ts ++ t ∷ []) ≡ f64_add (sum_weights acc ts) t.weight
  unfolding sum_weights
  sum_weights-append acc [] t = refl
  sum_weights-append acc (x ∷ xs) t = sum_weights-append (f64_add acc x.weight) xs t

  -- The weight is zero or more, which no value that is not a number is.
  abbrev pub IsWeighted : RuleTrigger → Type 0
  IsWeighted t = f64_ge t.weight (f64 0) ≡ true

  sum_weights_nonneg :
      (acc : F64) (ts : List RuleTrigger)
      → f64_ge acc (f64 0) ≡ true
      → All IsWeighted ts
      → f64_ge (sum_weights acc ts) (f64 0) ≡ true
  unfolding sum_weights
  sum_weights_nonneg acc [] h w = h
  sum_weights_nonneg acc (t ∷ ts) h w =
      sum_weights_nonneg (f64_add acc t.weight) ts
        (laws.ge_trans (f64_add acc t.weight) acc (f64 0) (laws.add_grows acc t.weight h w.0) h) w.1

  -- Where every weight is zero or more, one more trigger of such a weight never lowers the severity.
  pub more_triggers :
      (c : ScoringConfig) (ts : List RuleTrigger) (t : RuleTrigger)
      → All IsWeighted ts
      → IsWeighted t
      → rank (score_and_severity ts c).1 ≤ rank (score_and_severity (ts ++ t ∷ []) c).1
  unfolding score_and_severity
  more_triggers c [] t w v = omega arith
  more_triggers c (x ∷ xs) t w v =
      band_mono c (f64_min after c.max_score) (f64_min before c.max_score)
        (laws.min_mono after before c.max_score grows)
    where
      before : F64
      before = sum_weights (f64 0) (x ∷ xs)

      after : F64
      after = sum_weights (f64 0) (x ∷ xs ++ t ∷ [])

      grows : f64_ge after before ≡ true
      grows = rw sum_weights-append (
          laws.add_grows before t.weight (sum_weights_nonneg (f64 0) (x ∷ xs) laws.zero_number w) v)

  -- With a cap of zero or more, the score never exceeds the cap; there is a severity exactly where
  -- there is a trigger.
  pub score-le-max_score :
      (c : ScoringConfig) (ts : List RuleTrigger)
      → f64_ge c.max_score (f64 0) ≡ true
      → (f64_ge c.max_score (score_and_severity ts c).0 ≡ true)
        × (((score_and_severity ts c).1 ≡ none) ↔ (ts ≡ []))
  unfolding score_and_severity
  score-le-max_score c [] h = (h, (λ e. refl, λ e. refl))
  score-le-max_score c (t ∷ ts) h = (
    laws.min_le (sum_weights (f64 0) (t ∷ ts)) c.max_score (laws.ge_number c.max_score (f64 0) h),
    (λ e. cc, λ e. cc),
  )
