-- ===== src/Rules/Scoring.antt =====
-- crates/rules_engine/src/scoring.rs
use stellar_risk.Common.{Option, none, some, List, [], ◌∷◌, if◌then◌else◌}
use stellar_risk.Platform.{Platform}
use stellar_risk.Domain.Severity.{Severity}
use stellar_risk.Domain.Rule.{RuleTrigger}
use stellar_risk.Rules.Config.{ScoringConfig}

module _ ⦃p : Platform⦄ where
  open p use {F64, f64, f64_add, f64_min, f64_ge}

  -- The sum of the weights, added from the left.
  unfoldable pub sum_weights : F64 → List RuleTrigger → F64
  sum_weights acc [] = acc
  sum_weights acc (t ∷ ts) = sum_weights (f64_add acc t.weight) ts

  unfoldable pub band : ScoringConfig → F64 → Severity
  band c score =
      if f64_ge score c.critical_threshold
      then Severity.critical
      else if f64_ge score c.high_threshold
      then Severity.high
      else if f64_ge score c.medium_threshold
      then Severity.medium
      else Severity.low

  unfoldable pub score_and_severity : List RuleTrigger → ScoringConfig → F64 × Option Severity
  unfolding sum_weights band
  score_and_severity [] c = (f64 0, none)
  score_and_severity (t ∷ ts) c =
      let score = f64_min (sum_weights (f64 0) (t ∷ ts)) c.max_score in (score, some (band c score))
