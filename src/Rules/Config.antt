-- ===== src/Rules/Config.antt =====
-- crates/rules_engine/src/config.rs
use stellar_risk.Common.{ℕ, String, Option, none, some, List, [], ◌∷◌, ◌==◌, if◌then◌else◌}
use stellar_risk.Common.Int.{ℤ, pos}
use stellar_risk.Platform.{Platform}

module _ ⦃p : Platform⦄ where
  open p use {F64, Decimal, f64, decimal_of}

  pub record RulesConfig : Type 0 where
    -- A `HashMap`, as the list of its entries.
    pub large_transfer_thresholds : List (String × Decimal)
    pub large_transfer_default_threshold : Decimal
    pub velocity_window_secs : ℤ
    pub velocity_max_tx_count : ℕ
    pub frequency_deviation_multiplier : F64
    pub min_baseline_observations : ℕ
    pub max_operations_per_tx : ℕ

  -- `Default for RulesConfig`
  abbrev pub default_rules_config : RulesConfig
  default_rules_config = record {
    large_transfer_thresholds = [];
    large_transfer_default_threshold = decimal_of 10000;
    velocity_window_secs = pos 60;
    velocity_max_tx_count = 5;
    frequency_deviation_multiplier = f64 3;
    min_baseline_observations = 5;
    max_operations_per_tx = 20;
  }

  pub record ScoringConfig : Type 0 where
    pub low_threshold : F64
    pub medium_threshold : F64
    pub high_threshold : F64
    pub critical_threshold : F64
    pub max_score : F64

  -- `Default for ScoringConfig`
  abbrev pub default_scoring_config : ScoringConfig
  default_scoring_config = record {
    low_threshold = f64 0;
    medium_threshold = f64 35;
    high_threshold = f64 60;
    critical_threshold = f64 80;
    max_score = f64 100;
  }

  -- `HashMap::get`
  unfoldable pub get : String → List (String × Decimal) → Option Decimal
  get k [] = none
  get k ((j, d) ∷ m) = if k == j then some d else get k m
