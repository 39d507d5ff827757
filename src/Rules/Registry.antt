-- ===== src/Rules/Registry.antt =====
-- crates/rules_engine/src/rule.rs, registry.rs and `evaluate` of lib.rs.
use stellar_risk.Common.{String, List, [], ◌∷◌, ◌++◌, map}
use stellar_risk.Platform.{Platform}
use stellar_risk.Domain.Rule.{RuleTrigger, EvaluationResult}
use stellar_risk.Rules.Config.{ScoringConfig}
use stellar_risk.Rules.Context.{EvaluationContext}
use stellar_risk.Rules.BuiltIn.{
  large_transfer, velocity, abnormal_frequency, flagged_account, unusual_asset, operation_count,
}
use stellar_risk.Rules.Scoring.{score_and_severity}

module _ ⦃p : Platform⦄ where
  -- The trait `Rule`.
  pub record Rule : Type 0 where
    pub id : String
    pub name : String
    pub evaluate : EvaluationContext → List RuleTrigger

  pub record RuleRegistry : Type 0 where
    pub rules : List Rule

  -- `RuleRegistry::new`
  abbrev pub empty : RuleRegistry
  empty = record { rules = [] }

  unfoldable pub built_in_rules : List Rule
  built_in_rules =
      record { id = "large_transfer"; name = "Unusually Large Transfer"; evaluate = large_transfer }
      ∷ record {
        id = "velocity";
        name = "Repeated Transactions In Short Window";
        evaluate = velocity;
      }
      ∷ record {
        id = "abnormal_frequency";
        name = "Abnormal Transaction Frequency";
        evaluate = abnormal_frequency;
      }
      ∷ record {
        id = "flagged_account_interaction";
        name = "Interaction With Flagged Account";
        evaluate = flagged_account;
      }
      ∷ record {
        id = "unusual_asset_movement";
        name = "Unusual Asset Movement";
        evaluate = unusual_asset;
      }
      ∷ record {
        id = "operation_count_threshold";
        name = "Excessive Operation Count";
        evaluate = operation_count;
      }
      ∷ []

  unfoldable pub with_built_ins : RuleRegistry
  unfolding built_in_rules
  with_built_ins = record { rules = built_in_rules }

  unfoldable pub register : Rule → RuleRegistry → RuleRegistry
  register r g = record { rules = g.rules ++ r ∷ [] }

  unfoldable pub rule_ids : RuleRegistry → List String
  rule_ids g = map (λ r. Rule.id r) g.rules

  -- `flat_map` over the rules, in order.
  unfoldable pub run_rules : List Rule → EvaluationContext → List RuleTrigger
  run_rules [] ctx = []
  run_rules (r ∷ rs) ctx = r.evaluate ctx ++ run_rules rs ctx

  unfoldable pub evaluate_all : RuleRegistry → EvaluationContext → List RuleTrigger
  unfolding run_rules
  evaluate_all g ctx = run_rules g.rules ctx

  unfoldable pub evaluate : RuleRegistry → EvaluationContext → ScoringConfig → EvaluationResult
  unfolding evaluate_all
  evaluate g ctx scoring =
      let triggers = evaluate_all g ctx in
      let (score, severity) = score_and_severity triggers scoring in
      record { tx_id = ctx.tx.tx_id; triggers = triggers; score = score; severity = severity }
