-- ===== src/Domain/Rule.antt =====
-- `RuleTrigger` and `EvaluationResult` of crates/domain/src/rule.rs.
use stellar_risk.Common.{String, Bool, true, false, Option, List, [], ◌∷◌}
use stellar_risk.Platform.{Platform, Json}
use stellar_risk.Domain.Severity.{Severity}
use stellar_risk.Domain.Transaction.{TxId}

module _ ⦃p : Platform⦄ where
  open p use {F64}

  pub record RuleTrigger : Type 0 where
    pub rule_id : String
    pub rule_name : String
    pub reason : String
    pub weight : F64
    pub evidence : Json F64

  pub record EvaluationResult : Type 0 where
    pub tx_id : TxId
    pub triggers : List RuleTrigger
    pub score : F64
    pub severity : Option Severity

  -- `is_empty` of a list of triggers.
  abbrev pub no_triggers : List RuleTrigger → Bool
  no_triggers [] = true
  no_triggers (t ∷ ts) = false

  unfoldable pub is_flagged : EvaluationResult → Bool
  is_flagged r = elim (no_triggers r.triggers) [ true ↦ false | false ↦ true ]
