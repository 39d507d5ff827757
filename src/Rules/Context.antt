-- ===== src/Rules/Context.antt =====
-- crates/rules_engine/src/context.rs
use stellar_risk.Common.{ℕ, String, List}
use stellar_risk.Platform.{Platform}
use stellar_risk.Domain.Transaction.{TxId, AccountId, Asset, NormalizedTransaction}
use stellar_risk.Rules.Config.{RulesConfig}

module _ ⦃p : Platform⦄ where
  open p use {F64, Decimal, DateTime}

  pub record RecentTransaction : Type 0 where
    pub tx_id : TxId
    pub created_at : DateTime
    pub counterparty : AccountId
    pub asset : Asset
    pub amount : Decimal

  pub record AccountHistory : Type 0 where
    pub account : AccountId
    pub recent_transactions : List RecentTransaction
    pub baseline_tx_per_hour : F64
    pub baseline_observations : ℕ
    -- A `HashSet`, as the list of its elements.
    pub known_assets : List String

  pub record EvaluationContext : Type 0 where
    pub tx : NormalizedTransaction
    pub source_history : AccountHistory
    pub flagged_accounts : List AccountId
    pub config : RulesConfig
    pub now : DateTime
