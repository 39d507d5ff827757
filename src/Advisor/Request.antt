-- ===== src/Advisor/Request.antt =====
-- crates/ai_advisor/src/request.rs, and the trait `AiAdvisor` of lib.rs. What `serde` derives for the
-- request, and the advisor itself, are parameters.
use stellar_risk.Common.{ℕ, String, List, Result, ok, err}
use stellar_risk.Platform.{Platform, Uuid, Json, object, end}
use stellar_risk.Domain.Severity.{Severity}
use stellar_risk.Domain.Transaction.{TxId}
use stellar_risk.Domain.Rule.{RuleTrigger}
use stellar_risk.Domain.Alert.{AiAdvisory}

pub record MovementSummary : Type 0 where
  pub asset : String
  pub amount : String
  pub from : String
  pub to : String

module _ ⦃p : Platform⦄ where
  open p use {F64}

  pub record HistorySummary : Type 0 where
    pub recent_transaction_count : ℕ
    pub baseline_tx_per_hour : F64
    pub known_asset_count : ℕ

  pub record AdvisoryRequest : Type 0 where
    pub alert_id : Uuid
    pub tx_id : TxId
    pub source_account : String
    pub movements : List MovementSummary
    pub triggered_rules : List RuleTrigger
    pub score : F64
    pub severity : Severity
    pub history : HistorySummary

  -- An advisor, whose error is its text, with the serialiser of its requests.
  pub record AiAdvisor : Type 0 where
    pub to_value : AdvisoryRequest → Result String (Json F64)
    pub investigate : AdvisoryRequest → Result String AiAdvisory

  -- `unwrap_or_else(|_| json!({}))`
  abbrev pub or_empty : Result String (Json F64) → Json F64
  or_empty (ok v) = v
  or_empty (err e) = object end

  unfoldable pub to_payload : AiAdvisor → AdvisoryRequest → Json F64
  to_payload a r = or_empty (a.to_value r)
