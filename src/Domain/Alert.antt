-- ===== src/Domain/Alert.antt =====
-- The alert, the AI advisory and the decision record: crates/domain/src/alert.rs, ai.rs, decision.rs.
use stellar_risk.Common.{String, List}
use stellar_risk.Platform.{Platform, Uuid}
use stellar_risk.Domain.AlertStatus.{AlertStatus}
use stellar_risk.Domain.Decision.{Decision}
use stellar_risk.Domain.Severity.{Severity}
use stellar_risk.Domain.Transaction.{TxId, AccountId, Asset}
use stellar_risk.Domain.Rule.{RuleTrigger}

abbrev pub ai_advisory_disclaimer : String
ai_advisory_disclaimer =
    "AI Advisory — informational only. This is not a decision and does not change alert status. A human investigator must review and record the final decision."

pub record RiskAssessment : Type 0 where
  pub level : String
  pub rationale : String

module _ ⦃p : Platform⦄ where
  open p use {F64, F32, DateTime}

  pub record AiAdvisory : Type 0 where
    pub alert_id : Uuid
    pub generated_at : DateTime
    pub summary : String
    pub suspicious_signals : List String
    pub relevant_history : String
    pub risk_assessment : RiskAssessment
    pub recommended_next_steps : List String
    pub confidence : F32
    pub explanation : String
    pub model : String
    pub disclaimer : String

  pub data AiAdvisoryStatus : Type 0 where
    pending : AiAdvisoryStatus
    ready : AiAdvisory → AiAdvisoryStatus
    unavailable : String → DateTime → AiAdvisoryStatus

  pub record Alert : Type 0 where
    pub id : Uuid
    pub tx_id : TxId
    pub accounts : List AccountId
    pub assets : List Asset
    pub created_at : DateTime
    pub triggered_rules : List RuleTrigger
    pub score : F64
    pub severity : Severity
    pub status : AlertStatus
    pub ai_status : AiAdvisoryStatus

  pub record InvestigatorDecisionRecord : Type 0 where
    pub id : Uuid
    pub alert_id : Uuid
    pub investigator_id : String
    pub decision : Decision
    pub rationale : String
    pub created_at : DateTime
