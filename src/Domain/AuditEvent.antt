-- ===== src/Domain/AuditEvent.antt =====
-- crates/domain/src/audit_event.rs
use stellar_risk.Common.{String, Option, List}
use stellar_risk.Common.Int.{ℤ}
use stellar_risk.Platform.{Platform, Json, Uuid}
use stellar_risk.Domain.AlertStatus.{AlertStatus}
use stellar_risk.Domain.Decision.{Decision}
use stellar_risk.Domain.Severity.{Severity}
use stellar_risk.Domain.Transaction.{TxId}
use stellar_risk.Domain.Alert.{AiAdvisory}

module _ ⦃p : Platform⦄ where
  open p use {F64, DateTime}

  -- The fields of each event, in the order of the source.
  pub data AuditEventKind : Type 0 where
    alert_created : TxId → List String → Severity → F64 → AuditEventKind
    ai_advisory_requested : Json F64 → AuditEventKind
    ai_advisory_received : AiAdvisory → AuditEventKind
    ai_advisory_unavailable : String → AuditEventKind
    investigator_decision : String → Decision → String → AlertStatus → AuditEventKind
    ingestion_failure : String → Option String → String → AuditEventKind

  pub record AuditRecord : Type 0 where
    pub id : Uuid
    pub alert_id : Option Uuid
    pub tx_id : Option TxId
    pub event : AuditEventKind
    pub event_json : String
    pub created_at : DateTime
    pub sequence : ℤ
    pub prev_hash : String
    pub hash : String
