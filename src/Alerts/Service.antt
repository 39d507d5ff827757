-- ===== src/Alerts/Service.antt =====
-- `AlertService` of crates/alerts/src/service.rs over the in-memory alert store and audit log. A call
-- answers a result and the new state, since what was written before an error stays written.
use stellar_risk.Common.{String, Option, none, some, List, ok, err, map, [], ◌∷◌}
use stellar_risk.Common.Text.{concat}
use stellar_risk.Platform.{Platform, Uuid, Json}
use stellar_risk.Codec.{Codec}
use stellar_risk.Domain.AlertStatus.{AlertStatus}
use stellar_risk.Domain.Decision
use stellar_risk.Domain.Decision.{Decision}
use stellar_risk.Domain.Severity.{Severity}
use stellar_risk.Domain.Error.{DomainResult, not_found, storage}
use stellar_risk.Domain.Transaction.{TxId, AccountId, Asset}
use stellar_risk.Domain.Rule.{RuleTrigger}
use stellar_risk.Domain.Alert.{
  AiAdvisory, pending, ready, unavailable, Alert, InvestigatorDecisionRecord,
}
use stellar_risk.Domain.AuditEvent.{
  AuditEventKind, alert_created, ai_advisory_requested, ai_advisory_received,
  ai_advisory_unavailable, investigator_decision, AuditRecord,
}
use stellar_risk.Audit.Chain.{AuditResult, display}
use stellar_risk.Audit.Store.{NewAuditEvent, new_event, for_alert, for_tx, append, list_for_alert}
use stellar_risk.Alerts.Memory
use stellar_risk.Alerts.Memory.{AlertStore, AlertFilter, set_ai_status, record_decision}

module _ ⦃p : Platform⦄ where
  open p use {F64, DateTime, uuid_text}

  pub record NewAlert : Type 0 where
    pub tx_id : TxId
    pub accounts : List AccountId
    pub assets : List Asset
    pub triggered_rules : List RuleTrigger
    pub score : F64
    pub severity : Severity

  -- The two stores that the service holds.
  pub record World : Type 0 where
    pub store : AlertStore
    pub log : List AuditRecord

  -- What the clock and the generator of identifiers answer during one call: for the alert or the
  -- decision record, and for the audit record.
  pub record Ambient : Type 0 where
    pub id : Uuid
    pub now : DateTime
    pub audit_id : Uuid
    pub audit_now : DateTime

  -- `map_err(storage_err)?` and then the answer.
  unfoldable pub or_storage_err {ℓ} : {A : Type ℓ} → AuditResult AuditRecord → A → DomainResult A
  or_storage_err (ok r) a = ok a
  or_storage_err (err e) a = err (storage (display e))

  abbrev pub for_both : Uuid → TxId → AuditEventKind → NewAuditEvent
  for_both alert_id tx_id e = for_tx tx_id (for_alert alert_id (new_event e))

  -- The alert of `create_alert`: always open, with its advisory pending.
  unfoldable pub make_alert : NewAlert → Ambient → Alert
  make_alert n env = record {
    id = env.id;
    tx_id = n.tx_id;
    accounts = n.accounts;
    assets = n.assets;
    created_at = env.now;
    triggered_rules = n.triggered_rules;
    score = n.score;
    severity = n.severity;
    status = AlertStatus.«open»;
    ai_status = pending;
  }

  unfoldable pub get : Uuid → World → Option Alert
  get id w = Memory.get id w.store

  unfoldable pub list : AlertFilter → World → List Alert
  list f w = Memory.list f w.store

  unfoldable pub decision_history : Uuid → World → List InvestigatorDecisionRecord
  decision_history id w = Memory.decision_history id w.store

  unfoldable pub audit_history : Uuid → World → List AuditRecord
  audit_history id w = list_for_alert id w.log

  abbrev pub make_decision :
      Uuid → String → Decision → String → Ambient → InvestigatorDecisionRecord
  make_decision alert_id investigator_id decision rationale env = record {
    id = env.id;
    alert_id = alert_id;
    investigator_id = investigator_id;
    decision = decision;
    rationale = rationale;
    created_at = env.now;
  }

  module _ ⦃c : Codec⦄ where
    -- One `append` after the store has been written.
    unfoldable pub audited :
        {A : Type 0}
        → NewAuditEvent
        → Ambient
        → AlertStore
        → List AuditRecord
        → A
        → DomainResult A × World
    audited n env store log a =
        let (answer, log') = append n env.audit_now env.audit_id log in
        (or_storage_err answer a, record { store = store; log = log' })

    unfoldable pub create_alert : NewAlert → Ambient → World → DomainResult Alert × World
    unfolding make_alert audited
    create_alert n env w =
        let alert = make_alert n env in
        audited
          (for_both alert.id alert.tx_id (
            alert_created alert.tx_id (map (λ t. RuleTrigger.rule_id t) alert.triggered_rules)
              alert.severity alert.score))
          env (Memory.insert alert w.store) w.log alert

    unfoldable pub record_ai_advisory_requested :
        Uuid → TxId → Json F64 → Ambient → World → DomainResult (Unit {0}) × World
    unfolding audited
    record_ai_advisory_requested alert_id tx_id payload env w =
        audited (for_both alert_id tx_id (ai_advisory_requested payload)) env w.store w.log tt

    unfoldable pub record_ai_advisory :
        Uuid → TxId → AiAdvisory → Ambient → World → DomainResult (Unit {0}) × World
    unfolding audited
    record_ai_advisory alert_id tx_id advisory env w =
        audited (for_both alert_id tx_id (ai_advisory_received advisory)) env
          (set_ai_status alert_id (ready advisory) w.store) w.log tt

    unfoldable pub record_ai_unavailable :
        Uuid → TxId → String → Ambient → World → DomainResult (Unit {0}) × World
    unfolding audited
    record_ai_unavailable alert_id tx_id reason env w =
        audited (for_both alert_id tx_id (ai_advisory_unavailable reason)) env
          (set_ai_status alert_id (unavailable reason env.now) w.store) w.log tt

    -- What `submit_decision` does with the answer of `get`.
    unfoldable pub decide :
        Uuid
        → String
        → Decision
        → String
        → Ambient
        → World
        → Option Alert
        → DomainResult InvestigatorDecisionRecord × World
    unfolding audited
    decide alert_id investigator_id decision rationale env w none =
        (err (not_found (concat ("alert " ∷ uuid_text alert_id ∷ []))), w)
    decide alert_id investigator_id decision rationale env w (some alert) =
        let r = make_decision alert_id investigator_id decision rationale env in
        audited
          (for_both alert_id alert.tx_id
            (investigator_decision investigator_id decision rationale alert.status))
          env (record_decision r (Decision.to_status decision) w.store) w.log r

    unfoldable pub submit_decision :
        Uuid
        → String
        → Decision
        → String
        → Ambient
        → World
        → DomainResult InvestigatorDecisionRecord × World
    unfolding decide
    submit_decision alert_id investigator_id decision rationale env w =
        decide alert_id investigator_id decision rationale env w (get alert_id w)
