-- ===== src/Alerts/Review.antt =====
-- The review workflow of crates/alerts/src/service.rs: what `submit_decision` does on every branch,
-- and what the other calls leave alone.
use mathlib.Core.List.{append-nil}
use stellar_risk.Common.{
  map, String, ◌≡◌, ◌≢◌, refl, ◌∙◌, Option, none, some, List, [], ◌∷◌, ◌++◌, arith, if◌then◌else◌,
  nat_eq, ok, err,
}
use stellar_risk.Common.Text.{concat}
use stellar_risk.Platform.{Platform, Uuid, Json}
use stellar_risk.Codec.{Codec}
use stellar_risk.Domain.AlertStatus.{AlertStatus}
use stellar_risk.Domain.Decision
use stellar_risk.Domain.Decision.{Decision}
use stellar_risk.Domain.Error.{DomainResult, not_found, storage}
use stellar_risk.Domain.Transaction.{TxId}
use stellar_risk.Domain.Rule.{RuleTrigger}
use stellar_risk.Domain.Alert.{
  AiAdvisory, AiAdvisoryStatus, pending, ready, unavailable, Alert, InvestigatorDecisionRecord,
}
use stellar_risk.Domain.AuditEvent.{alert_created, investigator_decision, AuditRecord}
use stellar_risk.Audit.Chain.{AuditResult, display}
use stellar_risk.Audit.Store.{NewAuditEvent, append}
use stellar_risk.Audit.Growth.{IsMade, Appended, append-Appended}
use stellar_risk.Alerts.Memory.{
  AlertStore, map_option, decides, set_ai_status, record_decision, lookup-put, lookup-adjust,
}
use stellar_risk.Alerts.Laws.{
  get-insert, get-set_ai_status, get-record_decision, decision_history-insert,
  decision_history-set_ai_status, decision_history-record_decision,
}
use stellar_risk.Alerts.Memory
use stellar_risk.Alerts.Service.{
  NewAlert, make_alert, World, Ambient, or_storage_err, for_both, get, decision_history, audited,
  create_alert, record_ai_advisory_requested, record_ai_advisory, record_ai_unavailable,
  make_decision, decide, submit_decision,
}

module _ ⦃p : Platform⦄ where
  open p use {F64, uuid_text}

  module _ ⦃c : Codec⦄ where
    -- How a call ends once the store is written: the audit log has one more record, made for the
    -- event, and the answer is given; or the log is as it was, and the answer is a storage error.
    abbrev pub Audited :
        {A : Type 0}
        → NewAuditEvent
        → Ambient
        → AlertStore
        → List AuditRecord
        → A
        → DomainResult A × World
        → Type 0
    Audited n env store log a (ok b, w) =
        (b ≡ a)
        × (w.store ≡ store)
        × ((r : AuditRecord) × (w.log ≡ log ++ r ∷ []) × IsMade n env.audit_now env.audit_id log r)
    Audited n env store log a (err e, w) =
        (w.store ≡ store) × (w.log ≡ log) × ((m : String) × (e ≡ storage m))

    pub audited-Audited :
        {A : Type 0} (n : NewAuditEvent) (env : Ambient) (store : AlertStore)
        (log : List AuditRecord) (a : A)
        → Audited n env store log a (audited n env store log a)
    unfolding audited or_storage_err
    audited-Audited n env store log a =
        go (append n env.audit_now env.audit_id log)
          (append-Appended n env.audit_now env.audit_id log)
      where
        go :
            (out : AuditResult AuditRecord × List AuditRecord)
            → Appended n env.audit_now env.audit_id log out
            → Audited n env store log a
                (or_storage_err out.0 a, record { store = store; log = out.1 })
        go (ok r, log') (e, m) = (refl, refl, (r, e, m))
        go (err x, log') e = (refl, e, (display x, refl))

    -- For an alert that is there, `submit_decision` puts the alert in the status that the decision
    -- names and changes nothing else of it, adds one decision record at the end of its history, and
    -- then appends an audit event with the investigator, the decision, the rationale and the status
    -- before; if that append fails, the answer is a storage error.
    pub submit_decision_records :
        (id : Uuid) (inv : String) (d : Decision) (why : String) (env : Ambient) (w : World)
        (a : Alert)
        → get id w ≡ some a
        → (get id (submit_decision id inv d why env w).1
            ≡ some (record a { status = Decision.to_status d }))
          × (decision_history id (submit_decision id inv d why env w).1
              ≡ decision_history id w ++ make_decision id inv d why env ∷ [])
          × Audited
              (for_both id a.tx_id (investigator_decision inv d why a.status))
              env
              (record_decision (make_decision id inv d why env) (Decision.to_status d) w.store)
              w.log
              (make_decision id inv d why env)
              (submit_decision id inv d why env w)
    unfolding submit_decision decide get decision_history
    submit_decision_records id inv d why env w a h = rw h (
      get-record_decision id made (Decision.to_status d) w.store ∙ ground (arith, h),
      decision_history-record_decision id made (Decision.to_status d) w.store ∙ ground arith,
      audited-Audited (for_both id a.tx_id (investigator_decision inv d why a.status)) env
          (record_decision made (Decision.to_status d) w.store) w.log made,
    )
      where
        made : InvestigatorDecisionRecord
        made = make_decision id inv d why env

    -- A decision on one alert, whether it is recorded or refused, changes no other alert and no other
    -- history.
    pub submit_decision_others :
        (id j : Uuid) (inv : String) (d : Decision) (why : String) (env : Ambient) (w : World)
        → id ≢ j
        → (get j (submit_decision id inv d why env w).1 ≡ get j w)
          × (decision_history j (submit_decision id inv d why env w).1 ≡ decision_history j w)
    unfolding submit_decision decide get decision_history
    submit_decision_others id j inv d why env w ne = go (Memory.get id w.store)
      where
        made : InvestigatorDecisionRecord
        made = make_decision id inv d why env

        go :
            (o : Option Alert)
            → (Memory.get j (decide id inv d why env w o).1.store ≡ Memory.get j w.store)
              × (Memory.decision_history j (decide id inv d why env w o).1.store
                  ≡ Memory.decision_history j w.store)
        go none = (refl, refl)
        go (some a) = (
          get-record_decision j made (Decision.to_status d) w.store ∙ ground (arith, ne),
          decision_history-record_decision j made (Decision.to_status d) w.store
              ∙ ground (arith, ne, append-nil (Memory.decision_history j w.store)),
        )

    -- Without an alert of that identifier the answer is `NotFound`, and nothing changes.
    pub submit_decision_missing :
        (id : Uuid) (inv : String) (d : Decision) (why : String) (env : Ambient) (w : World)
        → get id w ≡ none
        → submit_decision id inv d why env w
          ≡ (err (not_found (concat ("alert " ∷ uuid_text id ∷ []))), w)
    unfolding submit_decision
    submit_decision_missing id inv d why env w h = rw h

    -- An alert in all but its advisory, and whatever concerns its review.
    abbrev pub without_ai : Alert → Alert
    without_ai a = record a { ai_status = pending }

    abbrev pub SameReview : Uuid → World → World → Type 0
    SameReview j w w' =
        (map_option without_ai (get j w') ≡ map_option without_ai (get j w))
        × (decision_history j w' ≡ decision_history j w)

    set_ai_status-SameReview :
        (j id : Uuid) (st : AiAdvisoryStatus) (s : AlertStore)
        → (map_option without_ai (Memory.get j (set_ai_status id st s))
            ≡ map_option without_ai (Memory.get j s))
          × (Memory.decision_history j (set_ai_status id st s) ≡ Memory.decision_history j s)
    set_ai_status-SameReview j id st s =
        (ground (arith, get-set_ai_status j id st s), decision_history-set_ai_status j id st s)

    pub record_ai_advisory_requested-SameReview :
        (j id : Uuid) (tx_id : TxId) (payload : Json F64) (env : Ambient) (w : World)
        → SameReview j w (record_ai_advisory_requested id tx_id payload env w).1
    unfolding record_ai_advisory_requested get decision_history
    record_ai_advisory_requested-SameReview j id tx_id payload env w = (refl, refl)

    pub record_ai_advisory-SameReview :
        (j id : Uuid) (tx_id : TxId) (advisory : AiAdvisory) (env : Ambient) (w : World)
        → SameReview j w (record_ai_advisory id tx_id advisory env w).1
    unfolding record_ai_advisory get decision_history
    record_ai_advisory-SameReview j id tx_id advisory env w =
        set_ai_status-SameReview j id (ready advisory) w.store

    pub record_ai_unavailable-SameReview :
        (j id : Uuid) (tx_id : TxId) (reason : String) (env : Ambient) (w : World)
        → SameReview j w (record_ai_unavailable id tx_id reason env w).1
    unfolding record_ai_unavailable get decision_history
    record_ai_unavailable-SameReview j id tx_id reason env w =
        set_ai_status-SameReview j id (unavailable reason env.now) w.store

    -- None of the three calls that concern the AI advisory changes anything of an alert but its
    -- advisory, its status least of all, or any decision history, whatever the advisory says and
    -- however the call ends.
    pub advisory-SameReview :
        (id j : Uuid) (tx_id : TxId) (payload : Json F64) (advisory : AiAdvisory) (reason : String)
        (env : Ambient) (w : World)
        → SameReview j w (record_ai_advisory_requested id tx_id payload env w).1
          × SameReview j w (record_ai_advisory id tx_id advisory env w).1
          × SameReview j w (record_ai_unavailable id tx_id reason env w).1
    advisory-SameReview id j tx_id payload advisory reason env w = (
      record_ai_advisory_requested-SameReview j id tx_id payload env w,
      record_ai_advisory-SameReview j id tx_id advisory env w,
      record_ai_unavailable-SameReview j id tx_id reason env w,
    )

    -- A new alert is open with its advisory pending, under the identifier that was generated; every
    -- other alert and every history is as before, and its creation is appended to the audit log.
    pub create_alert_opens :
        (n : NewAlert) (env : Ambient) (w : World) (j : Uuid)
        → (get j (create_alert n env w).1
            ≡ (if nat_eq env.id j then some (make_alert n env) else get j w))
          × ((make_alert n env).status ≡ AlertStatus.«open»)
          × ((make_alert n env).ai_status ≡ pending)
          × (decision_history j (create_alert n env w).1 ≡ decision_history j w)
          × Audited
              (for_both env.id n.tx_id (
                alert_created n.tx_id
                  (map (λ t. RuleTrigger.rule_id t) n.triggered_rules)
                  n.severity
                  n.score))
              env
              (Memory.insert (make_alert n env) w.store)
              w.log
              (make_alert n env)
              (create_alert n env w)
    unfolding create_alert get decision_history
    create_alert_opens n env w j = (
      get-insert j (make_alert n env) w.store,
      refl,
      refl,
      decision_history-insert j (make_alert n env) w.store,
      audited-Audited
          (for_both env.id n.tx_id (
            alert_created n.tx_id (map (λ t. RuleTrigger.rule_id t) n.triggered_rules) n.severity
              n.score))
          env (Memory.insert (make_alert n env) w.store) w.log (make_alert n env),
    )
