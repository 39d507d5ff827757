-- ===== src/Alerts/Status.antt =====
-- The status of an alert is a projection of its decision history, in every state that the service of
-- crates/alerts/src/service.rs can reach.
use mathlib.Core.List.{append-nil}
use stellar_risk.Common.{
  String, ◌≡◌, refl, sym, ◌∙◌, ap, Bool, true, false, Option, none, some, List, [], ◌∷◌, ◌++◌, map,
  if◌then◌else◌, nat_eq, nat_eq_iff, last?, last?-append, Bool-cases, inl, inr,
}
use stellar_risk.Platform.{Platform, Uuid, Json}
use stellar_risk.Codec.{Codec}
use stellar_risk.Domain.AlertStatus.{AlertStatus}
use stellar_risk.Domain.Decision
use stellar_risk.Domain.Decision.{Decision}
use stellar_risk.Domain.Transaction.{TxId}
use stellar_risk.Domain.Rule.{RuleTrigger}
use stellar_risk.Domain.Alert.{
  AiAdvisory, AiAdvisoryStatus, ready, unavailable, Alert, InvestigatorDecisionRecord,
}
use stellar_risk.Domain.AuditEvent.{
  alert_created, ai_advisory_requested, ai_advisory_received, ai_advisory_unavailable,
  investigator_decision, AuditRecord,
}
use stellar_risk.Audit.Chain.{verify_chain}
use stellar_risk.Audit.Linked.{verify_chain_iff}
use stellar_risk.Audit.Growth.{IsChained, append-IsChained}
use stellar_risk.Audit.Store.{NewAuditEvent}
use stellar_risk.Alerts.Laws.{
  get-insert, get-set_ai_status, get-record_decision, decision_history-insert,
  decision_history-set_ai_status, decision_history-record_decision,
}
use stellar_risk.Alerts.Memory
use stellar_risk.Alerts.Memory.{AlertStore, insert, set_ai_status, record_decision, map_option}
use stellar_risk.Alerts.Service.{
  NewAlert, World, Ambient, make_alert, for_both, get, decision_history, audited, create_alert,
  record_ai_advisory_requested, record_ai_advisory, record_ai_unavailable, make_decision, decide,
  submit_decision,
}

module _ ⦃p : Platform⦄ where
  open p use {F64}

  -- The status that the latest decision names, and open before any.
  abbrev latest : Option InvestigatorDecisionRecord → AlertStatus
  latest none = AlertStatus.«open»
  latest (some d) = Decision.to_status d.decision

  abbrev pub status_of : List InvestigatorDecisionRecord → AlertStatus
  status_of ds = latest (last? ds)

  -- What the history and the alert of one identifier have to do with each other.
  abbrev pub Agrees : Option Alert → List InvestigatorDecisionRecord → Type 0
  Agrees none ds = ds ≡ []
  Agrees (some a) ds = a.status ≡ status_of ds

  abbrev IsProjected : AlertStore → Type 0
  IsProjected s = (j : Uuid) → Agrees (Memory.get j s) (Memory.decision_history j s)

  status_of-append :
      (ds : List InvestigatorDecisionRecord) (r : InvestigatorDecisionRecord)
      → status_of (ds ++ r ∷ []) ≡ Decision.to_status r.decision
  status_of-append ds r = ap latest (last?-append ds r)

  no_decisions :
      (i j : Uuid) (s : AlertStore)
      → i ≡ j
      → Memory.get i s ≡ none
      → IsProjected s
      → Memory.decision_history j s ≡ []
  no_decisions i j s e fresh h = rw (sym e) (rw fresh at (h i))

  insert-IsProjected :
      (a : Alert) (s : AlertStore)
      → a.status ≡ AlertStatus.«open»
      → Memory.get a.id s ≡ none
      → IsProjected s
      → IsProjected (insert a s)
  insert-IsProjected a s o fresh h j =
      rw (get-insert, decision_history-insert)
        (elim (Bool-cases (nat_eq a.id j)) [
          | inl e ↦ rw e (
              o
              ∙ sym
                  (ap status_of {y = []} (no_decisions a.id j s ((nat_eq_iff a.id j).0 e) fresh h)))
          | inr e ↦ rw e (h j)
        ])

  Agrees-ai :
      (b : Bool) (st : AiAdvisoryStatus) (o : Option Alert) (ds : List InvestigatorDecisionRecord)
      → Agrees o ds
      → Agrees (if b then map_option (λ a. record a { ai_status = st }) o else o) ds
  Agrees-ai true st none ds h = h
  Agrees-ai true st (some a) ds h = h
  Agrees-ai false st o ds h = h

  set_ai_status-IsProjected :
      (id : Uuid) (st : AiAdvisoryStatus) (s : AlertStore)
      → IsProjected s
      → IsProjected (set_ai_status id st s)
  set_ai_status-IsProjected id st s h j =
      rw (get-set_ai_status, decision_history-set_ai_status)
        (Agrees-ai (nat_eq id j) st (Memory.get j s) (Memory.decision_history j s) (h j))

  record_decision-IsProjected :
      (r : InvestigatorDecisionRecord) (s : AlertStore) (a : Alert)
      → Memory.get r.alert_id s ≡ some a
      → IsProjected s
      → IsProjected (record_decision r (Decision.to_status r.decision) s)
  record_decision-IsProjected r s a present h j =
      rw (get-record_decision, decision_history-record_decision)
        (elim (Bool-cases (nat_eq r.alert_id j)) [
          | inl e ↦ rw e (
              rw (sym ((nat_eq_iff r.alert_id j).0 e), present)
                (sym (status_of-append (Memory.decision_history r.alert_id s) r)))
          | inr e ↦ rw e (rw (append-nil (Memory.decision_history j s)) (h j))
        ])

  module _ ⦃c : Codec⦄ where
    -- One call of the service. A generated identifier is one that no alert has.
    pub data Step (w : World) : World → Type 0 where
      created :
          (n : NewAlert) (env : Ambient) → get env.id w ≡ none → Step w (create_alert n env w).1
      requested :
          (id : Uuid) (tx_id : TxId) (payload : Json F64) (env : Ambient)
          → Step w (record_ai_advisory_requested id tx_id payload env w).1
      advised :
          (id : Uuid) (tx_id : TxId) (advisory : AiAdvisory) (env : Ambient)
          → Step w (record_ai_advisory id tx_id advisory env w).1
      not_advised :
          (id : Uuid) (tx_id : TxId) (reason : String) (env : Ambient)
          → Step w (record_ai_unavailable id tx_id reason env w).1
      decided :
          (id : Uuid) (inv : String) (d : Decision) (why : String) (env : Ambient)
          → Step w (submit_decision id inv d why env w).1

  -- No alert, and an empty log.
  abbrev pub initial : World
  initial = record { store = Memory.empty; log = [] }

  module _ ⦃c : Codec⦄ where
    -- The states that calls of the service lead to.
    pub data Reach : World → Type 0 where
      start : Reach initial
      next : {w w' : World} → Reach w → Step w w' → Reach w'

    pub record IsSound (w : World) : Type 0 where
      pub projected : IsProjected w.store
      pub chained : IsChained w.log

    audited-IsSound :
        {A : Type 0} (n : NewAuditEvent) (env : Ambient) (store : AlertStore)
        (log : List AuditRecord) (a : A)
        → IsProjected store
        → IsChained log
        → IsSound (audited n env store log a).1
    unfolding audited
    audited-IsSound n env store log a h k = record {
      projected = h;
      chained = append-IsChained n env.audit_now env.audit_id log k;
    }

    decide-IsSound :
        (id : Uuid) (inv : String) (d : Decision) (why : String) (env : Ambient) (w : World)
        (o : Option Alert)
        → get id w ≡ o
        → IsSound w
        → IsSound (decide id inv d why env w o).1
    unfolding decide get
    decide-IsSound id inv d why env w none e h = h
    decide-IsSound id inv d why env w (some a) e h =
        audited-IsSound (for_both id a.tx_id (investigator_decision inv d why a.status)) env
          (record_decision (make_decision id inv d why env) (Decision.to_status d) w.store) w.log
          (make_decision id inv d why env)
          (record_decision-IsProjected (make_decision id inv d why env) w.store a e h.projected)
          h.chained

    Step-IsSound : (w w' : World) → Step w w' → IsSound w → IsSound w'
    unfolding create_alert record_ai_advisory_requested record_ai_advisory record_ai_unavailable
        submit_decision get
    Step-IsSound w _ (created n env fresh) h =
        audited-IsSound
          (for_both env.id n.tx_id (
            alert_created n.tx_id (map (λ t. RuleTrigger.rule_id t) n.triggered_rules) n.severity
              n.score))
          env (insert (make_alert n env) w.store) w.log (make_alert n env)
          (insert-IsProjected (make_alert n env) w.store refl fresh h.projected) h.chained
    Step-IsSound w _ (requested id tx_id payload env) h =
        audited-IsSound (for_both id tx_id (ai_advisory_requested payload)) env w.store w.log tt
          h.projected h.chained
    Step-IsSound w _ (advised id tx_id advisory env) h =
        audited-IsSound (for_both id tx_id (ai_advisory_received advisory)) env
          (set_ai_status id (ready advisory) w.store) w.log tt
          (set_ai_status-IsProjected id (ready advisory) w.store h.projected) h.chained
    Step-IsSound w _ (not_advised id tx_id reason env) h =
        audited-IsSound (for_both id tx_id (ai_advisory_unavailable reason)) env
          (set_ai_status id (unavailable reason env.now) w.store) w.log tt
          (set_ai_status-IsProjected id (unavailable reason env.now) w.store h.projected) h.chained
    Step-IsSound w _ (decided id inv d why env) h =
        decide-IsSound id inv d why env w (get id w) refl h

    Reach-IsSound : {w : World} → Reach w → IsSound w
    unfolding Memory.get Memory.decision_history Memory.lookup
    Reach-IsSound start = record {
      projected = λ j. refl;
      chained = record { linked = tt; numbered = tt };
    }
    Reach-IsSound (next {w = w} {w' = w'} r st) = Step-IsSound w w' st (Reach-IsSound r)

    -- In every state that calls of the service lead to, each alert has the status that its latest
    -- decision names, or is open where it has none, and an identifier without an alert has no
    -- decisions.
    pub reach_status : (w : World) (id : Uuid) → Reach w → Agrees (get id w) (decision_history id w)
    unfolding get decision_history
    reach_status w id r = (Reach-IsSound r).projected id

    -- In every state that calls of the service lead to, `verify_chain` accepts the audit log.
    pub reach_verifies : (w : World) → Reach w → (verify_chain w.log).valid ≡ true
    reach_verifies w r = (verify_chain_iff w.log).0.1 (Reach-IsSound r).chained.linked
