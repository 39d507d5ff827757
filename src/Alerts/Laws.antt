-- ===== src/Alerts/Laws.antt =====
-- What each write of crates/alerts/src/memory.rs means for each read.
use stellar_risk.Common.{◌≡◌, refl, some, [], ◌∷◌, ◌++◌, if◌then◌else◌, nat_eq, filter-append}
use stellar_risk.Platform.{Platform, Uuid}
use stellar_risk.Domain.AlertStatus.{AlertStatus}
use stellar_risk.Domain.Alert.{AiAdvisoryStatus, Alert, InvestigatorDecisionRecord}
use stellar_risk.Alerts.Memory.{
  AlertStore, map_option, lookup-put, lookup-adjust, insert, get, set_ai_status, record_decision,
  decides, decision_history,
}

module _ ⦃p : Platform⦄ where
  pub get-insert :
      (j : Uuid) (a : Alert) (s : AlertStore)
      → get j (insert a s) ≡ (if nat_eq a.id j then some a else get j s)
  unfolding get insert
  get-insert j a s = lookup-put j a.id a s.alerts

  pub get-set_ai_status :
      (j id : Uuid) (st : AiAdvisoryStatus) (s : AlertStore)
      → get j (set_ai_status id st s)
        ≡ (if nat_eq id j then map_option (λ a. record a { ai_status = st }) (get j s) else get j s)
  unfolding get set_ai_status
  get-set_ai_status j id st s = lookup-adjust j id (λ a. record a { ai_status = st }) s.alerts

  pub get-record_decision :
      (j : Uuid) (r : InvestigatorDecisionRecord) (st : AlertStatus) (s : AlertStore)
      → get j (record_decision r st s) ≡ (
          if nat_eq r.alert_id j
          then map_option (λ a. record a { status = st }) (get j s)
          else get j s)
  unfolding get record_decision
  get-record_decision j r st s = lookup-adjust j r.alert_id (λ a. record a { status = st }) s.alerts

  pub decision_history-record_decision :
      (j : Uuid) (r : InvestigatorDecisionRecord) (st : AlertStatus) (s : AlertStore)
      → decision_history j (record_decision r st s)
        ≡ decision_history j s ++ (if nat_eq r.alert_id j then r ∷ [] else [])
  unfolding decision_history record_decision
  decision_history-record_decision j r st s = filter-append (decides j) s.decisions (r ∷ [])

  pub decision_history-insert :
      (j : Uuid) (a : Alert) (s : AlertStore)
      → decision_history j (insert a s) ≡ decision_history j s
  unfolding decision_history insert
  decision_history-insert j a s = refl

  pub decision_history-set_ai_status :
      (j id : Uuid) (st : AiAdvisoryStatus) (s : AlertStore)
      → decision_history j (set_ai_status id st s) ≡ decision_history j s
  unfolding decision_history set_ai_status
  decision_history-set_ai_status j id st s = refl
