-- ===== src/Api/Transactions.antt =====
-- crates/api/src/routes/transactions.rs, and the handlers of alerts_api.rs that list, for an
-- investigator who is signed in.
use stellar_risk.Common.{
  String, Option, none, some, List, [], ◌∷◌, ok, err, ◌>>=◌, map_err, ok_or, to_option,
}
use stellar_risk.Common.Int.{pos}
use stellar_risk.Common.Text.{concat}
use stellar_risk.Platform.{Platform, Uuid}
use stellar_risk.Codec.{Codec}
use stellar_risk.Domain.AlertStatus
use stellar_risk.Domain.AlertStatus.{AlertStatus}
use stellar_risk.Domain.Role.{Investigator}
use stellar_risk.Domain.Rule.{EvaluationResult}
use stellar_risk.Domain.Transaction.{TxId, NormalizedTransaction}
use stellar_risk.Domain.Alert.{Alert, InvestigatorDecisionRecord}
use stellar_risk.Domain.AuditEvent.{AuditRecord}
use stellar_risk.Rules.Registry.{evaluate}
use stellar_risk.Alerts.Service
use stellar_risk.Alerts.Service.{World}
use stellar_risk.Advisor.Request.{AiAdvisor}
use stellar_risk.Storage.Query.{Faults}
use stellar_risk.Storage.Transactions.{list_recent, get, build_account_history}
use stellar_risk.Storage.Flagged.{all}
use stellar_risk.Pipeline.Process.{Settings, State, Surroundings, context_of, process_transaction}
use stellar_risk.Api.Error.{ApiError, missing, failed, from}
use stellar_risk.Api.Decisions.{ApiResult, require_admin}
use stellar_risk.Api.Query.{Params, number_or}

-- `params.get("status").and_then(|s| AlertStatus::from_str(s).ok())`
abbrev pub status_of : Option String → Option AlertStatus
status_of none = none
status_of (some s) = to_option (AlertStatus.from_str s)

module _ ⦃p : Platform⦄ where
  abbrev missing_transaction : TxId → ApiError
  missing_transaction tx_id = missing (concat ("transaction " ∷ tx_id ∷ " not found" ∷ []))

  unfoldable pub list_alerts : Params → World → List Alert
  unfolding number_or
  list_alerts params w =
      Service.list
        (record {
          status = status_of (params "status");
          limit = number_or "limit" (pos 50) params;
          offset = number_or "offset" (pos 0) params;
        })
        w

  unfoldable pub decision_history : Uuid → World → List InvestigatorDecisionRecord
  decision_history id w = Service.decision_history id w

  unfoldable pub alert_audit : Uuid → World → List AuditRecord
  alert_audit id w = Service.audit_history id w

  module _ ⦃c : Codec⦄ where
    unfoldable pub list_transactions :
        Params → Faults → State → ApiResult (List NormalizedTransaction)
    unfolding number_or
    list_transactions params faults s =
        map_err from (list_recent (number_or "limit" (pos 50) params) faults s.transactions)

    unfoldable pub get_transaction : TxId → Faults → State → ApiResult NormalizedTransaction
    get_transaction tx_id faults s = map_err from (get tx_id faults s.transactions) >>= λ tx.
        ok_or tx (missing_transaction tx_id)

    -- After `require_admin`; the answer is the alert that was opened, where one was.
    unfoldable pub ingest_transaction :
        AiAdvisor
        → Settings
        → Investigator
        → NormalizedTransaction
        → Surroundings
        → State
        → ApiResult (Option Uuid) × State
    unfolding require_admin process_transaction
    ingest_transaction advisor settings investigator tx env s = elim (require_admin investigator) [
      | err e ↦ (err e, s)
      | ok u ↦
          let (answer, s') = process_transaction advisor settings tx env s in
          (map_err (λ m. failed m) answer, s')
    ]

    -- It reads the tables and changes nothing; the evaluation is the one of the pipeline.
    unfoldable pub evaluate_transaction :
        Settings → TxId → Faults → Faults → Faults → State → ApiResult EvaluationResult
    unfolding get_transaction
    evaluate_transaction settings tx_id getting reading flagging s =
        get_transaction tx_id getting s >>= λ tx.
        map_err from (
          build_account_history tx.source_account tx.created_at settings.history_lookback
            settings.history_baseline_window reading s.transactions)
        >>= λ history. map_err from (all flagging s.flagged_accounts) >>= λ flagged. ok (
            evaluate settings.rule_registry (context_of settings tx history flagged)
              settings.scoring_config)
