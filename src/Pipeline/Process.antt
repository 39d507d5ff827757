-- ===== src/Pipeline/Process.antt =====
-- `process_transaction` and `request_ai_advisory` of crates/api/src/pipeline.rs. The state is what the
-- stores behind `AppState` hold; the settings are its other fields.
use stellar_risk.Common.{String, Option, none, some, List, Result, ok, err, ◌>>=◌, map, length}
use stellar_risk.Platform.{Platform, Uuid}
use stellar_risk.Codec.{Codec}
use stellar_risk.Domain.Error.{DomainResult, display}
use stellar_risk.Domain.Severity.{Severity}
use stellar_risk.Domain.Transaction.{key, AssetMovement, NormalizedTransaction}
use stellar_risk.Domain.Rule.{EvaluationResult}
use stellar_risk.Domain.Alert.{AiAdvisory, Alert}
use stellar_risk.Rules.Config.{RulesConfig, ScoringConfig}
use stellar_risk.Rules.Context.{AccountHistory, EvaluationContext}
use stellar_risk.Rules.Registry.{RuleRegistry, evaluate}
use stellar_risk.Alerts.Collect.{accounts_and_assets}
use stellar_risk.Alerts.Service.{
  World, Ambient, create_alert, record_ai_advisory_requested, record_ai_advisory,
  record_ai_unavailable,
}
use stellar_risk.Storage.Query.{Faults}
use stellar_risk.Storage.Transactions.{TransactionRow, save, build_account_history}
use stellar_risk.Storage.Flagged.{FlaggedRow, all}
use stellar_risk.Advisor.Request.{MovementSummary, AdvisoryRequest, AiAdvisor, to_payload}

module _ ⦃p : Platform⦄ where
  open p use {DateTime, Duration, decimal_text}

  pub record Settings : Type 0 where
    pub rule_registry : RuleRegistry
    pub rules_config : RulesConfig
    pub scoring_config : ScoringConfig
    pub history_lookback : Duration
    pub history_baseline_window : Duration

  pub record State : Type 0 where
    pub world : World
    pub transactions : List TransactionRow
    pub flagged_accounts : List FlaggedRow

  -- What the clock, the generator of identifiers and the database answer during one call.
  pub record Surroundings : Type 0 where
    pub now : DateTime
    pub saving : Faults
    pub reading : Faults
    pub flagging : Faults
    pub creating : Ambient
    pub requesting : Ambient
    pub advising : Ambient

  abbrev pub summary_of : AssetMovement → MovementSummary
  summary_of m = record {
    asset = key m.asset;
    amount = decimal_text m.amount;
    from = m.from;
    to = m.to;
  }

  unfoldable pub request_of : Alert → NormalizedTransaction → AccountHistory → AdvisoryRequest
  request_of alert tx history = record {
    alert_id = alert.id;
    tx_id = tx.tx_id;
    source_account = tx.source_account;
    movements = map summary_of tx.movements;
    triggered_rules = alert.triggered_rules;
    score = alert.score;
    severity = alert.severity;
    history = record {
      recent_transaction_count = length history.recent_transactions;
      baseline_tx_per_hour = history.baseline_tx_per_hour;
      known_asset_count = length history.known_assets;
    };
  }

  abbrev pub context_of :
      Settings → NormalizedTransaction → AccountHistory → List String → EvaluationContext
  context_of settings tx history flagged = record {
    tx = tx;
    source_history = history;
    flagged_accounts = flagged;
    config = settings.rules_config;
    now = tx.created_at;
  }

  module _ ⦃c : Codec⦄ where
    -- What is recorded of the advisor's answer.
    unfoldable pub record_answer :
        Uuid → NormalizedTransaction → Ambient → World → Result String AiAdvisory → World
    record_answer id tx env w (ok advisory) = (record_ai_advisory id tx.tx_id advisory env w).1
    record_answer id tx env w (err e) = (record_ai_unavailable id tx.tx_id e env w).1

    -- The errors of the three calls are logged and nothing else.
    unfoldable pub request_ai_advisory :
        AiAdvisor → Alert → NormalizedTransaction → AccountHistory → Surroundings → World → World
    unfolding request_of to_payload record_answer
    request_ai_advisory advisor alert tx history env w =
        let request = request_of alert tx history in
        let w' =
          (record_ai_advisory_requested alert.id tx.tx_id (to_payload advisor request)
            env.requesting w).1 in
        record_answer alert.id tx env.advising w' (advisor.investigate request)

    -- After `create_alert`.
    unfoldable pub advise :
        AiAdvisor
        → NormalizedTransaction
        → AccountHistory
        → Surroundings
        → DomainResult Alert × World
        → Result String (Option Uuid) × World
    unfolding request_ai_advisory
    advise advisor tx history env (ok alert, w) =
        (ok (some alert.id), request_ai_advisory advisor alert tx history env w)
    advise advisor tx history env (err e, w) = (err (display e), w)

    -- After the evaluation.
    unfoldable pub open_alert :
        AiAdvisor
        → NormalizedTransaction
        → AccountHistory
        → Surroundings
        → World
        → EvaluationResult
        → Option Severity
        → Result String (Option Uuid) × World
    unfolding advise
    open_alert advisor tx history env w evaluation none = (ok none, w)
    open_alert advisor tx history env w evaluation (some severity) =
        let (accounts, assets) = accounts_and_assets tx.source_account tx.movements in
        advise advisor tx history env (
          create_alert
            (record {
              tx_id = tx.tx_id;
              accounts = accounts;
              assets = assets;
              triggered_rules = evaluation.triggers;
              score = evaluation.score;
              severity = severity;
            })
            env.creating w)

    -- What the evaluation reads: the history and the flagged accounts, after the save.
    unfoldable pub gather :
        Settings
        → NormalizedTransaction
        → Surroundings
        → State
        → DomainResult (AccountHistory × List String) × List TransactionRow
    gather settings tx env s =
        let (saved, rows) = save tx env.now env.saving s.transactions in
        (
          saved >>= λ u.
              build_account_history tx.source_account tx.created_at settings.history_lookback
                settings.history_baseline_window env.reading rows
              >>= λ history.
                  all env.flagging s.flagged_accounts >>= λ flagged. ok (history, flagged),
          rows,
        )

    unfoldable pub evaluated :
        AiAdvisor
        → Settings
        → NormalizedTransaction
        → Surroundings
        → World
        → DomainResult (AccountHistory × List String)
        → Result String (Option Uuid) × World
    unfolding open_alert
    evaluated advisor settings tx env w (err e) = (err (display e), w)
    evaluated advisor settings tx env w (ok (history, flagged)) =
        let evaluation =
          evaluate settings.rule_registry (context_of settings tx history flagged)
            settings.scoring_config in
        open_alert advisor tx history env w evaluation evaluation.severity

    unfoldable pub process_transaction :
        AiAdvisor
        → Settings
        → NormalizedTransaction
        → Surroundings
        → State
        → Result String (Option Uuid) × State
    unfolding gather evaluated
    process_transaction advisor settings tx env s =
        let (inputs, rows) = gather settings tx env s in
        let (answer, world) = evaluated advisor settings tx env s.world inputs in
        (answer, record s { world = world; transactions = rows })
