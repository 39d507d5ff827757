-- ===== src/Tests/Pipeline.antt =====
-- `process_transaction` of crates/api/src/pipeline.rs on one payment.
use stellar_risk.Common.{◌≡◌, refl, true, none, [], ◌∷◌, ok, err}
use stellar_risk.Common.Text.{show, parse_usize}
use stellar_risk.Storage.Flagged.{all}
use stellar_risk.Common.Sort.{has_key}
use stellar_risk.Platform.{null}
use stellar_risk.Domain.Transaction.{itself, key}
use stellar_risk.Rules.Config.{default_rules_config, default_scoring_config}
use stellar_risk.Rules.Context.{AccountHistory}
use stellar_risk.Rules.BuiltIn.{unusual_asset}
use stellar_risk.Rules.Registry.{with_built_ins}
use stellar_risk.Alerts.Review.{SameReview}
use stellar_risk.Alerts.Status.{initial}
use stellar_risk.Storage.Transactions.{save, build_account_history}
use stellar_risk.Storage.History.{own_assets_known}
use stellar_risk.Advisor.Request.{AiAdvisor}
use stellar_risk.Pipeline.Process.{
  Settings, State, Surroundings, context_of, gather, process_transaction,
}
use stellar_risk.Pipeline.Advice.{process_transaction-Alike}
use stellar_risk.Pipeline.Familiar.{unusual_asset-gather}
use stellar_risk.Tests.Alerts.{env, advisory}
use stellar_risk.Toy.{toy, toy_codec, usdc, transfer}

abbrev pub settings : Settings
settings = record {
  rule_registry = with_built_ins;
  rules_config = default_rules_config;
  scoring_config = default_scoring_config;
  history_lookback = 20;
  history_baseline_window = 30;
}

abbrev pub around : Surroundings
around = record {
  now = 50;
  saving = λ i. none;
  reading = λ i. none;
  flagging = λ i. none;
  creating = env;
  requesting = env;
  advising = env;
}

abbrev pub start : State
start = record { world = initial; transactions = []; flagged_accounts = [] }

-- One that always answers, and one that never does.
abbrev pub keen : AiAdvisor
keen = record { to_value = λ r. ok null; investigate = λ r. ok advisory }

abbrev absent : AiAdvisor
absent = record { to_value = λ r. err "no"; investigate = λ r. err "offline" }

abbrev history : AccountHistory
history = record {
  account = "alice";
  recent_transactions =
      record { tx_id = "t1"; created_at = 50; counterparty = "bob"; asset = usdc; amount = 20000 }
      ∷ [];
  baseline_tx_per_hour = 1;
  baseline_observations = 1;
  known_assets = "USDC" ∷ [];
}

process_transaction-Alike_example :
    ((process_transaction keen settings transfer around start).0
      ≡ (process_transaction absent settings transfer around start).0)
    × ((process_transaction keen settings transfer around start).1.transactions
        ≡ (process_transaction absent settings transfer around start).1.transactions)
    × ((process_transaction keen settings transfer around start).1.flagged_accounts
        ≡ (process_transaction absent settings transfer around start).1.flagged_accounts)
    × SameReview 9
        (process_transaction keen settings transfer around start).1.world
        (process_transaction absent settings transfer around start).1.world
process_transaction-Alike_example =
    process_transaction-Alike 9 keen absent settings transfer around start

own_assets_known_example : has_key itself "USDC" ("USDC" ∷ []) ≡ true
unfolding show save build_account_history parse_usize key
own_assets_known_example =
    own_assets_known transfer 50 20 30 (λ i. none) (λ i. none) [] history "USDC" (λ mj e. refl) refl
      refl refl refl refl

unusual_asset-gather_example : unusual_asset (context_of settings transfer history []) ≡ []
unfolding show gather save build_account_history parse_usize all key
unusual_asset-gather_example =
    unusual_asset-gather settings transfer around start history [] (λ mj e. refl) refl refl refl
