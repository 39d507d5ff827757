-- ===== src/Tests/Rules.antt =====
-- The domain types of crates/domain and the rules of crates/rules_engine on concrete inputs.
use stellar_risk.Common.{
  ◌≡◌, refl, ◌↔◌, ◌||◌, not, ◌&&◌, [], ◌∷◌, any, map, ok, ◌==◌, if◌then◌else◌,
}
use stellar_risk.Common.Sort.{has_key, IsAscending}
use stellar_risk.Platform.{null}
use stellar_risk.Domain.Severity
use stellar_risk.Domain.Severity.{Severity}
use stellar_risk.Domain.AlertStatus
use stellar_risk.Domain.AlertStatus.{AlertStatus}
use stellar_risk.Domain.Decision
use stellar_risk.Domain.Decision.{Decision}
use stellar_risk.Domain.Role
use stellar_risk.Domain.Role.{Role}
use stellar_risk.Domain.Names.{from_str_iff}
use stellar_risk.Domain.Transaction.{itself, key, involved_accounts, assets}
use stellar_risk.Domain.Accounts.{moves, carries, involved_accounts_exact}
use stellar_risk.Domain.Rule.{RuleTrigger, is_flagged}
use stellar_risk.Rules.Config.{default_rules_config, default_scoring_config}
use stellar_risk.Rules.Context.{AccountHistory, EvaluationContext}
use stellar_risk.Rules.BuiltIn.{flagged_account, unusual_asset}
use stellar_risk.Rules.Registry.{Rule, with_built_ins, evaluate}
use stellar_risk.Rules.Fires.{
  exceeds, is_rapid, is_abnormal, is_listed, is_unusual, is_bundled, flagged_iff,
}
use stellar_risk.Rules.Hits.{
  named_account, flagged_account_exact, named_asset, occurrences, unusual_asset_exact,
}
use stellar_risk.Toy.{toy, transfer}

abbrev history : AccountHistory
history = record {
  account = "alice";
  recent_transactions = [];
  baseline_tx_per_hour = 0;
  baseline_observations = 0;
  known_assets = "native" ∷ [];
}

abbrev context : EvaluationContext
context = record {
  tx = transfer;
  source_history = history;
  flagged_accounts = "bob" ∷ "eve" ∷ [];
  config = default_rules_config;
  now = 50;
}

abbrev trigger : RuleTrigger
trigger = record { rule_id = "r"; rule_name = "R"; reason = "why"; weight = 40; evidence = null }

abbrev quiet : Rule
quiet = record { id = "quiet"; name = "Quiet"; evaluate = λ ctx. [] }

from_str_iff_example :
    ((Severity.from_str "high" ≡ ok Severity.high) ↔ ("high" ≡ Severity.as_str Severity.high))
    × ((AlertStatus.from_str "high" ≡ ok AlertStatus.«open»)
        ↔ ("high" ≡ AlertStatus.as_str AlertStatus.«open»))
    × ((Decision.from_str "high" ≡ ok Decision.escalated)
        ↔ ("high" ≡ Decision.as_str Decision.escalated))
    × ((Role.from_str "high" ≡ ok Role.admin) ↔ ("high" ≡ Role.as_str Role.admin))
from_str_iff_example =
    from_str_iff "high" Severity.high AlertStatus.«open» Decision.escalated Role.admin

involved_accounts_exact_example :
    IsAscending itself (involved_accounts transfer)
    × (has_key itself "bob" (involved_accounts transfer)
        ≡ ("bob" == "alice" || any (moves "bob") transfer.movements))
    × IsAscending key (assets transfer)
    × (has_key key "USDC" (assets transfer) ≡ any (carries "USDC") transfer.movements)
involved_accounts_exact_example = involved_accounts_exact transfer "bob" "USDC"

flagged_iff_example : is_flagged (evaluate with_built_ins context default_scoring_config) ≡ (
    any (exceeds default_rules_config) transfer.movements
    || (is_rapid context
        || (is_abnormal context
            || (any (is_listed context) (involved_accounts transfer)
                || (is_unusual context || is_bundled context)))))
flagged_iff_example = flagged_iff context default_scoring_config

flagged_account_exact_example :
    IsAscending itself (map named_account (flagged_account context))
    × (has_key itself "bob" (map named_account (flagged_account context)) ≡ (
        has_key itself "bob" ("bob" ∷ "eve" ∷ [])
        && ("bob" == "alice" || any (moves "bob") transfer.movements)))
flagged_account_exact_example = flagged_account_exact context "bob"

unusual_asset_exact_example : occurrences "USDC" (map named_asset (unusual_asset context)) ≡ (
    if not (has_key itself "USDC" ("native" ∷ [])) && any (carries "USDC") transfer.movements
    then 1
    else 0)
unusual_asset_exact_example = unusual_asset_exact context "USDC" refl
