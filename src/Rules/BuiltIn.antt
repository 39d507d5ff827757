-- ===== src/Rules/BuiltIn.antt =====
-- crates/rules_engine/src/rules.rs: the `evaluate` of the six built-in rules.
use stellar_risk.Common.{
  ◌+◌, String, Bool, true, false, not, ◌&&◌, ◌||◌, Option, none, some, List, [], ◌∷◌, map, ltb, leb,
  if◌then◌else◌, length, filter,
}
use stellar_risk.Common.Int.{pos}
use stellar_risk.Common.Text.{concat, show, show_int}
use stellar_risk.Common.Sort.{sort_by_key, dedup_by_key, has_key}
use stellar_risk.Platform.{Platform, Json, text, int, float, object, field, end}
use stellar_risk.Domain.Transaction.{AccountId, AssetMovement, key, itself, involved_accounts}
use stellar_risk.Domain.Rule.{RuleTrigger}
use stellar_risk.Rules.Config.{RulesConfig, get}
use stellar_risk.Rules.Context.{RecentTransaction, EvaluationContext}

module _ ⦃p : Platform⦄ where
  open p use {
    F64, Decimal, DateTime, Duration, f64, f64_mul, f64_div, f64_ge, f64_gt, f64_fixed, decimal_gt,
    decimal_text, le_time, since, le_duration, seconds,
  }

  unfoldable pub trigger : String → String → F64 → String → Json F64 → RuleTrigger
  trigger rule_id rule_name weight reason evidence = record {
    rule_id = rule_id;
    rule_name = rule_name;
    reason = reason;
    weight = weight;
    evidence = evidence;
  }

  abbrev or_default : Option Decimal → Decimal → Decimal
  or_default none d = d
  or_default (some t) d = t

  unfoldable pub threshold_of : RulesConfig → AssetMovement → Decimal
  threshold_of c m =
      or_default (get (key m.asset) c.large_transfer_thresholds) c.large_transfer_default_threshold

  unfoldable pub large_transfer_trigger : RulesConfig → AssetMovement → RuleTrigger
  unfolding trigger threshold_of
  large_transfer_trigger c m =
      let threshold = threshold_of c m in
      trigger "large_transfer" "Unusually Large Transfer" (f64 35)
        (concat (
          "Transfer of "
          ∷ decimal_text m.amount
          ∷ " "
          ∷ key m.asset
          ∷ " exceeds the configured threshold of "
          ∷ decimal_text threshold
          ∷ " "
          ∷ key m.asset
          ∷ []))
        (object (
          field "asset" (text (key m.asset)) (
            field "amount" (text (decimal_text m.amount)) (
              field "threshold" (text (decimal_text threshold))
                (field "from" (text m.from) (field "to" (text m.to) end))))))

  -- The loop of `LargeTransferRule`.
  unfoldable pub large_transfers : RulesConfig → List AssetMovement → List RuleTrigger
  unfolding large_transfer_trigger
  large_transfers c [] = []
  large_transfers c (m ∷ ms) =
      let rest = large_transfers c ms in
      if decimal_gt m.amount (threshold_of c m) then large_transfer_trigger c m ∷ rest else rest

  unfoldable pub large_transfer : EvaluationContext → List RuleTrigger
  unfolding large_transfers
  large_transfer ctx = large_transfers ctx.config ctx.tx.movements

  -- The filter of the two counting rules.
  abbrev pub within : DateTime → Duration → RecentTransaction → Bool
  within t window rt = le_time rt.created_at t && le_duration (since t rt.created_at) window

  unfoldable pub velocity : EvaluationContext → List RuleTrigger
  unfolding trigger
  velocity ctx =
      let window = seconds ctx.config.velocity_window_secs in
      let count_in_window =
        1
        + length
            (filter (within ctx.tx.created_at window) ctx.source_history.recent_transactions) in
      if leb ctx.config.velocity_max_tx_count count_in_window
      then trigger "velocity" "Repeated Transactions In Short Window" (f64 25)
          (concat (
            "Account "
            ∷ ctx.tx.source_account
            ∷ " sent "
            ∷ show count_in_window
            ∷ " transactions within "
            ∷ show_int ctx.config.velocity_window_secs
            ∷ " seconds (threshold "
            ∷ show ctx.config.velocity_max_tx_count
            ∷ ")"
            ∷ []))
          (object (
            field "account" (text ctx.tx.source_account) (
              field "count_in_window" (int (pos count_in_window)) (
                field "window_secs" (int ctx.config.velocity_window_secs)
                  (field "threshold" (int (pos ctx.config.velocity_max_tx_count)) end)))))
        ∷ []
      else []

  -- `Duration::hours(1)`
  abbrev pub one_hour : Duration
  one_hour = seconds (pos 3600)

  unfoldable pub abnormal_frequency : EvaluationContext → List RuleTrigger
  unfolding trigger
  abnormal_frequency ctx =
      let history = ctx.source_history in
      let observed_last_hour =
        1 + length (filter (within ctx.tx.created_at one_hour) history.recent_transactions) in
      let threshold =
        f64_mul history.baseline_tx_per_hour ctx.config.frequency_deviation_multiplier in
      if ltb history.baseline_observations ctx.config.min_baseline_observations
        || f64_ge (f64 0) history.baseline_tx_per_hour
      then []
      else if f64_gt (f64 observed_last_hour) threshold
      then trigger "abnormal_frequency" "Abnormal Transaction Frequency" (f64 20)
          (concat (
            "Account "
            ∷ ctx.tx.source_account
            ∷ " made "
            ∷ show observed_last_hour
            ∷ " transactions in the last hour, "
            ∷ f64_fixed 1 (f64_div (f64 observed_last_hour) history.baseline_tx_per_hour)
            ∷ "x its baseline of "
            ∷ f64_fixed 2 history.baseline_tx_per_hour
            ∷ "/hour"
            ∷ []))
          (object (
            field "account" (text ctx.tx.source_account) (
              field "observed_last_hour" (int (pos observed_last_hour)) (
                field "baseline_tx_per_hour" (float history.baseline_tx_per_hour) (
                  field "deviation_multiplier" (float ctx.config.frequency_deviation_multiplier)
                    end)))))
        ∷ []
      else []

  unfoldable pub flagged_trigger : AccountId → RuleTrigger
  unfolding trigger
  flagged_trigger account =
      trigger "flagged_account_interaction" "Interaction With Flagged Account" (f64 40)
        (concat ("Transaction involves previously flagged account " ∷ account ∷ []))
        (object (field "flagged_account" (text account) end))

  unfoldable pub flagged_hits : EvaluationContext → List AccountId
  flagged_hits ctx = dedup_by_key itself (
      sort_by_key itself
        (filter (λ a. has_key itself a ctx.flagged_accounts) (involved_accounts ctx.tx)))

  unfoldable pub flagged_account : EvaluationContext → List RuleTrigger
  unfolding flagged_trigger flagged_hits
  flagged_account ctx = map flagged_trigger (flagged_hits ctx)

  unfoldable pub unusual_trigger : AccountId → AssetMovement → RuleTrigger
  unfolding trigger
  unusual_trigger source m =
      trigger "unusual_asset_movement" "Unusual Asset Movement" (f64 15)
        (concat (
          "Account "
          ∷ source
          ∷ " moved asset "
          ∷ key m.asset
          ∷ " for the first time in its recorded history"
          ∷ []))
        (object (field "account" (text source) (field "asset" (text (key m.asset)) end)))

  -- The filter keeps a movement if its key was not seen before and is not known; `seen` is the
  -- `HashSet` that the closure inserts every key into.
  unfoldable pub first_unknown : List String → List String → List AssetMovement → List AssetMovement
  first_unknown known seen [] = []
  first_unknown known seen (m ∷ ms) =
      let rest = first_unknown known (key m.asset ∷ seen) ms in
      if not (has_key itself (key m.asset) seen) && not (has_key itself (key m.asset) known)
      then m ∷ rest
      else rest

  abbrev pub no_texts : List String → Bool
  no_texts [] = true
  no_texts (s ∷ ss) = false

  unfoldable pub unusual_asset : EvaluationContext → List RuleTrigger
  unfolding unusual_trigger first_unknown
  unusual_asset ctx =
      if no_texts ctx.source_history.known_assets
      then []
      else map (unusual_trigger ctx.tx.source_account)
          (first_unknown ctx.source_history.known_assets [] ctx.tx.movements)

  unfoldable pub operation_count : EvaluationContext → List RuleTrigger
  unfolding trigger
  operation_count ctx =
      if ltb ctx.config.max_operations_per_tx ctx.tx.operation_count
      then trigger "operation_count_threshold" "Excessive Operation Count" (f64 10)
          (concat (
            "Transaction bundles "
            ∷ show ctx.tx.operation_count
            ∷ " operations, exceeding the configured threshold of "
            ∷ show ctx.config.max_operations_per_tx
            ∷ []))
          (object (
            field "operation_count" (int (pos ctx.tx.operation_count))
              (field "threshold" (int (pos ctx.config.max_operations_per_tx)) end)))
        ∷ []
      else []
