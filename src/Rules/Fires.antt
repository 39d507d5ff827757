-- ===== src/Rules/Fires.antt =====
-- When the built-in rules of crates/rules_engine/src/rules.rs flag a transaction.
use stellar_risk.Common.{
  ℕ, inl, inr, Bool-cases, nonempty, nonempty-append, nonempty-map, nonempty-filter, any-eq, ◌+◌,
  String, ◌≡◌, refl, ◌∙◌, Bool, true, false, not, ◌&&◌, ◌||◌, List, [], ◌∷◌, ◌++◌, ltb, leb, length,
  filter, any, arith, eq_iff,
}
use stellar_risk.Common.Sort.{nonempty-dedup-sort, has_key}
use stellar_risk.Platform.{Platform}
use stellar_risk.Domain.Transaction.{AccountId, AssetMovement, key, itself, involved_accounts}
use stellar_risk.Domain.Rule.{RuleTrigger, is_flagged, no_triggers}
use stellar_risk.Rules.Config.{RulesConfig, ScoringConfig}
use stellar_risk.Rules.Context.{EvaluationContext}
use stellar_risk.Rules.BuiltIn.{
  threshold_of, large_transfers, large_transfer, within, velocity, one_hour, abnormal_frequency,
  flagged_trigger, flagged_hits, flagged_account, first_unknown, no_texts, unusual_trigger,
  unusual_asset, operation_count,
}
use stellar_risk.Rules.Registry.{with_built_ins, evaluate}

module _ ⦃p : Platform⦄ where
  open p use {Duration, f64, f64_mul, f64_ge, f64_gt, decimal_gt, seconds}

  abbrev pub exceeds : RulesConfig → AssetMovement → Bool
  exceeds c m = decimal_gt m.amount (threshold_of c m)

  nonempty-large_transfers :
      (c : RulesConfig) (ms : List AssetMovement)
      → nonempty (large_transfers c ms) ≡ any (exceeds c) ms
  unfolding large_transfers
  nonempty-large_transfers c [] = refl
  nonempty-large_transfers c (m ∷ ms) = ground (arith, nonempty-large_transfers c ms)

  -- The number of recent transactions up to the given one and within a window of seconds before it,
  -- and one for the transaction itself.
  abbrev pub count_within : EvaluationContext → Duration → ℕ
  count_within ctx w =
      1 + length (filter (within ctx.tx.created_at w) ctx.source_history.recent_transactions)

  abbrev pub is_rapid : EvaluationContext → Bool
  is_rapid ctx =
      leb ctx.config.velocity_max_tx_count
        (count_within ctx (seconds ctx.config.velocity_window_secs))

  abbrev pub is_abnormal : EvaluationContext → Bool
  is_abnormal ctx =
      leb ctx.config.min_baseline_observations ctx.source_history.baseline_observations
      && not (f64_ge (f64 0) ctx.source_history.baseline_tx_per_hour)
      && f64_gt (f64 (count_within ctx one_hour)) (
          f64_mul ctx.source_history.baseline_tx_per_hour ctx.config.frequency_deviation_multiplier)

  nonempty-velocity : (ctx : EvaluationContext) → nonempty (velocity ctx) ≡ is_rapid ctx
  unfolding velocity
  nonempty-velocity ctx = ground arith

  nonempty-abnormal_frequency :
      (ctx : EvaluationContext) → nonempty (abnormal_frequency ctx) ≡ is_abnormal ctx
  unfolding abnormal_frequency
  nonempty-abnormal_frequency ctx = ground arith

  abbrev pub is_listed : EvaluationContext → AccountId → Bool
  is_listed ctx a = has_key itself a ctx.flagged_accounts

  nonempty-flagged_account :
      (ctx : EvaluationContext)
      → nonempty (flagged_account ctx) ≡ any (is_listed ctx) (involved_accounts ctx.tx)
  unfolding flagged_account
  nonempty-flagged_account ctx =
      nonempty-map flagged_trigger (flagged_hits ctx)
      ∙ nonempty-dedup-sort itself (filter (is_listed ctx) (involved_accounts ctx.tx))
      ∙ nonempty-filter (is_listed ctx) (involved_accounts ctx.tx)

  -- The movement's asset is in neither list.
  abbrev pub is_fresh : List String → List String → AssetMovement → Bool
  is_fresh known seen m =
      not (has_key itself (key m.asset) seen) && not (has_key itself (key m.asset) known)

  is_fresh-seen :
      (known seen : List String) (m n : AssetMovement)
      → is_fresh known seen m ≡ false
      → is_fresh known (key m.asset ∷ seen) n ≡ is_fresh known seen n
  is_fresh-seen known seen m n h = ground (arith, eq_iff (key n.asset) (key m.asset))

  nonempty-first_unknown :
      (known seen : List String) (ms : List AssetMovement)
      → nonempty (first_unknown known seen ms) ≡ any (is_fresh known seen) ms
  unfolding first_unknown
  nonempty-first_unknown known seen [] = refl
  nonempty-first_unknown known seen (m ∷ ms) = elim (Bool-cases (is_fresh known seen m)) [
    | inl e ↦ rw e refl
    | inr e ↦ rw e (
        nonempty-first_unknown known (key m.asset ∷ seen) ms
        ∙ any-eq (is_fresh known (key m.asset ∷ seen)) (is_fresh known seen) ms
            λ n. is_fresh-seen known seen m n e)
  ]

  no_texts-eq : (ss : List String) → no_texts ss ≡ not (nonempty ss)
  no_texts-eq [] = refl
  no_texts-eq (s ∷ ss) = refl

  abbrev pub is_unusual : EvaluationContext → Bool
  is_unusual ctx =
      nonempty ctx.source_history.known_assets
      && any (is_fresh ctx.source_history.known_assets []) ctx.tx.movements

  nonempty-unusual_asset : (ctx : EvaluationContext) → nonempty (unusual_asset ctx) ≡ is_unusual ctx
  unfolding unusual_asset
  nonempty-unusual_asset ctx = ground (
    arith,
    no_texts-eq ctx.source_history.known_assets,
    nonempty-map (unusual_trigger ctx.tx.source_account)
        (first_unknown ctx.source_history.known_assets [] ctx.tx.movements),
    nonempty-first_unknown ctx.source_history.known_assets [] ctx.tx.movements,
  )

  abbrev pub is_bundled : EvaluationContext → Bool
  is_bundled ctx = ltb ctx.config.max_operations_per_tx ctx.tx.operation_count

  nonempty-operation_count :
      (ctx : EvaluationContext) → nonempty (operation_count ctx) ≡ is_bundled ctx
  unfolding operation_count
  nonempty-operation_count ctx = ground arith

  no_triggers-eq :
      (ts : List RuleTrigger)
      → (elim (no_triggers ts) [ true ↦ false | false ↦ true ]) ≡ nonempty ts
  no_triggers-eq [] = refl
  no_triggers-eq (t ∷ ts) = refl

  or_false : (b : Bool) → (b || false) ≡ b
  or_false true = refl
  or_false false = refl

  -- With the built-in rules a transaction is flagged exactly if one of its amounts is above the
  -- threshold of its asset, or the transactions counted in the velocity window (it included) reach
  -- the maximum, or a trusted positive baseline times the multiplier is exceeded by those of the last
  -- hour, or one of its accounts is listed, or the source has known assets and a moved one is not
  -- among them, or it has more operations than allowed.
  pub flagged_iff :
      (ctx : EvaluationContext) (scoring : ScoringConfig)
      → is_flagged (evaluate with_built_ins ctx scoring) ≡ (
          any (exceeds ctx.config) ctx.tx.movements
          || (is_rapid ctx
              || (is_abnormal ctx
                  || (any (is_listed ctx) (involved_accounts ctx.tx)
                      || (is_unusual ctx || is_bundled ctx)))))
  unfolding is_flagged evaluate with_built_ins large_transfer
  flagged_iff ctx scoring =
      no_triggers-eq (
        large_transfers ctx.config ctx.tx.movements
        ++ (velocity ctx
            ++ (abnormal_frequency ctx
                ++ (flagged_account ctx ++ (unusual_asset ctx ++ (operation_count ctx ++ []))))))
      ∙ simp (
        nonempty-append, nonempty-large_transfers, nonempty-velocity, nonempty-abnormal_frequency,
        nonempty-flagged_account, nonempty-unusual_asset, nonempty-operation_count, or_false,
      )
