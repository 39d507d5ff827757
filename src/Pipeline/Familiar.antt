-- ===== src/Pipeline/Familiar.antt =====
-- What the order of the steps in `process_transaction` of crates/api/src/pipeline.rs means for the
-- unusual-asset rule of crates/rules_engine/src/rules.rs.
use stellar_risk.Common.{
  ◌≡◌, refl, ◌∙◌, ap, true, false, List, [], ◌∷◌, String, arith, any, eq_refl, ok, ◌>>=◌, bind_ok,
}
use stellar_risk.Common.Text.{le_text}
use stellar_risk.Common.Sort.{has_key}
use stellar_risk.Platform.{Platform}
use stellar_risk.Codec.{Codec}
use stellar_risk.Domain.Transaction.{itself, key, AssetMovement, NormalizedTransaction}
use stellar_risk.Domain.Accounts.{carries}
use stellar_risk.Domain.Error.{DomainResult}
use stellar_risk.Rules.Context.{AccountHistory}
use stellar_risk.Rules.BuiltIn.{first_unknown, unusual_asset}
use stellar_risk.Storage.Transactions.{TransactionRow, has_id, save, build_account_history}
use stellar_risk.Storage.Flagged.{all}
use stellar_risk.Storage.History.{own_assets_known}
use stellar_risk.Pipeline.Process.{Settings, State, Surroundings, context_of, gather}

module _ ⦃p : Platform⦄ where
  open p use {to_rfc3339, minus}

  first_unknown-known :
      (known seen : List String) (ms : List AssetMovement)
      → ((k : String) → any (carries k) ms ≡ true → has_key itself k known ≡ true)
      → first_unknown known seen ms ≡ []
  unfolding first_unknown
  first_unknown-known known seen [] h = refl
  first_unknown-known known seen (m ∷ ms) h = ground (
    arith,
    h (key m.asset),
    eq_refl (key m.asset),
    first_unknown-known known (key m.asset ∷ seen) ms (λ k a. h k (ground (arith, a))),
  )

  module _ ⦃c : Codec⦄ where
    open c use {movements_text, read_movements}

    -- For a transaction that is not stored yet, what the pipeline evaluates, where it comes to that,
    -- never triggers the unusual-asset rule, whatever assets the account used before: the transaction
    -- is stored first, so its own assets are among the known ones. (The baseline window starts no
    -- later than the transaction, and `serde` reads back the movements that it wrote.)
    pub unusual_asset-gather :
        (settings : Settings) (tx : NormalizedTransaction) (env : Surroundings) (s : State)
        (h : AccountHistory) (flagged : List String)
        → ((mj : String)
            → movements_text tx.movements ≡ ok mj
            → read_movements mj ≡ ok tx.movements)
        → le_text
            (to_rfc3339 (minus tx.created_at settings.history_baseline_window))
            (to_rfc3339 tx.created_at)
          ≡ true
        → any (has_id tx.tx_id) s.transactions ≡ false
        → (gather settings tx env s).0 ≡ ok (h, flagged)
        → unusual_asset (context_of settings tx h flagged) ≡ []
    unfolding unusual_asset gather
    unusual_asset-gather settings tx env s h flagged back early fresh g =
        let rows : List TransactionRow = (save tx env.now env.saving s.transactions).1 in
        let history : DomainResult AccountHistory =
          build_account_history tx.source_account tx.created_at settings.history_lookback
            settings.history_baseline_window env.reading rows in
        let (_, saved, e1) =
          bind_ok (save tx env.now env.saving s.transactions).0
            (λ u. history >>= λ x. all env.flagging s.flagged_accounts >>= λ f. ok (x, f))
            (h, flagged) g in
        let (x, built, e2) =
          bind_ok history (λ x. all env.flagging s.flagged_accounts >>= λ f. ok (x, f)) (h, flagged)
            e1 in
        let (f, _, e3) =
          bind_ok (all env.flagging s.flagged_accounts) (λ f. ok (x, f)) (h, flagged) e2 in
        let same : x ≡ h = ground (arith, e3) in
        ground (
          arith,
          first_unknown-known h.known_assets [] tx.movements (λ k a.
              own_assets_known tx env.now settings.history_lookback settings.history_baseline_window
                env.saving env.reading s.transactions h k back early fresh saved
                (built ∙ ap ok same) a),
        )
