-- ===== src/Alerts/Collect.antt =====
-- `accounts_and_assets` of crates/alerts/src/service.rs, with which the pipeline fills an alert, beside
-- the methods of crates/domain/src/transaction.rs that it repeats.
use stellar_risk.Common.{◌≡◌, refl, ◌∙◌, List, [], ◌∷◌, ◌++◌}
use mathlib.Core.List.{append-nil, append_assoc}
use stellar_risk.Common.Sort.{sort_by_key, dedup_by_key}
use stellar_risk.Platform.{Platform}
use stellar_risk.Domain.Transaction.{
  AccountId, Asset, itself, key, AssetMovement, NormalizedTransaction, participants,
  involved_accounts, moved_assets, assets,
}

module _ ⦃p : Platform⦄ where
  -- The loop, which pushes at the end of two vectors.
  unfoldable pub push_all :
      List AssetMovement → List AccountId → List Asset → List AccountId × List Asset
  push_all [] accounts assets = (accounts, assets)
  push_all (m ∷ ms) accounts assets =
      push_all ms ((accounts ++ m.from ∷ []) ++ m.to ∷ []) (assets ++ m.asset ∷ [])

  unfoldable pub accounts_and_assets : AccountId → List AssetMovement → List AccountId × List Asset
  unfolding push_all
  accounts_and_assets source movements =
      let (accounts, assets) = push_all movements (source ∷ []) [] in
      (dedup_by_key itself (sort_by_key itself accounts), dedup_by_key key (sort_by_key key assets))

  push_all-append :
      (ms : List AssetMovement) (accounts : List AccountId) (assets : List Asset)
      → push_all ms accounts assets ≡ (accounts ++ participants ms, assets ++ moved_assets ms)
  unfolding push_all participants moved_assets
  push_all-append [] accounts assets = rw (append-nil accounts, append-nil assets) refl
  push_all-append (m ∷ ms) accounts assets =
      push_all-append ms ((accounts ++ m.from ∷ []) ++ m.to ∷ []) (assets ++ m.asset ∷ [])
      ∙ rw (append_assoc, append_assoc, append_assoc) refl

  -- The accounts and assets that the pipeline puts into an alert are those that the transaction's own
  -- methods name.
  pub accounts_and_assets-involved :
      (tx : NormalizedTransaction)
      → accounts_and_assets tx.source_account tx.movements ≡ (involved_accounts tx, assets tx)
  unfolding accounts_and_assets involved_accounts assets
  accounts_and_assets-involved tx =
      rw (push_all-append tx.movements (tx.source_account ∷ []) []) refl
