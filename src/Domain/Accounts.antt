-- ===== src/Domain/Accounts.antt =====
-- What a transaction touches: the lists of crates/domain/src/transaction.rs hold each account and
-- each asset once.
use stellar_risk.Common.{String, ◌≡◌, refl, ◌∙◌, Bool, ◌||◌, List, [], ◌∷◌, arith, ◌==◌, any}
use stellar_risk.Common.Sort.{has_key, IsAscending, has_key-dedup-sort, dedup-sort-IsAscending}
use stellar_risk.Platform.{Platform}
use stellar_risk.Domain.Transaction.{
  AssetMovement, NormalizedTransaction, itself, key, participants, involved_accounts, moved_assets,
  assets,
}

module _ ⦃p : Platform⦄ where
  -- The movement has the account at one of its ends.
  abbrev pub moves : String → AssetMovement → Bool
  moves a m = a == m.from || a == m.to

  abbrev pub carries : String → AssetMovement → Bool
  carries k m = k == key m.asset

  pub has_key-participants :
      (a : String) (ms : List AssetMovement) → has_key itself a (participants ms) ≡ any (moves a) ms
  unfolding participants
  has_key-participants a [] = refl
  has_key-participants a (m ∷ ms) = ground (arith, has_key-participants a ms)

  pub has_key-moved_assets :
      (k : String) (ms : List AssetMovement) → has_key key k (moved_assets ms) ≡ any (carries k) ms
  unfolding moved_assets
  has_key-moved_assets k [] = refl
  has_key-moved_assets k (m ∷ ms) = ground (arith, has_key-moved_assets k ms)

  pub has_key-involved_accounts :
      (tx : NormalizedTransaction) (a : String)
      → has_key itself a (involved_accounts tx)
        ≡ (a == tx.source_account || any (moves a) tx.movements)
  unfolding involved_accounts
  has_key-involved_accounts tx a =
      has_key-dedup-sort itself a (tx.source_account ∷ participants tx.movements)
      ∙ ground (arith, has_key-participants a tx.movements)

  -- The accounts of a transaction ascend strictly, and are exactly its source and the two ends of its
  -- movements; its assets ascend strictly by key, and have exactly the keys that its movements have.
  pub involved_accounts_exact :
      (tx : NormalizedTransaction) (a k : String)
      → IsAscending itself (involved_accounts tx)
        × (has_key itself a (involved_accounts tx)
            ≡ (a == tx.source_account || any (moves a) tx.movements))
        × IsAscending key (assets tx)
        × (has_key key k (assets tx) ≡ any (carries k) tx.movements)
  unfolding involved_accounts assets
  involved_accounts_exact tx a k = (
    dedup-sort-IsAscending itself (tx.source_account ∷ participants tx.movements),
    has_key-involved_accounts tx a,
    dedup-sort-IsAscending key (moved_assets tx.movements),
    has_key-dedup-sort key k (moved_assets tx.movements) ∙ has_key-moved_assets k tx.movements,
  )
