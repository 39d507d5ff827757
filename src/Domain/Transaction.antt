-- ===== src/Domain/Transaction.antt =====
-- crates/domain/src/transaction.rs
use stellar_risk.Common.{ℕ, String, Bool, Option, none, some, List, [], ◌∷◌}
use stellar_risk.Common.Int.{ℤ}
use stellar_risk.Common.Text.{concat}
use stellar_risk.Common.Sort.{sort_by_key, dedup_by_key}
use stellar_risk.Platform.{Platform}

abbrev pub TxId : Type 0
TxId = String

abbrev pub AccountId : Type 0
AccountId = String

pub record Asset : Type 0 where
  pub code : String
  pub issuer : Option AccountId

-- `Asset::native`
abbrev pub native : Asset
native = record { code = "native"; issuer = none }

abbrev key_of : String → Option AccountId → String
key_of code none = code
key_of code (some issuer) = concat (code ∷ ":" ∷ issuer ∷ [])

-- `Asset::key`
unfoldable pub key : Asset → String
key a = key_of a.code a.issuer

-- The identity, as the key by which accounts are sorted.
abbrev pub itself : AccountId → String
itself a = a

module _ ⦃p : Platform⦄ where
  open p use {Decimal, DateTime}

  pub record AssetMovement : Type 0 where
    pub asset : Asset
    pub from : AccountId
    pub to : AccountId
    pub amount : Decimal

  pub record NormalizedTransaction : Type 0 where
    pub tx_id : TxId
    pub ledger : ℕ
    pub created_at : DateTime
    pub source_account : AccountId
    pub fee_charged : ℤ
    pub memo : Option String
    pub operation_count : ℕ
    pub successful : Bool
    pub movements : List AssetMovement
    pub contract_ids : List String

  -- What the loop over the movements pushes: both ends of each.
  unfoldable pub participants : List AssetMovement → List AccountId
  participants [] = []
  participants (m ∷ ms) = m.from ∷ m.to ∷ participants ms

  unfoldable pub involved_accounts : NormalizedTransaction → List AccountId
  involved_accounts tx =
      dedup_by_key itself (sort_by_key itself (tx.source_account ∷ participants tx.movements))

  unfoldable pub moved_assets : List AssetMovement → List Asset
  moved_assets [] = []
  moved_assets (m ∷ ms) = m.asset ∷ moved_assets ms

  -- `NormalizedTransaction::assets`
  unfoldable pub assets : NormalizedTransaction → List Asset
  assets tx = dedup_by_key key (sort_by_key key (moved_assets tx.movements))
