-- ===== src/Ingestion/Normalize.antt =====
-- crates/ingestion/src/normalize.rs. `i64::from_str` is what `parse_int` stands for.
use stellar_risk.Common.{
  ℕ, String, Bool, Option, none, some, List, [], ◌∷◌, ◌==◌, ◌||◌, if◌then◌else◌, Result, ok, ◌>>=◌,
  map_err,
}
use stellar_risk.Common.Int.{ℤ}
use stellar_risk.Common.Text.{concat}
use stellar_risk.Platform.{Platform}
use stellar_risk.Domain.Transaction.{Asset, native, AssetMovement, NormalizedTransaction}
use stellar_risk.Ingestion.Source.{IngestionError, decode}

pub record HorizonTransactionRecord : Type 0 where
  pub hash : String
  pub ledger : ℕ
  pub created_at : String
  pub source_account : String
  pub fee_charged : String
  pub operation_count : ℕ
  pub successful : Bool
  pub memo : Option String
  pub paging_token : String

pub record HorizonOperationRecord : Type 0 where
  pub op_type : String
  pub from : Option String
  pub to : Option String
  pub funder : Option String
  pub account : Option String
  pub amount : Option String
  pub starting_balance : Option String
  pub asset_type : Option String
  pub asset_code : Option String
  pub asset_issuer : Option String

abbrev unwrap_or : Option String → String → String
unwrap_or none d = d
unwrap_or (some s) d = s

unfoldable pub asset : HorizonOperationRecord → Asset
asset op = elim op.asset_type [
  | none ↦ native
  | some t ↦
      if t == "native"
      then native
      else record { code = unwrap_or op.asset_code "unknown"; issuer = op.asset_issuer }
]

module _ ⦃p : Platform⦄ where
  open p use {parse_decimal, parse_rfc3339}

  -- A movement, where all four parts are there and the amount is a decimal number.
  unfoldable pub movement_of :
      Asset → Option String → Option String → Option String → Option AssetMovement
  movement_of a (some amount) (some from) (some to) = elim (parse_decimal amount) [
    | none ↦ none
    | some d ↦ some (record { asset = a; from = from; to = to; amount = d })
  ]
  movement_of a _ _ _ = none

  unfoldable pub movement : HorizonOperationRecord → Option AssetMovement
  unfolding movement_of
  movement op =
      if op.op_type == "payment"
        || op.op_type == "path_payment_strict_send"
        || op.op_type == "path_payment_strict_receive"
      then movement_of (asset op) op.amount op.from op.to
      else if op.op_type == "create_account"
      then movement_of native op.starting_balance op.funder op.account
      else none

  -- `filter_map`
  unfoldable pub movements : List HorizonOperationRecord → List AssetMovement
  unfolding movement
  movements [] = []
  movements (op ∷ ops) = elim (movement op) [ none ↦ movements ops | some m ↦ m ∷ movements ops ]

  module _ (parse_int : String → Result String ℤ) where
    unfoldable pub normalize_transaction :
        HorizonTransactionRecord
        → List HorizonOperationRecord
        → List String
        → Result IngestionError NormalizedTransaction
    unfolding movements
    normalize_transaction tx operations contract_ids =
        map_err (λ e. decode (concat ("bad created_at: " ∷ e ∷ []))) (parse_rfc3339 tx.created_at)
        >>= λ created_at.
            map_err (λ e. decode (concat ("bad fee_charged: " ∷ e ∷ []))) (parse_int tx.fee_charged)
            >>= λ fee_charged. ok (record {
              tx_id = tx.hash;
              ledger = tx.ledger;
              created_at = created_at;
              source_account = tx.source_account;
              fee_charged = fee_charged;
              memo = tx.memo;
              operation_count = tx.operation_count;
              successful = tx.successful;
              movements = movements operations;
              contract_ids = contract_ids;
            })
