-- ===== src/Storage/Transactions.antt =====
-- crates/storage/src/tx_repo.rs: the table `transactions`.
use stellar_risk.Common.{
  ℕ, ◌-◌, ◌%◌, String, Bool, Option, none, some, List, [], ◌∷◌, ◌++◌, ◌==◌, ◌&&◌, any, filter,
  find?, length, if◌then◌else◌, ok, err, ◌>>=◌, map, map_err, collect, take,
}
use stellar_risk.Common.Int.{ℤ, pos, negsuc}
use stellar_risk.Common.Text.{le_text}
use stellar_risk.Common.Sort.{has_key}
use stellar_risk.Platform.{Platform}
use stellar_risk.Codec.{Codec}
use stellar_risk.Domain.Error.{DomainResult, internal}
use stellar_risk.Domain.Transaction.{
  TxId, AccountId, itself, key, AssetMovement, NormalizedTransaction,
}
use stellar_risk.Rules.Context.{RecentTransaction, AccountHistory}
use stellar_risk.Storage.Query.{map_json, Faults, answer}

pub record TransactionRow : Type 0 where
  pub tx_id : String
  pub ledger : ℤ
  pub created_at : String
  pub source_account : String
  pub fee_charged : ℤ
  pub memo : Option String
  pub operation_count : ℤ
  pub successful : Bool
  pub movements_json : String
  pub contract_ids_json : String
  pub ingested_at : String

-- `as u32`
unfoldable pub as_u32 : ℤ → ℕ
as_u32 (pos n) = n % 4294967296
as_u32 (negsuc n) = 4294967295 - n % 4294967296

abbrev pub has_id : TxId → TransactionRow → Bool
has_id id r = r.tx_id == id

-- `WHERE source_account = ? AND created_at >= ? AND created_at <= ?`, on texts.
abbrev pub within : AccountId → String → String → TransactionRow → Bool
within account start stop r =
    r.source_account == account && (le_text start r.created_at && le_text r.created_at stop)

-- `ORDER BY created_at DESC`; rows of one time stay in the order of the table.
unfoldable pub insert_row : TransactionRow → List TransactionRow → List TransactionRow
insert_row r [] = r ∷ []
insert_row r (s ∷ ss) =
    let rest = insert_row r ss in if le_text s.created_at r.created_at then r ∷ s ∷ ss else s ∷ rest

unfoldable pub newest_first : List TransactionRow → List TransactionRow
unfolding insert_row
newest_first [] = []
newest_first (r ∷ rs) = insert_row r (newest_first rs)

-- `ON CONFLICT(tx_id) DO NOTHING`: a row that has the identifier already is kept.
unfoldable pub insert_new :
    TxId
    → List TransactionRow
    → DomainResult TransactionRow
    → DomainResult (Unit {0}) × List TransactionRow
insert_new id rows (err e) = (err e, rows)
insert_new id rows (ok r) = (ok tt, (if any (has_id id) rows then rows else rows ++ r ∷ []))

module _ ⦃p : Platform⦄ where
  open p use {
    F64, Decimal, DateTime, Duration, f64, f64_of_int, f64_div, f64_max, minus, num_seconds,
    to_rfc3339, parse_rfc3339,
  }

  -- The row that `save` binds.
  abbrev pub row_of : DateTime → NormalizedTransaction → String → String → TransactionRow
  row_of now tx movements_json contract_ids_json = record {
    tx_id = tx.tx_id;
    ledger = pos tx.ledger;
    created_at = to_rfc3339 tx.created_at;
    source_account = tx.source_account;
    fee_charged = tx.fee_charged;
    memo = tx.memo;
    operation_count = pos tx.operation_count;
    successful = tx.successful;
    movements_json = movements_json;
    contract_ids_json = contract_ids_json;
    ingested_at = to_rfc3339 now;
  }

  -- `HashSet::insert` of the key of each movement's asset.
  unfoldable pub insert_assets : List AssetMovement → List String → List String
  insert_assets [] known = known
  insert_assets (m ∷ ms) known =
      insert_assets ms
        (if has_key itself (key m.asset) known then known else known ++ key m.asset ∷ [])

  -- The inner loop over the movements of one recent transaction.
  unfoldable pub recent_of :
      AccountId → NormalizedTransaction → List AssetMovement → List RecentTransaction
  recent_of account tx [] = []
  recent_of account tx (m ∷ ms) =
      record {
        tx_id = tx.tx_id;
        created_at = tx.created_at;
        counterparty = if m.from == account then m.to else m.from;
        asset = m.asset;
        amount = m.amount;
      }
      ∷ recent_of account tx ms

  module _ ⦃c : Codec⦄ where
    open c use {movements_text, read_movements, texts_text, read_texts}

    -- The values that `save` binds, and its one statement.
    unfoldable pub new_row : NormalizedTransaction → DateTime → Faults → DomainResult TransactionRow
    new_row tx now faults = map_err map_json (movements_text tx.movements) >>= λ movements_json.
        map_err map_json (texts_text tx.contract_ids) >>= λ contract_ids_json.
        answer faults 0 (row_of now tx movements_json contract_ids_json)

    unfoldable pub save :
        NormalizedTransaction
        → DateTime
        → Faults
        → List TransactionRow
        → DomainResult (Unit {0}) × List TransactionRow
    unfolding new_row insert_new
    save tx now faults rows = insert_new tx.tx_id rows (new_row tx now faults)

    unfoldable pub row_to_tx : TransactionRow → DomainResult NormalizedTransaction
    row_to_tx r = map_err internal (parse_rfc3339 r.created_at) >>= λ created_at.
        map_err map_json (read_movements r.movements_json) >>= λ movements.
        map_err map_json (read_texts r.contract_ids_json) >>= λ contract_ids. ok (record {
          tx_id = r.tx_id;
          ledger = as_u32 r.ledger;
          created_at = created_at;
          source_account = r.source_account;
          fee_charged = r.fee_charged;
          memo = r.memo;
          operation_count = as_u32 r.operation_count;
          successful = r.successful;
          movements = movements;
          contract_ids = contract_ids;
        })

    -- `row.map(row_to_tx).transpose()`
    unfoldable pub read_row : Option TransactionRow → DomainResult (Option NormalizedTransaction)
    unfolding row_to_tx
    read_row none = ok none
    read_row (some r) = row_to_tx r >>= λ t. ok (some t)

    unfoldable pub get :
        TxId → Faults → List TransactionRow → DomainResult (Option NormalizedTransaction)
    unfolding read_row
    get tx_id faults rows = answer faults 0 (find? (has_id tx_id) rows) >>= λ r. read_row r

    -- A negative limit is none, as SQLite documents.
    unfoldable pub list_recent :
        ℤ → Faults → List TransactionRow → DomainResult (List NormalizedTransaction)
    unfolding newest_first row_to_tx
    list_recent (pos n) faults rows =
        answer faults 0 (take n (newest_first rows)) >>= λ rs. collect (map row_to_tx rs)
    list_recent (negsuc n) faults rows =
        answer faults 0 (newest_first rows) >>= λ rs. collect (map row_to_tx rs)

    -- The loop over the recent rows: what it pushes, and the assets that it has seen.
    unfoldable pub read_recent :
        AccountId
        → List TransactionRow
        → List RecentTransaction
        → List String
        → DomainResult (List RecentTransaction × List String)
    unfolding row_to_tx insert_assets recent_of
    read_recent account [] recent known = ok (recent, known)
    read_recent account (r ∷ rs) recent known = row_to_tx r >>= λ tx.
        read_recent account rs (recent ++ recent_of account tx tx.movements)
          (insert_assets tx.movements known)

    -- The loop over the rows of the baseline.
    unfoldable pub read_baseline : List TransactionRow → List String → DomainResult (List String)
    unfolding row_to_tx insert_assets
    read_baseline [] known = ok known
    read_baseline (r ∷ rs) known =
        row_to_tx r >>= λ tx. read_baseline rs (insert_assets tx.movements known)

    unfoldable pub build_account_history :
        AccountId
        → DateTime
        → Duration
        → Duration
        → Faults
        → List TransactionRow
        → DomainResult AccountHistory
    unfolding newest_first read_recent read_baseline
    build_account_history account as_of lookback baseline_window faults rows =
        let lookback_start = to_rfc3339 (minus as_of lookback) in
        let baseline_start = to_rfc3339 (minus as_of baseline_window) in
        let as_of_str = to_rfc3339 as_of in
        let baseline = filter (within account baseline_start as_of_str) rows in
        answer faults 0 (newest_first (filter (within account lookback_start as_of_str) rows))
        >>= λ recent_rows. read_recent account recent_rows [] [] >>= λ seen.
            answer faults 1 (length baseline) >>= λ baseline_count.
            answer faults 2 baseline >>= λ baseline_rows.
            read_baseline baseline_rows seen.1 >>= λ known_assets.
            let baseline_hours =
              f64_max (f64_div (f64_of_int (num_seconds baseline_window)) (f64 3600)) (f64 1) in
            ok (record {
              account = account;
              recent_transactions = seen.0;
              baseline_tx_per_hour = f64_div (f64_of_int (pos baseline_count)) baseline_hours;
              baseline_observations = baseline_count;
              known_assets = known_assets;
            })
