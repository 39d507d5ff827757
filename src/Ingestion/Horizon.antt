-- ===== src/Ingestion/Horizon.antt =====
-- crates/ingestion/src/horizon.rs. The replies of the server are a parameter. The pause before a further
-- request is left out: its `200 * 2^(attempt - 1)` milliseconds do not overflow at the three attempts
-- of `new`, the only ones that the source sets.
use stellar_risk.Common.{
  ℕ, zero, suc, String, Bool, not, ◌||◌, Option, none, some, List, [], ◌∷◌, leb, if◌then◌else◌,
  Result, ok, err, map_err, ◌>>=◌,
}
use mathlib.Core.List.{reverse}
use stellar_risk.Common.Int.{ℤ}
use stellar_risk.Common.Text.{concat, show}
use stellar_risk.Platform.{Platform}
use stellar_risk.Domain.Transaction.{NormalizedTransaction}
use stellar_risk.Ingestion.Source.{IngestionError, network, decode, display, FetchedBatch}
use stellar_risk.Ingestion.Normalize.{
  HorizonTransactionRecord, HorizonOperationRecord, normalize_transaction,
}

-- What `send` and then `json` give: a successful status with the decoded body or its error, another
-- status as text and whether it is one of the server's, or an error of the connection.
pub data Reply (A : Type 0) : Type 0 where
  success : Result String A → Reply A
  status : String → Bool → Reply A
  broken : String → Reply A

module _ {A : Type 0} (max_retries : ℕ) (url : String) (reply : ℕ → Reply A) where
  -- One round of the loop: the result with which it returns, or none where it goes on.
  unfoldable pub settle : ℕ → Reply A → Option (Result IngestionError A)
  settle attempt (success r) = some (map_err decode r)
  settle attempt (status s server) =
      if leb max_retries attempt || not server
      then some (err (network (concat ("HTTP " ∷ s ∷ " from " ∷ url ∷ []))))
      else none
  settle attempt (broken e) = if leb max_retries attempt then some (err (network e)) else none

  -- The loop, with the number of requests that it has made when it returns.
  unfoldable pub attempts : ℕ → ℕ → Option (ℕ × Result IngestionError A)
  unfolding settle
  attempts zero attempt = none
  attempts (suc fuel) attempt =
      let rest = attempts fuel (suc attempt) in
      elim (settle (suc attempt) (reply (suc attempt))) [
        | some r ↦ some (suc attempt, r)
        | none ↦ rest
      ]

  unfoldable pub get_json : Option (ℕ × Result IngestionError A)
  unfolding attempts
  get_json = attempts (suc max_retries) 0

module _ ⦃p : Platform⦄ where
  -- What one record adds to the batch.
  unfoldable pub add_record :
      HorizonTransactionRecord
      → Result IngestionError NormalizedTransaction
      → FetchedBatch
      → FetchedBatch
  add_record r (ok tx) b = record b { transactions = tx ∷ b.transactions }
  add_record r (err e) b = record b {
    failures = record { raw_id = r.hash; error = display e } ∷ b.failures;
  }

  -- The loop of `poll` over the records.
  unfoldable pub fetch_records :
      (String → Result String ℤ)
      → (String → Result IngestionError (List HorizonOperationRecord))
      → List HorizonTransactionRecord
      → Option String
      → FetchedBatch
  unfolding add_record
  fetch_records parse_int operations [] cursor = record {
    transactions = [];
    failures = [];
    next_cursor = cursor;
  }
  fetch_records parse_int operations (r ∷ rs) cursor =
      add_record r (operations r.hash >>= λ ops. normalize_transaction parse_int r ops [])
        (fetch_records parse_int operations rs (some r.paging_token))

  -- The page is newest first where there is no cursor.
  unfoldable pub in_order :
      Option String → List HorizonTransactionRecord → List HorizonTransactionRecord
  in_order none rs = reverse rs
  in_order (some c) rs = rs

  unfoldable pub page_url : String → ℕ → Option String → String
  page_url base_url page_limit none =
      concat (base_url ∷ "/transactions?order=desc&limit=" ∷ show page_limit ∷ [])
  page_url base_url page_limit (some c) =
      concat (base_url ∷ "/transactions?cursor=" ∷ c ∷ "&order=asc&limit=" ∷ show page_limit ∷ [])

  -- `page` is the answer of `get_json` at `page_url`.
  unfoldable pub poll :
      (String → Result String ℤ)
      → (String → Result IngestionError (List HorizonOperationRecord))
      → Result IngestionError (List HorizonTransactionRecord)
      → Option String
      → Result IngestionError FetchedBatch
  unfolding fetch_records in_order
  poll parse_int operations page cursor =
      page >>= λ records. ok (fetch_records parse_int operations (in_order cursor records) cursor)
