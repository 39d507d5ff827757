-- ===== src/Ingestion/Server.antt =====
-- `HorizonTransactionSource` of crates/ingestion/src/horizon.rs with the server that it asks: for each
-- address and attempt a reply. An address that one poll asks again is answered in the same way.
use stellar_risk.Common.{ℕ, String, Option, none, some, List, [], ◌∷◌, Result, err}
use stellar_risk.Common.Int.{ℤ}
use stellar_risk.Common.Text.{concat}
use stellar_risk.Platform.{Platform}
use stellar_risk.Ingestion.Source.{IngestionError, network, FetchedBatch}
use stellar_risk.Ingestion.Normalize.{HorizonTransactionRecord, HorizonOperationRecord}
use stellar_risk.Ingestion.Horizon.{Reply, get_json, page_url, poll}

pub record HorizonTransactionSource : Type 0 where
  pub base_url : String
  pub page_limit : ℕ
  pub max_retries : ℕ

unfoldable pub new : String → HorizonTransactionSource
new base_url = record { base_url = base_url; page_limit = 50; max_retries = 3 }

unfoldable pub with_page_limit : ℕ → HorizonTransactionSource → HorizonTransactionSource
with_page_limit page_limit s = record s { page_limit = page_limit }

-- The records of the page that a body is decoded to.
pub record Server : Type 0 where
  pub pages : String → ℕ → Reply (List HorizonTransactionRecord)
  pub operations : String → ℕ → Reply (List HorizonOperationRecord)

-- The answer of `get_json`, which always returns; the first case is not reached.
abbrev pub answer_of : {A : Type 0} → Option (ℕ × Result IngestionError A) → Result IngestionError A
answer_of none = err (network "")
answer_of (some (requests, answer)) = answer

abbrev pub operations_url : String → String → String
operations_url base_url tx_hash =
    concat (base_url ∷ "/transactions/" ∷ tx_hash ∷ "/operations?limit=200" ∷ [])

unfoldable pub fetch_operations :
    HorizonTransactionSource → Server → String → Result IngestionError (List HorizonOperationRecord)
unfolding get_json
fetch_operations s server tx_hash =
    let url = operations_url s.base_url tx_hash in
    answer_of (get_json s.max_retries url (server.operations url))

module _ ⦃p : Platform⦄ where
  abbrev pub url_of : HorizonTransactionSource → Option String → String
  url_of s cursor = page_url s.base_url s.page_limit cursor

  unfoldable pub fetch_page :
      HorizonTransactionSource
      → Server
      → Option String
      → Result IngestionError (List HorizonTransactionRecord)
  unfolding get_json page_url
  fetch_page s server cursor =
      answer_of (get_json s.max_retries (url_of s cursor) (server.pages (url_of s cursor)))

  -- The whole of `poll`.
  unfoldable pub poll_server :
      (String → Result String ℤ)
      → HorizonTransactionSource
      → Server
      → Option String
      → Result IngestionError FetchedBatch
  unfolding poll fetch_operations fetch_page
  poll_server parse_int s server cursor =
      poll parse_int (fetch_operations s server) (fetch_page s server cursor) cursor
