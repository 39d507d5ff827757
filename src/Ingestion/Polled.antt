-- ===== src/Ingestion/Polled.antt =====
-- What a poll of crates/ingestion/src/horizon.rs answers, whatever the server replies.
use Prim.Native.Nat.{max}
use stellar_risk.Common.{
  ℕ, ◌≤◌, ◌≡◌, ◌⊎◌, refl, inl, inr, String, Option, some, List, Result, ok, err, map,
}
use stellar_risk.Common.Int.{ℤ}
use stellar_risk.Platform.{Platform}
use stellar_risk.Ingestion.Source.{IngestionError, FetchedBatch}
use stellar_risk.Ingestion.Normalize.{HorizonTransactionRecord}
use stellar_risk.Ingestion.Horizon.{settle, in_order, poll}
use stellar_risk.Ingestion.Fetching.{get_json-Returned, count, ids, last_token, poll-count}
use stellar_risk.Ingestion.Server.{
  HorizonTransactionSource, Server, url_of, fetch_operations, fetch_page, poll_server,
}

module _ ⦃p : Platform⦄ (parse_int : String → Result String ℤ) (s : HorizonTransactionSource)
    (server : Server) (cursor : Option String) where
  -- The last of at most `max_retries` requests of the page settles this answer.
  pub record Settled (answer : Result IngestionError (List HorizonTransactionRecord)) : Type 0 where
    pub requests : ℕ
    pub asked : 1 ≤ requests
    pub bounded : requests ≤ max 1 s.max_retries
    pub settled :
        settle s.max_retries
          (url_of s cursor)
          (server.pages (url_of s cursor))
          requests
          (server.pages (url_of s cursor) requests)
        ≡ some answer

  Settled-fetch_page : Settled (fetch_page s server cursor)
  unfolding fetch_page
  Settled-fetch_page =
      let r = get_json-Returned s.max_retries (url_of s cursor) (server.pages (url_of s cursor)) in
      rw (fetch_page, r.returned)
        (record {
          requests = r.requests;
          asked = r.asked;
          bounded = r.bounded;
          settled = r.settled;
        })

  -- The error of the page's requests, or a batch that counts an identifier as the page does.
  abbrev pub Polled : String → Type 0
  Polled k =
      ((e : IngestionError) × Settled (err e) × (poll_server parse_int s server cursor ≡ err e))
      ⊎ ((rs : List HorizonTransactionRecord) × (b : FetchedBatch) × Settled (ok rs)
          × (poll_server parse_int s server cursor ≡ ok b)
          × (count k (ids b)
              ≡ count k (map (λ r. HorizonTransactionRecord.hash r) (in_order cursor rs)))
          × (b.next_cursor ≡ last_token (in_order cursor rs) cursor))

  -- A poll asks for the page at least once and at most `max_retries` times (once where that is zero).
  -- It answers the error that the last reply settles, or that reply has the records of a page, and
  -- then each hash stands among the identifiers of the transactions and of the failures together as
  -- often as among the records, whatever the requests for their operations came to, and the next
  -- cursor is the paging token of the last record, in ascending order, or the old cursor where there
  -- is none.
  pub poll_server-count : (k : String) → Polled k
  unfolding poll_server poll
  poll_server-count k = go (fetch_page s server cursor) refl Settled-fetch_page
    where
      go :
          (out : Result IngestionError (List HorizonTransactionRecord))
          → fetch_page s server cursor ≡ out
          → Settled out
          → Polled k
      go (err e) q h = inl (e, h, rw (poll_server, poll, q) refl)
      go (ok rs) q h =
          let (b, e, same, next) = poll-count parse_int (fetch_operations s server) rs cursor k in
          inr (rs, b, h, rw (poll_server, q) e, same, next)
