-- ===== src/Ingestion/Mock.antt =====
-- crates/ingestion/src/mock.rs
use stellar_risk.Common.{
  ℕ, ◌+◌, ◌-◌, String, Option, none, some, List, [], ◌∷◌, length, take, drop, min, leb, ltb,
  if◌then◌else◌, Result, ok, err,
}
use stellar_risk.Common.Text.{concat, show, parse_usize, usize_limit}
use stellar_risk.Platform.{Platform}
use stellar_risk.Domain.Transaction.{NormalizedTransaction}
use stellar_risk.Ingestion.Source.{IngestionError, decode, FetchedBatch}

-- A call answers, or it panics.
pub data Polled (A : Type 0) : Type 0 where
  answered : A → Polled A
  panicked : Polled A

module _ ⦃p : Platform⦄ where
  pub record MockTransactionSource : Type 0 where
    pub transactions : List NormalizedTransaction
    pub batch_size : ℕ

  -- `MockTransactionSource::new`
  abbrev pub new : List NormalizedTransaction → MockTransactionSource
  new transactions = record { transactions = transactions; batch_size = 10 }

  unfoldable pub with_batch_size : ℕ → MockTransactionSource → MockTransactionSource
  with_batch_size n s = record s { batch_size = if leb 1 n then n else 1 }

  unfoldable pub start_of : Option String → Result IngestionError ℕ
  start_of none = ok 0
  start_of (some c) = elim (parse_usize c) [
    | some n ↦ ok n
    | none ↦ err (decode (concat ("invalid mock cursor: " ∷ c ∷ [])))
  ]

  -- From the start on. A sum that does not fit in 64 bits panics by itself, or wraps to an end before
  -- the start, at which the slice panics.
  unfoldable pub poll_at :
      MockTransactionSource → Option String → ℕ → Polled (Result IngestionError FetchedBatch)
  poll_at s cursor start =
      let end = min (start + s.batch_size) (length s.transactions) in
      if leb (length s.transactions) start
      then answered (ok (record { transactions = []; failures = []; next_cursor = cursor }))
      else if ltb (start + s.batch_size) usize_limit
      then answered (
          ok (record {
            transactions = take (end - start) (drop start s.transactions);
            failures = [];
            next_cursor = some (show end);
          }))
      else panicked

  unfoldable pub poll :
      MockTransactionSource → Option String → Polled (Result IngestionError FetchedBatch)
  unfolding start_of poll_at
  poll s cursor = elim (start_of cursor) [
    | err e ↦ answered (err e)
    | ok start ↦ poll_at s cursor start
  ]
