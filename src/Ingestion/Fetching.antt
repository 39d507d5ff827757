-- ===== src/Ingestion/Fetching.antt =====
-- How often the loop of crates/ingestion/src/horizon.rs asks, and that its poll loses nothing.
use Prim.Native.Nat.{max}
use stellar_risk.Common.{
  ℕ, zero, suc, ◌+◌, ◌≤◌, ◌<◌, ◌≡◌, refl, ◌∙◌, ap, inl, inr, String, Option, none, some, List, [],
  ◌∷◌, ◌++◌, leb, if◌then◌else◌, Result, ok, err, ◌>>=◌, arith, map, ◌==◌, Option-cases, Bool-cases,
}
use stellar_risk.Ingestion.Source.{IngestionError, FetchFailure, FetchedBatch}
use stellar_risk.Common.Int.{ℤ}
use stellar_risk.Platform.{Platform}
use stellar_risk.Domain.Transaction.{NormalizedTransaction}
use stellar_risk.Ingestion.Normalize.{
  HorizonTransactionRecord, HorizonOperationRecord, normalize_transaction,
}
use stellar_risk.Ingestion.Horizon.{
  add_record, fetch_records, in_order, poll, Reply, success, status, broken, settle, attempts,
  get_json,
}

module _ {A : Type 0} (max_retries : ℕ) (url : String) (reply : ℕ → Reply A) where
  -- The loop returned after some requests, with what the last one settled; none before had settled it.
  pub record Returned (o : Option (ℕ × Result IngestionError A)) : Type 0 where
    pub requests : ℕ
    pub answer : Result IngestionError A
    pub returned : o ≡ some (requests, answer)
    pub asked : 1 ≤ requests
    pub bounded : requests ≤ max 1 max_retries
    pub settled : settle max_retries url reply requests (reply requests) ≡ some answer
    pub unsettled : (k : ℕ) → 1 ≤ k → k < requests → settle max_retries url reply k (reply k) ≡ none

  settle-last :
      (n : ℕ) (r : Reply A) → max_retries ≤ n → settle max_retries url reply n r ≡ none → ⊥
  unfolding settle
  settle-last n (success x) h e = ground (arith, e)
  settle-last n (status s b) h e = ground (arith, e)
  settle-last n (broken x) h e = ground (arith, e)

  attempts-Returned :
      (fuel attempt : ℕ)
      → attempt + fuel ≡ suc max_retries
      → suc attempt ≤ max 1 max_retries
      → ((k : ℕ) → 1 ≤ k → k ≤ attempt → settle max_retries url reply k (reply k) ≡ none)
      → Returned (attempts max_retries url reply fuel attempt)
  unfolding attempts
  attempts-Returned zero attempt e b before = absurd (omega arith)
  attempts-Returned (suc fuel) attempt e b before =
      elim (Option-cases (settle max_retries url reply (suc attempt) (reply (suc attempt)))) [
        | inl n ↦
            let more : suc attempt < max_retries =
              elim (Bool-cases (leb max_retries (suc attempt))) [
                | inl over ↦
                    absurd
                      (settle-last (suc attempt) (reply (suc attempt)) (ground (arith, over)) n)
                | inr under ↦ ground (arith, under)
              ] in
            let ih : Returned (attempts max_retries url reply fuel (suc attempt)) =
              attempts-Returned fuel (suc attempt) (omega arith) (omega arith) (λ k h l.
                elim (Bool-cases (leb k attempt)) [
                  | inl y ↦ before k h (ground (arith, y))
                  | inr y ↦
                      ap (λ m. settle max_retries url reply m (reply m)) {y = suc attempt}
                        (ground (arith, y))
                      ∙ n
                ]) in
            record {
              requests = ih.requests;
              answer = ih.answer;
              returned = rw (attempts, n) ih.returned;
              asked = ih.asked;
              bounded = ih.bounded;
              settled = ih.settled;
              unsettled = ih.unsettled;
            }
        | inr (r, s) ↦ record {
          requests = suc attempt;
          answer = r;
          returned = rw (attempts, s) refl;
          asked = omega arith;
          bounded = b;
          settled = s;
          unsettled = λ k h l. before k h (omega arith);
        }
      ]

  -- However the server replies, the request loop returns: after at least one and at most
  -- `max_retries` requests (one where that is zero), with what the last reply settles, while no reply
  -- before it settled anything.
  pub get_json-Returned : Returned (get_json max_retries url reply)
  unfolding get_json
  get_json-Returned =
      attempts-Returned (suc max_retries) 0 (omega arith) (omega arith)
        (λ k h l. absurd (omega arith))

-- How many of the texts are the given one.
abbrev pub count : String → List String → ℕ
count k [] = 0
count k (s ∷ ss) = (if k == s then 1 else 0) + count k ss

-- The token of the last record, or the cursor that was given.
abbrev pub last_token : List HorizonTransactionRecord → Option String → Option String
last_token [] cursor = cursor
last_token (r ∷ rs) cursor = last_token rs (some r.paging_token)

module _ ⦃p : Platform⦄ where
  abbrev pub ids : FetchedBatch → List String
  ids b =
      map (λ t. NormalizedTransaction.tx_id t) b.transactions
      ++ map (λ f. FetchFailure.raw_id f) b.failures

  module _ (parse_int : String → Result String ℤ)
      (operations : String → Result IngestionError (List HorizonOperationRecord)) where
    normalize-hash :
        (r : HorizonTransactionRecord) (tx : NormalizedTransaction)
        → (operations r.hash >>= λ ops. normalize_transaction parse_int r ops []) ≡ ok tx
        → tx.tx_id ≡ r.hash
    unfolding normalize_transaction
    normalize-hash r tx h = ground (arith, h)

    count-append : (k : String) (xs ys : List String) → count k (xs ++ ys) ≡ count k xs + count k ys
    count-append k [] ys = omega arith
    count-append k (x ∷ xs) ys = omega (arith, count-append k xs ys)

    add_record-count :
        (k : String) (r : HorizonTransactionRecord)
        (o : Result IngestionError NormalizedTransaction) (b : FetchedBatch)
        → ((tx : NormalizedTransaction) → o ≡ ok tx → tx.tx_id ≡ r.hash)
        → count k (ids (add_record r o b)) ≡ (if k == r.hash then 1 else 0) + count k (ids b)
    unfolding add_record
    add_record-count k r (ok tx) b h =
        ap (λ i. (if k == i then 1 else 0) + count k (ids b)) (h tx refl)
    add_record-count k r (err e) b h = omega (
      arith,
      count-append k (map (λ t. NormalizedTransaction.tx_id t) b.transactions)
          (map (λ f. FetchFailure.raw_id f) b.failures),
      count-append k (map (λ t. NormalizedTransaction.tx_id t) b.transactions)
          (r.hash ∷ map (λ f. FetchFailure.raw_id f) b.failures),
    )

    add_record-cursor :
        (r : HorizonTransactionRecord) (o : Result IngestionError NormalizedTransaction)
        (b : FetchedBatch)
        → (add_record r o b).next_cursor ≡ b.next_cursor
    unfolding add_record
    add_record-cursor r (ok tx) b = refl
    add_record-cursor r (err e) b = refl

    fetch_records-count :
        (k : String) (rs : List HorizonTransactionRecord) (cursor : Option String)
        → (count k (ids (fetch_records parse_int operations rs cursor))
            ≡ count k (map (λ r. HorizonTransactionRecord.hash r) rs))
          × ((fetch_records parse_int operations rs cursor).next_cursor ≡ last_token rs cursor)
    unfolding fetch_records
    fetch_records-count k [] cursor = (refl, refl)
    fetch_records-count k (r ∷ rs) cursor =
        let o : Result IngestionError NormalizedTransaction =
          operations r.hash >>= λ ops. normalize_transaction parse_int r ops [] in
        let rest : FetchedBatch = fetch_records parse_int operations rs (some r.paging_token) in
        let (same, next) = fetch_records-count k rs (some r.paging_token) in
        (
          add_record-count k r o rest (normalize-hash r)
              ∙ ap (λ n. (if k == r.hash then 1 else 0) + n) same,
          add_record-cursor r o rest ∙ next,
        )

    -- A page that was fetched loses no record: each hash stands among the identifiers of the
    -- transactions and of the failures together as often as among the records, and the next cursor is
    -- the paging token of the last record, in ascending order, or the old cursor where there is none.
    pub poll-count :
        (rs : List HorizonTransactionRecord) (cursor : Option String) (k : String)
        → (b : FetchedBatch) × (poll parse_int operations (ok rs) cursor ≡ ok b)
          × (count k (ids b)
              ≡ count k (map (λ r. HorizonTransactionRecord.hash r) (in_order cursor rs)))
          × (b.next_cursor ≡ last_token (in_order cursor rs) cursor)
    unfolding poll
    poll-count rs cursor k =
        let (same, next) = fetch_records-count k (in_order cursor rs) cursor in
        (fetch_records parse_int operations (in_order cursor rs) cursor, refl, same, next)
