-- ===== src/Ingestion/Replay.antt =====
-- Polling the source of crates/ingestion/src/mock.rs as `run_source` of crates/api/src/pipeline.rs
-- does, each time from the cursor that the last batch gave.
use stellar_risk.Common.{
  ℕ, zero, suc, ◌+◌, ◌-◌, ◌*◌, ◌≤◌, ◌<◌, ◌≡◌, refl, ◌∙◌, sym, ap, String, true, Option, none, some,
  List, [], ◌∷◌, ◌++◌, length, take, drop, min, leb, ltb, arith, ok, err, Bool-cases, inl, inr,
}
use stellar_risk.Common.Text.{show, parse_usize-show, usize_limit}
use stellar_risk.Platform.{Platform}
use stellar_risk.Domain.Transaction.{NormalizedTransaction}
use stellar_risk.Ingestion.Mock.{answered, panicked, MockTransactionSource, start_of, poll_at, poll}

suc_mul : (n b : ℕ) → suc n * b ≡ b + n * b
suc_mul n b = omega arith

module _ {A : Type 0} where
  take-drop : (n : ℕ) (xs : List A) → take n xs ++ drop n xs ≡ xs
  take-drop zero xs = refl
  take-drop (suc n) [] = refl
  take-drop (suc n) (x ∷ xs) = ap (λ ys. x ∷ ys) (take-drop n xs)

  drop-all : (k : ℕ) (xs : List A) → length xs ≤ k → drop k xs ≡ []
  drop-all zero [] h = refl
  drop-all zero (x ∷ xs) h = absurd (omega arith)
  drop-all (suc k) [] h = refl
  drop-all (suc k) (x ∷ xs) h = drop-all k xs (omega arith)

  drop-drop : (d k : ℕ) (xs : List A) → drop d (drop k xs) ≡ drop (k + d) xs
  drop-drop d zero xs = ap (λ m. drop m xs) (omega arith)
  drop-drop d (suc k) [] = drop-all d [] (omega arith) ∙ sym (drop-all (suc k + d) [] (omega arith))
  drop-drop d (suc k) (x ∷ xs) =
      drop-drop d k xs ∙ ap (λ m. drop m (x ∷ xs)) {x = suc (k + d)} (omega arith)

  slice-drop : (k e : ℕ) (xs : List A) → k ≤ e → take (e - k) (drop k xs) ++ drop e xs ≡ drop k xs
  slice-drop k e xs h =
      ap (λ ys. take (e - k) (drop k xs) ++ ys)
        (sym (drop-drop (e - k) k xs ∙ ap (λ m. drop m xs) (omega arith)))
      ∙ take-drop (e - k) (drop k xs)

module _ ⦃p : Platform⦄ where
  -- All that a number of polls yields.
  unfoldable pub polls : ℕ → MockTransactionSource → Option String → List NormalizedTransaction
  polls zero s cursor = []
  polls (suc n) s cursor = elim (poll s cursor) [
    | panicked ↦ []
    | answered a ↦ elim a [ err e ↦ [] | ok b ↦ b.transactions ++ polls n s b.next_cursor ]
  ]

  start_of-show : (n : ℕ) → n < usize_limit → start_of (some (show n)) ≡ ok n
  unfolding start_of
  start_of-show n h = rw (start_of, parse_usize-show n h) refl

  polls_from :
      (n k : ℕ) (s : MockTransactionSource) (cursor : Option String)
      → start_of cursor ≡ ok k
      → 1 ≤ s.batch_size
      → length s.transactions + s.batch_size < usize_limit
      → length s.transactions ≤ k + n * s.batch_size
      → polls n s cursor ≡ drop k s.transactions
  unfolding polls poll poll_at
  polls_from zero k s cursor e b fits h = sym (drop-all k s.transactions (omega arith))
  polls_from (suc n) k s cursor e b fits h = elim (Bool-cases (leb (length s.transactions) k)) [
    | inl over ↦
        rw (polls, poll, e, poll_at, over) (polls_from n k s cursor e b fits (ground (arith, over)))
    | inr more ↦
        let end : ℕ = min (k + s.batch_size) (length s.transactions) in
        let in_range : ltb (k + s.batch_size) usize_limit ≡ true = ground (arith, more, fits) in
        rw (polls, poll, e, poll_at, more, in_range)
          (ap (λ ys. take (end - k) (drop k s.transactions) ++ ys)
              (polls_from n end s (some (show end)) (start_of-show end (ground (arith, more, fits)))
                b fits (omega (arith, suc_mul n s.batch_size)))
            ∙ slice-drop k end s.transactions (ground (arith, more)))
  ]

  -- A replay yields every transaction once and in order: after enough polls from the beginning, the
  -- batches together are the list of the source (whose length and batch size add up to less than 64
  -- bits hold).
  pub polls-all :
      (n : ℕ) (s : MockTransactionSource)
      → 1 ≤ s.batch_size
      → length s.transactions + s.batch_size < usize_limit
      → length s.transactions ≤ n * s.batch_size
      → polls n s none ≡ s.transactions
  unfolding start_of
  polls-all n s b fits h = polls_from n 0 s none refl b fits (omega arith)
