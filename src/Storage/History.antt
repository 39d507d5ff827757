-- ===== src/Storage/History.antt =====
-- What `build_account_history` of crates/storage/src/tx_repo.rs answers after `save`.
use stellar_risk.Common.{
  ℕ, String, ◌≡◌, refl, ◌∙◌, sym, ap, Bool, true, false, ◌||◌, List, [], ◌∷◌, ◌++◌, any, length,
  filter, filter-append, arith, eq_iff, eq_refl, if◌then◌else◌, ok, err, ◌>>=◌, bind_ok, map_err,
  Bool-cases, inl, inr,
}
use stellar_risk.Common.Int.{pos}
use stellar_risk.Common.Text.{le_text}
use stellar_risk.Common.Sort.{has_key, le_text_refl}
use stellar_risk.Platform.{Platform}
use stellar_risk.Codec.{Codec}
use stellar_risk.Domain.Error.{DomainResult}
use stellar_risk.Domain.Transaction.{itself, key, AssetMovement, NormalizedTransaction}
use stellar_risk.Domain.Accounts.{carries}
use stellar_risk.Rules.Context.{AccountHistory}
use stellar_risk.Storage.Query.{map_json, Faults, answer}
use stellar_risk.Storage.Transactions.{
  TransactionRow, has_id, within, row_of, insert_new, new_row, save, row_to_tx, insert_assets,
  read_recent, read_baseline, newest_first, build_account_history,
}

has_key-append :
    (k : String) (xs ys : List String)
    → has_key itself k (xs ++ ys) ≡ (has_key itself k xs || has_key itself k ys)
has_key-append k [] ys = refl
has_key-append k (x ∷ xs) ys = ground (arith, has_key-append k xs ys)

-- A chain of the five steps that `build_account_history` takes, and what its success says of the
-- last two.
five_steps :
    {X Y Z K H : Type 0} (a : DomainResult X) (b : X → DomainResult Y) (c : DomainResult ℕ)
    (d : DomainResult Z) (f : Z → Y → DomainResult K) (made : Y → ℕ → K → H) (h : H)
    → (a >>= λ x. b x >>= λ y. c >>= λ n. d >>= λ z. f z y >>= λ k. ok (made y n k)) ≡ ok h
    → (y : Y) × (n : ℕ) × (z : Z) × (k : K) × (d ≡ ok z) × (f z y ≡ ok k) × (made y n k ≡ h)
five_steps a b c d f made h e =
    let (x, _, e1) =
      bind_ok a (λ x. b x >>= λ y. c >>= λ n. d >>= λ z. f z y >>= λ k. ok (made y n k)) h e in
    let (y, _, e2) =
      bind_ok (b x) (λ y. c >>= λ n. d >>= λ z. f z y >>= λ k. ok (made y n k)) h e1 in
    let (n, _, e3) = bind_ok c (λ n. d >>= λ z. f z y >>= λ k. ok (made y n k)) h e2 in
    let (z, dz, e4) = bind_ok d (λ z. f z y >>= λ k. ok (made y n k)) h e3 in
    let (k, fk, e5) = bind_ok (f z y) (λ k. ok (made y n k)) h e4 in
    (y, n, z, k, dz, fk, ground (arith, e5))

answer_ok : {A : Type 0} {a b : A} (faults : Faults) (i : ℕ) → answer faults i a ≡ ok b → a ≡ b
answer_ok faults i h = ground (arith, h)

module _ ⦃p : Platform⦄ where
  open p use {DateTime, Duration, f64, f64_of_int, f64_div, f64_max, minus, num_seconds, to_rfc3339}

  pub has_key-insert_assets :
      (k : String) (ms : List AssetMovement) (known : List String)
      → has_key itself k (insert_assets ms known) ≡ (has_key itself k known || any (carries k) ms)
  unfolding insert_assets
  has_key-insert_assets k [] known = ground arith
  has_key-insert_assets k (m ∷ ms) known =
      has_key-insert_assets k ms
        (if has_key itself (key m.asset) known then known else known ++ key m.asset ∷ [])
      ∙ elim (Bool-cases (has_key itself (key m.asset) known)) [
        | inl e ↦ rw e (ground (arith, e, eq_iff k (key m.asset)))
        | inr e ↦ rw e (ground (arith, has_key-append k known (key m.asset ∷ [])))
      ]

  module _ ⦃c : Codec⦄ where
    open c use {movements_text, read_movements, texts_text}

    row_to_tx-movements :
        (r : TransactionRow) (t : NormalizedTransaction) (ms : List AssetMovement)
        → row_to_tx r ≡ ok t
        → read_movements r.movements_json ≡ ok ms
        → t.movements ≡ ms
    unfolding row_to_tx
    row_to_tx-movements r t ms h q = ground (arith, h, q)

    -- The row behind the others is read last, and its assets are then among the known ones.
    read_baseline-last :
        (k : String) (ms : List AssetMovement) (r : TransactionRow) (rs : List TransactionRow)
        (known ks : List String)
        → read_movements r.movements_json ≡ ok ms
        → read_baseline (rs ++ r ∷ []) known ≡ ok ks
        → any (carries k) ms ≡ true
        → has_key itself k ks ≡ true
    unfolding read_baseline
    read_baseline-last k ms r [] known ks q h a =
        let (t, read, done) =
          bind_ok (row_to_tx r) (λ tx. read_baseline [] (insert_assets tx.movements known)) ks h in
        ground (arith, has_key-insert_assets k ms known, row_to_tx-movements r t ms read q, done)
    read_baseline-last k ms r (s ∷ ss) known ks q h a =
        let (t, read, more) =
          bind_ok (row_to_tx s)
            (λ tx. read_baseline (ss ++ r ∷ []) (insert_assets tx.movements known)) ks h in
        read_baseline-last k ms r ss (insert_assets t.movements known) ks q more a

    build-baseline :
        (account : String) (as_of : DateTime) (lookback window : Duration) (faults : Faults)
        (rows : List TransactionRow) (h : AccountHistory)
        → build_account_history account as_of lookback window faults rows ≡ ok h
        → (known : List String) × (read_baseline
              (filter (within account (to_rfc3339 (minus as_of window)) (to_rfc3339 as_of)) rows)
              known
            ≡ ok h.known_assets)
    unfolding build_account_history
    build-baseline account as_of lookback window faults rows h e =
        let (seen, count, baseline, known, answered, read, made) =
          five_steps
            (answer faults 0 (
              newest_first (
                filter (within account (to_rfc3339 (minus as_of lookback)) (to_rfc3339 as_of))
                  rows)))
            (λ rs. read_recent account rs [] [])
            (answer faults 1 (
              length (
                filter (within account (to_rfc3339 (minus as_of window)) (to_rfc3339 as_of)) rows)))
            (answer faults 2
              (filter (within account (to_rfc3339 (minus as_of window)) (to_rfc3339 as_of)) rows))
            (λ rs seen. read_baseline rs seen.1)
            (λ seen n known. record {
              account = account;
              recent_transactions = seen.0;
              baseline_tx_per_hour =
                  f64_div (f64_of_int (pos n))
                    (f64_max (f64_div (f64_of_int (num_seconds window)) (f64 3600)) (f64 1));
              baseline_observations = n;
              known_assets = known;
            })
            h e in
        (
          seen.1,
          ap (λ rs. read_baseline rs seen.1) (answer_ok faults 2 answered)
              ∙ read
              ∙ ap (λ g. ok (AccountHistory.known_assets g)) made,
        )

    new_row-written :
        (tx : NormalizedTransaction) (now : DateTime) (faults : Faults) (r : TransactionRow)
        → new_row tx now faults ≡ ok r
        → (mj : String) × (cj : String) × (movements_text tx.movements ≡ ok mj)
          × (r ≡ row_of now tx mj cj)
    unfolding new_row
    new_row-written tx now faults r h =
        let (mj, written, e) =
          bind_ok (map_err map_json (movements_text tx.movements))
            (λ mj. map_err map_json (texts_text tx.contract_ids) >>= λ cj.
              answer faults 0 (row_of now tx mj cj))
            r h in
        let (cj, _, last) =
          bind_ok (map_err map_json (texts_text tx.contract_ids))
            (λ cj. answer faults 0 (row_of now tx mj cj)) r e in
        (mj, cj, ground (arith, written), sym (answer_ok faults 0 last))

    save-saved :
        (tx : NormalizedTransaction) (now : DateTime) (faults : Faults) (rows : List TransactionRow)
        → (save tx now faults rows).0 ≡ ok tt
        → any (has_id tx.tx_id) rows ≡ false
        → (mj : String) × (cj : String) × (movements_text tx.movements ≡ ok mj)
          × ((save tx now faults rows).1 ≡ rows ++ row_of now tx mj cj ∷ [])
    unfolding save insert_new
    save-saved tx now faults rows s fresh = go (new_row tx now faults) refl s
      where
        go :
            (o : DomainResult TransactionRow)
            → new_row tx now faults ≡ o
            → (insert_new tx.tx_id rows o).0 ≡ ok tt
            → (mj : String) × (cj : String) × (movements_text tx.movements ≡ ok mj)
              × ((insert_new tx.tx_id rows o).1 ≡ rows ++ row_of now tx mj cj ∷ [])
        go (err x) e z = absurd cc
        go (ok r) e z =
            let (mj, cj, written, same) = new_row-written tx now faults r e in
            (mj, cj, written, rw fresh (ap (λ x. rows ++ x ∷ []) same))

    -- After `save` has stored a new transaction, the history that is built for its source as of its
    -- time, where it is built, has every asset of that transaction among the known assets, as long as
    -- the baseline window starts no later, the text of the instants compared, and `serde` reads back
    -- the movements that it wrote.
    pub own_assets_known :
        (tx : NormalizedTransaction) (now : DateTime) (lookback window : Duration)
        (faults faults' : Faults) (rows : List TransactionRow) (h : AccountHistory) (k : String)
        → ((mj : String)
            → movements_text tx.movements ≡ ok mj
            → read_movements mj ≡ ok tx.movements)
        → le_text (to_rfc3339 (minus tx.created_at window)) (to_rfc3339 tx.created_at) ≡ true
        → any (has_id tx.tx_id) rows ≡ false
        → (save tx now faults rows).0 ≡ ok tt
        → build_account_history tx.source_account tx.created_at lookback window faults'
            (save tx now faults rows).1
          ≡ ok h
        → any (carries k) tx.movements ≡ true
        → has_key itself k h.known_assets ≡ true
    own_assets_known tx now lookback window faults faults' rows h k back early fresh saved built a =
        let (mj, cj, written, stored) = save-saved tx now faults rows saved fresh in
        let chosen : TransactionRow → Bool =
          within tx.source_account (to_rfc3339 (minus tx.created_at window))
            (to_rfc3339 tx.created_at) in
        let (known, read) =
          build-baseline tx.source_account tx.created_at lookback window faults'
            (save tx now faults rows).1 h built in
        read_baseline-last k tx.movements (row_of now tx mj cj) (filter chosen rows) known
          h.known_assets (back mj written)
          (ap (λ rs. read_baseline rs known)
              (sym (
                ap (filter chosen) stored
                ∙ filter-append chosen rows (row_of now tx mj cj ∷ [])
                ∙ ground (
                  arith,
                  early,
                  eq_refl tx.source_account,
                  le_text_refl (to_rfc3339 tx.created_at),
                )))
            ∙ read)
          a
