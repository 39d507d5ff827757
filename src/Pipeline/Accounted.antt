-- ===== src/Pipeline/Accounted.antt =====
-- `process_batch` of crates/api/src/pipeline.rs loses nothing.
use stellar_risk.Common.{ℕ, suc, ◌+◌, String, true, ◌≡◌, Option, List, [], ◌∷◌, Result, ok, err}
use stellar_risk.Platform.{Platform, Uuid}
use stellar_risk.Codec.{Codec}
use stellar_risk.Domain.Transaction.{NormalizedTransaction}
use stellar_risk.Advisor.Request.{AiAdvisor}
use stellar_risk.Storage.Ingestion.{DeadLetterRow}
use stellar_risk.Pipeline.Process.{Settings, State, process_transaction}
use stellar_risk.Pipeline.Letters.{has_letter}
use stellar_risk.Pipeline.Batch.{Turn, raw_of}

module _ ⦃p : Platform⦄ where
  module _ ⦃c : Codec⦄ where
    module _ (advisor : AiAdvisor) (settings : Settings) (source : String) where
      -- What became of a transaction: it was processed, or its text is in a dead letter with the error.
      abbrev Fate :
          NormalizedTransaction → Result String (Option Uuid) → List DeadLetterRow → Type 0
      Fate tx (ok alert) rows = Unit
      Fate tx (err e) rows = has_letter source (raw_of tx) e rows ≡ true

      -- Each transaction in turn, on the state that the ones before it left.
      abbrev pub IsAccounted :
          (ℕ → Turn) → ℕ → List NormalizedTransaction → State → List DeadLetterRow → Type 0
      IsAccounted turns i [] s rows = Unit
      IsAccounted turns i (tx ∷ txs) s rows =
          Fate tx (process_transaction advisor settings tx (turns i).env s).0 rows
          × IsAccounted turns (suc i) txs
              (process_transaction advisor settings tx (turns i).env s).1 rows

      abbrev failed : Result String (Option Uuid) → ℕ
      failed (ok alert) = 0
      failed (err e) = 1

      -- How many transactions fail, each on the state that the ones before it left.
      abbrev pub failures : (ℕ → Turn) → ℕ → List NormalizedTransaction → State → ℕ
      failures turns i [] s = 0
      failures turns i (tx ∷ txs) s =
          failed (process_transaction advisor settings tx (turns i).env s).0
          + failures turns (suc i) txs (process_transaction advisor settings tx (turns i).env s).1
