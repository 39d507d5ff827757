-- ===== src/Pipeline/Batch.antt =====
-- `process_batch` and `run_source` of crates/api/src/pipeline.rs. The loop never ends: `rounds` is
-- what as many of its rounds do as the list that it takes is long. The source is a parameter, with a
-- state of its own, and so is what the clock, the generator of identifiers and the database answer at
-- each step.
use stellar_risk.Common.{ℕ, suc, String, Option, none, some, List, [], ◌∷◌, Result, ok, err}
use stellar_risk.Platform.{Platform, Uuid}
use stellar_risk.Codec.{Codec}
use stellar_risk.Domain.Error.{DomainResult}
use stellar_risk.Domain.Transaction.{NormalizedTransaction}
use stellar_risk.Advisor.Request.{AiAdvisor}
use stellar_risk.Ingestion.Source.{IngestionError, FetchFailure, FetchedBatch}
use stellar_risk.Storage.Query.{Faults}
use stellar_risk.Storage.Ingestion.{
  CursorRow, DeadLetterRow, get_cursor, set_cursor, add_dead_letter,
}
use stellar_risk.Pipeline.Process.{Settings, State, Surroundings, process_transaction}

-- `unwrap_or_default` of a text.
abbrev pub or_default : Result String String → String
or_default (ok s) = s
or_default (err e) = ""

-- `ok().flatten()`
abbrev pub flattened : DomainResult (Option String) → Option String
flattened (ok c) = c
flattened (err e) = none

module _ ⦃p : Platform⦄ where
  open p use {DateTime}

  -- What is answered while one transaction or one failure of a batch is dealt with.
  pub record Turn : Type 0 where
    pub env : Surroundings
    pub letter_id : Uuid
    pub letter_now : DateTime
    pub lettering : Faults
    pub refusal : String

  -- The same for a round of the loop.
  pub record Round : Type 0 where
    pub turns : ℕ → Turn
    pub failure_turns : ℕ → Turn
    pub cursor_now : DateTime
    pub setting : Faults

  pub record Monitor : Type 0 where
    pub state : State
    pub dead_letters : List DeadLetterRow
    pub cursors : List CursorRow

  -- A dead letter, whose own failure is logged and nothing else.
  unfoldable pub bury : String → String → String → Turn → List DeadLetterRow → List DeadLetterRow
  bury source raw error t rows =
      (add_dead_letter source raw error t.letter_id t.letter_now t.lettering t.refusal rows).1

  module _ ⦃c : Codec⦄ where
    open c use {transaction_text}

    abbrev pub raw_of : NormalizedTransaction → String
    raw_of tx = or_default (transaction_text tx)

    -- After `process_transaction`.
    unfoldable pub settle :
        String
        → NormalizedTransaction
        → Turn
        → Monitor
        → Result String (Option Uuid) × State
        → Monitor
    unfolding bury
    settle source tx t m (ok alert, s) = record m { state = s }
    settle source tx t m (err e, s) = record m {
      state = s;
      dead_letters = bury source (raw_of tx) e t m.dead_letters;
    }

    module _ (advisor : AiAdvisor) (settings : Settings) (source : String) where
      unfoldable pub process_all : (ℕ → Turn) → ℕ → List NormalizedTransaction → Monitor → Monitor
      unfolding settle process_transaction
      process_all turns i [] m = m
      process_all turns i (tx ∷ txs) m = process_all turns (suc i) txs (
          settle source tx (turns i) m
            (process_transaction advisor settings tx (turns i).env m.state))

      unfoldable pub bury_all :
          (ℕ → Turn) → ℕ → List FetchFailure → List DeadLetterRow → List DeadLetterRow
      unfolding bury
      bury_all turns i [] rows = rows
      bury_all turns i (f ∷ fs) rows =
          bury_all turns (suc i) fs (bury source f.raw_id f.error (turns i) rows)

      unfoldable pub process_batch : Round → FetchedBatch → Monitor → Monitor
      unfolding process_all bury_all
      process_batch r batch m =
          let m' = process_all r.turns 0 batch.transactions m in
          record m' { dead_letters = bury_all r.failure_turns 0 batch.failures m'.dead_letters }

      -- The cursor is stored, and goes on in memory whether or not that succeeds.
      unfoldable pub advance :
          Round → Option String → Option String → Monitor → Option String × Monitor
      advance r cursor none m = (cursor, m)
      advance r cursor (some c) m =
          (some c, record m { cursors = (set_cursor source c r.cursor_now r.setting m.cursors).1 })

      -- One round: what the source answered, and what becomes of it.
      unfoldable pub handle_poll :
          Round
          → Option String
          → Monitor
          → Result IngestionError FetchedBatch
          → Option String × Monitor
      unfolding process_batch advance
      handle_poll r cursor m (err e) = (cursor, m)
      handle_poll r cursor m (ok batch) =
          advance r cursor batch.next_cursor (process_batch r batch m)

      module _ {S : Type 0}
          (poll : Option String → S → Result IngestionError FetchedBatch × S) where
        unfoldable pub one_round : Round → Option String × S × Monitor → Option String × S × Monitor
        unfolding handle_poll
        one_round r (cursor, s, m) =
            let (answer, s') = poll cursor s in
            let (cursor', m') = handle_poll r cursor m answer in (cursor', s', m')

        unfoldable pub rounds :
            List Round → Option String × S × Monitor → Option String × S × Monitor
        unfolding one_round
        rounds [] at = at
        rounds (r ∷ rs) at = rounds rs (one_round r at)

        -- The loop's first rounds, from the cursor that is stored.
        unfoldable pub run_source : Faults → List Round → S → Monitor → Option String × S × Monitor
        unfolding rounds
        run_source reading rs s m =
            rounds rs (flattened (get_cursor source reading m.cursors), s, m)
