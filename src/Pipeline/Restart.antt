-- ===== src/Pipeline/Restart.antt =====
-- `run_source` of crates/api/src/pipeline.rs takes up where it stopped.
use stellar_risk.Common.{
  ℕ, suc, ◌++◌, All, String, ◌≡◌, refl, sym, ◌∙◌, ap, Option, none, some, List, [], ◌∷◌, Result, ok,
  err, arith, eq_refl,
}
use stellar_risk.Platform.{Platform}
use stellar_risk.Codec.{Codec}
use stellar_risk.Domain.Transaction.{NormalizedTransaction}
use stellar_risk.Advisor.Request.{AiAdvisor}
use stellar_risk.Ingestion.Source.{IngestionError, FetchedBatch}
use stellar_risk.Storage.Query.{Faults}
use stellar_risk.Storage.Ingestion.{
  CursorRow, find_cursor, get_cursor, set_cursor, find_cursor-put_cursor, answered,
}
use stellar_risk.Pipeline.Process.{Settings, State, process_transaction}
use stellar_risk.Pipeline.Batch.{
  Turn, Round, Monitor, flattened, settle, process_all, process_batch, advance, handle_poll,
  one_round, rounds, run_source,
}

module _ ⦃p : Platform⦄ ⦃c : Codec⦄ where
  module _ (advisor : AiAdvisor) (settings : Settings) (source : String) where
    settle-cursors :
        (tx : NormalizedTransaction) (t : Turn) (m : Monitor)
        (out : Result String (Option ℕ) × State)
        → (settle source tx t m out).cursors ≡ m.cursors
    unfolding settle
    settle-cursors tx t m (ok a, s) = refl
    settle-cursors tx t m (err e, s) = refl

    process_all-cursors :
        (turns : ℕ → Turn) (i : ℕ) (txs : List NormalizedTransaction) (m : Monitor)
        → (process_all advisor settings source turns i txs m).cursors ≡ m.cursors
    unfolding process_all
    process_all-cursors turns i [] m = refl
    process_all-cursors turns i (tx ∷ txs) m =
        let out = process_transaction advisor settings tx (turns i).env m.state in
        process_all-cursors turns (suc i) txs (settle source tx (turns i) m out)
        ∙ settle-cursors tx (turns i) m out

    -- The database does not fail when the round stores the cursor.
    abbrev pub IsStoring : Round → Type 0
    IsStoring r = r.setting 0 ≡ none

    -- The cursor in memory is the one that is stored.
    abbrev InStep : Option String × Monitor → Type 0
    InStep (cursor, m) = cursor ≡ find_cursor source m.cursors

    stored_cursor :
        (r : Round) (x : String) (rows : List CursorRow)
        → r.setting 0 ≡ none
        → find_cursor source (set_cursor source x r.cursor_now r.setting rows).1 ≡ some x
    unfolding set_cursor
    stored_cursor r x rows h =
        rw (set_cursor, h) (find_cursor-put_cursor source _ rows ∙ ground (arith, eq_refl source))

    InStep-handle_poll :
        (r : Round) (cursor : Option String) (m : Monitor)
        (answer : Result IngestionError FetchedBatch)
        → r.setting 0 ≡ none
        → InStep (cursor, m)
        → InStep (handle_poll advisor settings source r cursor m answer)
    unfolding handle_poll process_batch advance
    InStep-handle_poll r cursor m (err e) h k = k
    InStep-handle_poll r cursor m (ok batch) h k = go batch.next_cursor
      where
        go :
            (next : Option String)
            → InStep (
                advance advisor settings source r cursor next
                  (process_batch advisor settings source r batch m))
        go none =
            k
            ∙ ap (λ rows. find_cursor source rows)
                (sym (process_all-cursors r.turns 0 batch.transactions m))
        go (some x) =
            sym (stored_cursor r x (process_batch advisor settings source r batch m).cursors h)

    module _ {S : Type 0} (poll : Option String → S → Result IngestionError FetchedBatch × S) where
      InStep-rounds :
          (rs : List Round) (cursor : Option String) (s : S) (m : Monitor)
          → All IsStoring rs
          → InStep (cursor, m)
          → (rounds advisor settings source poll rs (cursor, s, m)).0
            ≡ find_cursor source (rounds advisor settings source poll rs (cursor, s, m)).2.cursors
      unfolding rounds one_round
      InStep-rounds [] cursor s m h k = k
      InStep-rounds (r ∷ rs) cursor s m h k =
          InStep-rounds rs _ _ _ h.1 (InStep-handle_poll r cursor m (poll cursor s).0 h.0 k)

      rounds-append :
          (rs later : List Round) (at : Option String × S × Monitor)
          → rounds advisor settings source poll (rs ++ later) at
            ≡ rounds advisor settings source poll later (rounds advisor settings source poll rs at)
      unfolding rounds
      rounds-append [] later at = refl
      rounds-append (r ∷ rs) later at =
          rounds-append rs later (one_round advisor settings source poll r at)

      read_cursor :
          (reading : Faults) (m : Monitor)
          → reading 0 ≡ none
          → flattened (get_cursor source reading m.cursors) ≡ find_cursor source m.cursors
      unfolding get_cursor
      read_cursor reading m h = ap flattened (answered reading 0 h)

      -- A program that is stopped after some rounds and started again on the tables that it left goes on
      -- as if it had not been stopped, the source's own state being kept. This holds where the database
      -- fails neither when cursors are stored nor when they are read at the two starts.
      pub run_source-restart :
          (rs later : List Round) (reading reading' : Faults) (s : S) (m : Monitor)
          → All IsStoring rs
          → reading 0 ≡ none
          → reading' 0 ≡ none
          → run_source advisor settings source poll reading (rs ++ later) s m ≡ (
              let (cursor, s', m') = run_source advisor settings source poll reading rs s m in
              run_source advisor settings source poll reading' later s' m')
      unfolding run_source
      run_source-restart rs later reading reading' s m h a b =
          let cursor = flattened (get_cursor source reading m.cursors) in
          let after = rounds advisor settings source poll rs (cursor, s, m) in
          rounds-append rs later (cursor, s, m)
          ∙ ap (λ x. rounds advisor settings source poll later (x, after.1, after.2))
              (InStep-rounds rs cursor s m h (read_cursor reading m a)
                ∙ sym (read_cursor reading' after.2 b))
