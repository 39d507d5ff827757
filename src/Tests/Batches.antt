-- ===== src/Tests/Batches.antt =====
-- The loop of crates/api/src/pipeline.rs over the replay of crates/ingestion.
use stellar_risk.Common.{
  ◌≡◌, refl, Option, none, some, String, [], ◌∷◌, ℕ, ◌+◌, Result, err, zero, suc,
}
use stellar_risk.Ingestion.Source.{IngestionError, network, FetchedBatch}
use stellar_risk.Ingestion.Mock
use stellar_risk.Storage.Query.{Faults}
use stellar_risk.Pipeline.Batch.{Turn, Round, Monitor, run_source}
use stellar_risk.Pipeline.Accounted.{failures}
use stellar_risk.Pipeline.Restart.{run_source-restart}
use stellar_risk.Tests.Outside.{replay}
use stellar_risk.Tests.Pipeline.{settings, around, start, keen}
use stellar_risk.Toy.{toy, toy_codec, transfer}

abbrev healthy : Faults
healthy i = none

abbrev broken : Faults
broken i = some "disk full"

-- The database takes the letters; it saves the first transaction and not the second.
abbrev turn : ℕ → ℕ → Turn
turn first i = record {
  env = record around { saving = λ j. elim i [ zero ↦ none | suc k ↦ some "disk full" ] };
  letter_id = first + i;
  letter_now = 70;
  lettering = healthy;
  refusal = "taken";
}

abbrev round : Round
round = record { turns = turn 3; failure_turns = turn 20; cursor_now = 71; setting = healthy }

abbrev batch : FetchedBatch
batch = record {
  transactions = transfer ∷ transfer ∷ [];
  failures = record { raw_id = "t2"; error = "no operations" } ∷ [];
  next_cursor = some "2";
}

abbrev monitor : Monitor
monitor = record { state = start; dead_letters = []; cursors = [] }

-- The replay has no state of its own.
abbrev polling : Option String → Unit {0} → Result IngestionError FetchedBatch × Unit {0}
polling cursor u = elim (Mock.poll replay cursor) [
  | Mock.answered a ↦ (a, u)
  | Mock.panicked ↦ (err (network "panicked"), u)
]

run_source-restart_example :
    run_source keen settings "mock" polling healthy (round ∷ round ∷ []) tt monitor ≡ (
      let (cursor, s, m) =
        run_source keen settings "mock" polling healthy (round ∷ []) tt monitor in
      run_source keen settings "mock" polling healthy (round ∷ []) s m)
run_source-restart_example =
    run_source-restart keen settings "mock" polling (round ∷ []) (round ∷ []) healthy healthy tt
      monitor (refl, tt) refl refl
