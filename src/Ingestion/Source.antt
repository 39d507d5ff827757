-- ===== src/Ingestion/Source.antt =====
-- crates/ingestion/src/source.rs and error.rs.
use stellar_risk.Common.{String, List, Option, [], ◌∷◌}
use stellar_risk.Common.Text.{concat}
use stellar_risk.Platform.{Platform}
use stellar_risk.Domain.Transaction.{NormalizedTransaction}

pub data IngestionError : Type 0 where
  network decode : String → IngestionError

-- The `Display` text of an error.
unfoldable pub display : IngestionError → String
display (network m) = concat ("network error: " ∷ m ∷ [])
display (decode m) = concat ("unexpected response shape: " ∷ m ∷ [])

pub record FetchFailure : Type 0 where
  pub raw_id : String
  pub error : String

module _ ⦃p : Platform⦄ where
  pub record FetchedBatch : Type 0 where
    pub transactions : List NormalizedTransaction
    pub failures : List FetchFailure
    pub next_cursor : Option String
