-- ===== src/Domain/Error.antt =====
-- crates/domain/src/error.rs
use stellar_risk.Common.{String, Result, [], ◌∷◌}
use stellar_risk.Common.Text.{concat}

pub data DomainError : Type 0 where
  not_found invalid_input conflict storage internal : String → DomainError

abbrev pub DomainResult {ℓ} : Type ℓ → Type ℓ
DomainResult A = Result DomainError A

-- The `Display` text of an error.
unfoldable pub display : DomainError → String
display (not_found m) = concat ("not found: " ∷ m ∷ [])
display (invalid_input m) = concat ("invalid input: " ∷ m ∷ [])
display (conflict m) = concat ("conflict: " ∷ m ∷ [])
display (storage m) = concat ("storage error: " ∷ m ∷ [])
display (internal m) = concat ("internal error: " ∷ m ∷ [])
