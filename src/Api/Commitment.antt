-- ===== src/Api/Commitment.antt =====
-- `hash_decision` of crates/soroban_anchor/src/hash.rs
use stellar_risk.Common.{ℕ, String, Option, none, some, List, ok, err}
use stellar_risk.Platform.{Platform, Uuid, Json, text, object, field, end}

module _ ⦃p : Platform⦄ where
  open p use {F64, DateTime, uuid_text, to_rfc3339, to_vec, sha256}

  abbrev pub canonical : Uuid → String → String → String → DateTime → Json F64
  canonical alert_id investigator_id decision rationale created_at = object (
      field "alert_id" (text (uuid_text alert_id)) (
        field "investigator_id" (text investigator_id) (
          field "decision" (text decision) (
            field "rationale" (text rationale)
              (field "created_at" (text (to_rfc3339 created_at)) end)))))

  -- No hash is the panic of `expect`.
  unfoldable pub hash_decision : Uuid → String → String → String → DateTime → Option (List ℕ)
  hash_decision alert_id investigator_id decision rationale created_at =
      elim (to_vec (canonical alert_id investigator_id decision rationale created_at)) [
        | ok bytes ↦ some (sha256 bytes)
        | err e ↦ none
      ]
