-- ===== src/Audit/Chain.antt =====
-- crates/audit/src/error.rs and chain.rs
use stellar_risk.Common.{
  ℕ, suc, String, Bool, true, false, Option, none, some, List, [], ◌∷◌, ◌==◌, if◌then◌else◌, Result,
  ok, err, ◌>>=◌, map_err,
}
use stellar_risk.Common.Int.{ℤ}
use stellar_risk.Common.Text.{concat, show_int}
use stellar_risk.Platform.{Platform, Uuid, Json, text, int, null, object, field, end}
use stellar_risk.Domain.Transaction.{TxId}
use stellar_risk.Domain.AuditEvent.{AuditRecord}

pub data AuditError : Type 0 where
  serialization storage not_found : String → AuditError

-- The `Display` text of an error.
unfoldable pub display : AuditError → String
display (serialization m) = concat ("serialization error: " ∷ m ∷ [])
display (storage m) = concat ("storage error: " ∷ m ∷ [])
display (not_found m) = concat ("not found: " ∷ m ∷ [])

abbrev pub AuditResult : Type 0 → Type 0
AuditResult A = Result AuditError A

abbrev pub genesis_hash : String
genesis_hash = "0000000000000000000000000000000000000000000000000000000000000000"

pub record ChainVerification : Type 0 where
  pub valid : Bool
  pub records_checked : ℕ
  pub broken_at_sequence : Option ℤ
  pub detail : Option String

module _ ⦃p : Platform⦄ where
  open p use {F64, DateTime, uuid_text, to_rfc3339, to_vec, sha256, hex_encode}

  abbrev pub id_json : Option Uuid → Json F64
  id_json none = null
  id_json (some u) = text (uuid_text u)

  abbrev pub text_json : Option String → Json F64
  text_json none = null
  text_json (some s) = text s

  -- The `canonical` object of `compute_hash`.
  unfoldable pub canonical : String → ℤ → Option Uuid → Option TxId → String → DateTime → Json F64
  canonical prev_hash sequence alert_id tx_id event_json created_at = object (
      field "prev_hash" (text prev_hash) (
        field "sequence" (int sequence) (
          field "alert_id" (id_json alert_id) (
            field "tx_id" (text_json tx_id) (
              field "event_json" (text event_json)
                (field "created_at" (text (to_rfc3339 created_at)) end))))))

  -- The digest of a JSON value, in hexadecimal.
  unfoldable pub digest : Json F64 → AuditResult String
  digest j = map_err serialization (to_vec j) >>= λ bytes. ok (hex_encode (sha256 bytes))

  unfoldable pub compute_hash :
      String → ℤ → Option Uuid → Option TxId → String → DateTime → AuditResult String
  unfolding canonical digest
  compute_hash prev_hash sequence alert_id tx_id event_json created_at =
      digest (canonical prev_hash sequence alert_id tx_id event_json created_at)

  -- `compute_hash` at the fields of a record.
  unfoldable pub recompute : AuditRecord → AuditResult String
  unfolding compute_hash
  recompute r = compute_hash r.prev_hash r.sequence r.alert_id r.tx_id r.event_json r.created_at

  abbrev pub broken : ℕ → ℤ → String → ChainVerification
  broken i q why = record {
    valid = false;
    records_checked = i;
    broken_at_sequence = some q;
    detail = some why;
  }

  abbrev pub verified : ℕ → ChainVerification
  verified n = record {
    valid = true;
    records_checked = n;
    broken_at_sequence = none;
    detail = none;
  }

  -- The second half of the loop's body: what `compute_hash` answered, and what the loop goes on with.
  unfoldable pub check_hash :
      ℕ → AuditRecord → AuditResult String → ChainVerification → ChainVerification
  check_hash i r (err e) rest =
      broken i r.sequence (concat ("failed to recompute hash: " ∷ display e ∷ []))
  check_hash i r (ok recomputed) rest =
      if recomputed == r.hash
      then rest
      else broken i r.sequence (
          concat (
            "record "
            ∷ show_int r.sequence
            ∷ " stored hash does not match recomputed hash — content was altered"
            ∷ []))

  -- The loop of `verify_chain`, at the record of index `i`.
  unfoldable pub verify_from : ℕ → String → List AuditRecord → ChainVerification
  unfolding check_hash
  verify_from i expected_prev [] = verified i
  verify_from i expected_prev (r ∷ rs) =
      let rest = verify_from (suc i) r.hash rs in
      if r.prev_hash == expected_prev
      then check_hash i r (recompute r) rest
      else broken i r.sequence (
          concat (
            "record "
            ∷ show_int r.sequence
            ∷ " prev_hash does not match hash of previous record"
            ∷ []))

  unfoldable pub verify_chain : List AuditRecord → ChainVerification
  unfolding verify_from
  verify_chain records = verify_from 0 genesis_hash records
