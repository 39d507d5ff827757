-- ===== src/Storage/AuditLog.antt =====
-- crates/storage/src/audit_store.rs: the table `audit_log`. `append` holds its lock for the whole
-- body, so that a call is one step.
use stellar_risk.Common.{
  ℕ, ◌≡◌, arith, String, Bool, Option, none, some, List, [], ◌∷◌, ◌++◌, ◌==◌, ◌||◌, ◌&&◌, false,
  reverse, any, filter, last?, if◌then◌else◌, Result, ok, err, ◌>>=◌, map, map_err, collect,
}
use stellar_risk.Common.Int.{ℤ, pos, leb_ℤ, succ_int}
use stellar_risk.Platform.{Platform, Uuid}
use stellar_risk.Codec.{Codec}
use stellar_risk.Domain.Error.{DomainResult, internal, display}
use stellar_risk.Domain.Transaction.{TxId}
use stellar_risk.Domain.AuditEvent.{AuditRecord}
use stellar_risk.Audit.Chain.{
  AuditResult, serialization, storage, genesis_hash, ChainVerification, compute_hash, verify_chain,
}
use stellar_risk.Audit.Store.{NewAuditEvent}
use stellar_risk.Storage.Query.{map_json, Faults, order_by, limited}

pub record AuditRow : Type 0 where
  pub sequence : ℤ
  pub id : String
  pub alert_id : Option String
  pub tx_id : Option String
  pub event_json : String
  pub created_at : String
  pub prev_hash : String
  pub hash : String

-- A statement of this store: an error of the database is `AuditError::Storage` of its text.
abbrev pub answers : {A : Type 0} → Faults → ℕ → A → AuditResult A
answers faults i a = elim (faults i) [ none ↦ ok a | some e ↦ err (storage e) ]

-- `ORDER BY sequence ASC`
abbrev pub goes_before : AuditRow → AuditRow → Bool
goes_before r s = leb_ℤ r.sequence s.sequence

unfoldable pub by_sequence : List AuditRow → List AuditRow
unfolding order_by
by_sequence rows = order_by goes_before rows

-- `ORDER BY sequence DESC LIMIT 1`
abbrev pub newest : List AuditRow → Option AuditRow
newest rows = last? (by_sequence rows)

abbrev pub stored_hash : Option AuditRow → String
stored_hash none = genesis_hash
stored_hash (some r) = r.hash

-- `COALESCE(MAX(sequence), -1) + 1`
abbrev pub next_sequence : Option AuditRow → ℤ
next_sequence none = pos 0
next_sequence (some r) = succ_int r.sequence

-- `id TEXT NOT NULL UNIQUE` and the primary key.
abbrev pub clashes : String → ℤ → AuditRow → Bool
clashes id sequence r = r.id == id || leb_ℤ r.sequence sequence && leb_ℤ sequence r.sequence

abbrev pub insert_answers : Faults → ℕ → String → Bool → AuditResult (Unit {0})
insert_answers faults i refusal conflicts =
    if conflicts then err (storage refusal) else answers faults i tt

pub answers-done :
    {A : Type 0} (faults : Faults) (i : ℕ) (a : A) → faults i ≡ none → answers faults i a ≡ ok a
answers-done faults i a h = ground (arith, h)

pub answers-failed :
    {A : Type 0} (faults : Faults) (i : ℕ) (a : A) (m : String)
    → faults i ≡ some m
    → answers faults i a ≡ err (storage m)
answers-failed faults i a m h = ground (arith, h)

-- `map_err(|e| AuditError::Storage(e.to_string()))`
abbrev pub stored : {A : Type 0} → DomainResult A → AuditResult A
stored r = map_err (λ e. storage (display e)) r

module _ ⦃p : Platform⦄ where
  open p use {DateTime, to_rfc3339, parse_rfc3339, uuid_text, parse_uuid}

  abbrev pub id_column : Option Uuid → Option String
  id_column none = none
  id_column (some u) = some (uuid_text u)

  -- The values that `append` binds.
  abbrev pub row_of : AuditRecord → AuditRow
  row_of r = record {
    sequence = r.sequence;
    id = uuid_text r.id;
    alert_id = id_column r.alert_id;
    tx_id = r.tx_id;
    event_json = r.event_json;
    created_at = to_rfc3339 r.created_at;
    prev_hash = r.prev_hash;
    hash = r.hash;
  }

  -- `alert_id.map(|s| Uuid::parse_str(&s)).transpose()`
  abbrev pub read_id : Option String → Result String (Option Uuid)
  read_id none = ok none
  read_id (some s) = parse_uuid s >>= λ u. ok (some u)

  module _ ⦃c : Codec⦄ where
    open c use {event_text, read_event}

    unfoldable pub row_to_record : AuditRow → DomainResult AuditRecord
    row_to_record r = map_err internal (parse_uuid r.id) >>= λ id.
        map_err internal (read_id r.alert_id) >>= λ alert_id.
        map_err map_json (read_event r.event_json) >>= λ event.
        map_err internal (parse_rfc3339 r.created_at) >>= λ created_at. ok (record {
          id = id;
          alert_id = alert_id;
          tx_id = r.tx_id;
          event = event;
          event_json = r.event_json;
          created_at = created_at;
          sequence = r.sequence;
          prev_hash = r.prev_hash;
          hash = r.hash;
        })

    -- `into_iter().map(..).collect()` of the rows that a query answered.
    unfoldable pub read_rows : List AuditRow → AuditResult (List AuditRecord)
    unfolding row_to_record
    read_rows rows = collect (map (λ r. stored (row_to_record r)) rows)

    -- The record that `append` builds and whose row it inserts; `refusal` is the text with which the
    -- database refuses a row that breaks a constraint.
    unfoldable pub new_record :
        NewAuditEvent → DateTime → Uuid → Faults → String → List AuditRow → AuditResult AuditRecord
    unfolding by_sequence
    new_record n now id faults refusal rows =
        answers faults 0 (stored_hash (newest rows)) >>= λ prev_hash.
        answers faults 1 (next_sequence (newest rows)) >>= λ sequence.
        map_err serialization (event_text n.event) >>= λ event_json.
        compute_hash prev_hash sequence n.alert_id n.tx_id event_json now >>= λ hash.
        insert_answers faults 2 refusal (any (clashes (uuid_text id) sequence) rows) >>= λ done.
        ok (record {
          id = id;
          alert_id = n.alert_id;
          tx_id = n.tx_id;
          event = n.event;
          event_json = event_json;
          created_at = now;
          sequence = sequence;
          prev_hash = prev_hash;
          hash = hash;
        })

    unfoldable pub append :
        NewAuditEvent
        → DateTime
        → Uuid
        → Faults
        → String
        → List AuditRow
        → AuditResult AuditRecord × List AuditRow
    unfolding new_record
    append n now id faults refusal rows = elim (new_record n now id faults refusal rows) [
      | ok r ↦ (ok r, rows ++ row_of r ∷ [])
      | err e ↦ (err e, rows)
    ]

    -- `WHERE alert_id = ?` and `WHERE tx_id = ?`
    abbrev pub in_column : Option String → String → Bool
    in_column none s = false
    in_column (some t) s = t == s

    unfoldable pub list_for_alert : Uuid → Faults → List AuditRow → AuditResult (List AuditRecord)
    unfolding by_sequence read_rows
    list_for_alert alert_id faults rows =
        answers faults 0
          (by_sequence (filter (λ r. in_column (AuditRow.alert_id r) (uuid_text alert_id)) rows))
        >>= λ rs. read_rows rs

    unfoldable pub list_for_tx : TxId → Faults → List AuditRow → AuditResult (List AuditRecord)
    unfolding by_sequence read_rows
    list_for_tx tx_id faults rows =
        answers faults 0 (by_sequence (filter (λ r. in_column (AuditRow.tx_id r) tx_id) rows))
        >>= λ rs. read_rows rs

    -- The newest `limit` rows, turned round again after they are read.
    unfoldable pub list_all : ℤ → Faults → List AuditRow → AuditResult (List AuditRecord)
    unfolding by_sequence read_rows
    list_all limit faults rows =
        answers faults 0 (limited limit (reverse (by_sequence rows))) >>= λ rs.
        read_rows rs >>= λ records. ok (reverse records)

    unfoldable pub verify_rows : Faults → List AuditRow → AuditResult ChainVerification
    unfolding by_sequence read_rows
    verify_rows faults rows = answers faults 0 (by_sequence rows) >>= λ rs.
        read_rows rs >>= λ records. ok (verify_chain records)
