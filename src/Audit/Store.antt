-- ===== src/Audit/Store.antt =====
-- crates/audit/src/store.rs: the in-memory store. The state is the vector behind its mutex, which
-- every method holds for its whole body, so that each call is one step.
use stellar_risk.Common.{
  ◌-◌, String, Bool, false, Option, none, some, List, [], ◌∷◌, ◌++◌, ◌==◌, nat_eq, length, drop,
  last?, filter, ok, err, ◌>>=◌, map_err,
}
use stellar_risk.Common.Int.{ℤ, pos, clamp_nonneg}
use stellar_risk.Platform.{Platform, Uuid}
use stellar_risk.Codec.{Codec}
use stellar_risk.Domain.Transaction.{TxId}
use stellar_risk.Domain.AuditEvent.{AuditEventKind, AuditRecord}
use stellar_risk.Audit.Chain.{
  serialization, AuditResult, genesis_hash, ChainVerification, compute_hash, verify_chain,
}

module _ ⦃p : Platform⦄ where
  open p use {DateTime}

  pub record NewAuditEvent : Type 0 where
    pub alert_id : Option Uuid
    pub tx_id : Option TxId
    pub event : AuditEventKind

  -- `NewAuditEvent::new`
  abbrev pub new_event : AuditEventKind → NewAuditEvent
  new_event e = record { alert_id = none; tx_id = none; event = e }

  abbrev pub for_alert : Uuid → NewAuditEvent → NewAuditEvent
  for_alert id n = record n { alert_id = some id }

  abbrev pub for_tx : TxId → NewAuditEvent → NewAuditEvent
  for_tx id n = record n { tx_id = some id }

  abbrev hash_or_genesis : Option AuditRecord → String
  hash_or_genesis none = genesis_hash
  hash_or_genesis (some r) = r.hash

  unfoldable pub last_hash : List AuditRecord → String
  last_hash records = hash_or_genesis (last? records)

  abbrev pub concerns : Uuid → AuditRecord → Bool
  concerns id r = elim r.alert_id [ none ↦ false | some a ↦ nat_eq a id ]

  abbrev pub concerns_tx : TxId → AuditRecord → Bool
  concerns_tx id r = elim r.tx_id [ none ↦ false | some t ↦ t == id ]

  unfoldable pub list_for_alert : Uuid → List AuditRecord → List AuditRecord
  list_for_alert id records = filter (concerns id) records

  unfoldable pub list_for_tx : TxId → List AuditRecord → List AuditRecord
  list_for_tx id records = filter (concerns_tx id) records

  -- The last `limit` records, in order.
  unfoldable pub list_all : ℤ → List AuditRecord → List AuditRecord
  list_all limit records = drop (length records - clamp_nonneg limit) records

  unfoldable pub verify_store : List AuditRecord → AuditResult ChainVerification
  verify_store records = ok (verify_chain records)

  module _ ⦃c : Codec⦄ where
    open c use {event_text}

    -- The record that `append` builds; `now` and `id` are the clock's and the generator's answers.
    unfoldable pub make_record :
        NewAuditEvent → DateTime → Uuid → List AuditRecord → AuditResult AuditRecord
    make_record n now id records =
        let sequence = pos (length records) in
        let prev_hash = last_hash records in
        map_err serialization (event_text n.event) >>= λ event_json.
        compute_hash prev_hash sequence n.alert_id n.tx_id event_json now >>= λ hash. ok (record {
          id = id;
          alert_id = n.alert_id;
          tx_id = n.tx_id;
          event = n.event;
          event_json = event_json;
          created_at = now;
          sequence = sequence;
          prev_hash = prev_hash;
          hash = hash;
        })

    -- The push happens only after both fallible steps.
    unfoldable pub append :
        NewAuditEvent
        → DateTime
        → Uuid
        → List AuditRecord
        → AuditResult AuditRecord × List AuditRecord
    unfolding make_record
    append n now id records = elim (make_record n now id records) [
      | ok r ↦ (ok r, records ++ r ∷ [])
      | err e ↦ (err e, records)
    ]
