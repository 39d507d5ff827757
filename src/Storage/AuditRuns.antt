-- ===== src/Storage/AuditRuns.antt =====
-- Any calls of `append` of crates/storage/src/audit_store.rs on an empty table, then `verify_chain`.
use stellar_risk.Common.{
  String, ◌≡◌, refl, ◌∙◌, ap, inl, inr, Option, none, List, [], ◌∷◌, ok, err, length, length-map,
  arith, All, All-append, map_err_ok,
}
use stellar_risk.Platform.{Platform, Uuid}
use stellar_risk.Codec.{Codec}
use stellar_risk.Domain.AuditEvent.{AuditEventKind, AuditRecord}
use stellar_risk.Audit.Chain.{serialization, AuditResult, genesis_hash, recompute, verified}
use stellar_risk.Audit.Store
use stellar_risk.Audit.Store.{NewAuditEvent}
use stellar_risk.Audit.Linked.{IsLinked, verify_chain_iff}
use stellar_risk.Audit.Growth.{IsMade, Appended, append-Appended, IsChained, append-IsChained}
use stellar_risk.Storage.Query.{Faults}
use stellar_risk.Storage.AuditLog.{
  AuditRow, id_column, read_id, row_of, row_to_record, read_rows, answers-done, append, verify_rows,
}
use stellar_risk.Storage.AuditRefines.{rows_of, by_sequence-rows_of, append_refines}

module _ ⦃p : Platform⦄ where
  open p use {DateTime, to_rfc3339, parse_rfc3339, uuid_text, parse_uuid}

  -- The identifiers and the time are read back from their texts.
  abbrev IsKeyed : Uuid → Option Uuid → DateTime → Type 0
  IsKeyed id alert_id now =
      (parse_uuid (uuid_text id) ≡ ok id)
      × (read_id (id_column alert_id) ≡ ok alert_id)
      × (parse_rfc3339 (to_rfc3339 now) ≡ ok now)

  -- The arguments of a call of `append`, with the clock's, the generator's and the database's answers.
  pub record Call : Type 0 where
    pub new : NewAuditEvent
    pub now : DateTime
    pub id : Uuid
    pub faults : Faults
    pub refusal : String

  abbrev pub IsKeyedCall : Call → Type 0
  IsKeyedCall k = IsKeyed k.id k.new.alert_id k.now

  module _ ⦃c : Codec⦄ where
    open c use {event_text, read_event}

    -- The identifiers and the time of the call are read back, and what is written for its event is read
    -- as some event.
    abbrev pub IsReadCall : Call → Type 0
    IsReadCall k =
        IsKeyedCall k
        × ((s : String)
            → event_text k.new.event ≡ ok s
            → (f : AuditEventKind) × (read_event s ≡ ok f))

    unfoldable pub append_rows : List Call → List AuditRow → List AuditRow
    append_rows [] rows = rows
    append_rows (k ∷ ks) rows = append_rows ks (append k.new k.now k.id k.faults k.refusal rows).1

    -- The row of the record is read, perhaps with another event.
    abbrev IsReadable : AuditRecord → Type 0
    IsReadable r =
        IsKeyed r.id r.alert_id r.created_at
        × ((e : AuditEventKind) × (read_event r.event_json ≡ ok e))

    row_to_record-row_of :
        (r : AuditRecord) (h : IsReadable r)
        → row_to_record (row_of r) ≡ ok (record r { event = h.1.0 })
    unfolding row_to_record
    row_to_record-row_of r ((a, b, t), (e, q)) = rw (a, b, q, t) refl

    -- The rows of a linked log are read as a linked log of the same length.
    read_rows-rows_of :
        (prev : String) (log : List AuditRecord)
        → IsLinked prev log
        → All IsReadable log
        → (back : List AuditRecord) × (read_rows (rows_of log) ≡ ok back)
          × IsLinked prev back
          × (length back ≡ length log)
    unfolding read_rows recompute
    read_rows-rows_of prev [] l h = ([], refl, tt, refl)
    read_rows-rows_of prev (r ∷ rs) l h =
        let (back, e, k, n) = read_rows-rows_of r.hash rs l.2 h.1 in
        (
          record r { event = h.0.1.0 } ∷ back,
          rw (row_to_record-row_of r h.0, e) refl,
          (l.0, l.1, k),
          omega (arith, n),
        )

    -- What holds of the table between calls.
    record IsLog (rows : List AuditRow) : Type 0 where
      log : List AuditRecord
      same : rows ≡ rows_of log
      chained : IsChained log
      readable : All IsReadable log

    IsReadable-made :
        (k : Call) (log : List AuditRecord) (r : AuditRecord)
        → IsReadCall k
        → IsMade k.new k.now k.id log r
        → IsReadable r
    IsReadable-made k log r h m = (
      rw (m.same_id, m.same_alert, m.same_time) h.0,
      h.1 r.event_json
          (map_err_ok (λ x. serialization x) (event_text k.new.event) r.event_json m.written),
    )

    IsReadable-after :
        (k : Call) (log : List AuditRecord)
        → IsReadCall k
        → All IsReadable log
        → (out : AuditResult AuditRecord × List AuditRecord) → Appended k.new k.now k.id log out
        → All IsReadable out.1
    IsReadable-after k log h l (ok r, log') (e, m) =
        rw e (All-append IsReadable log (r ∷ []) l (IsReadable-made k log r h m, tt))
    IsReadable-after k log h l (err x, log') e = rw e l

    IsLog-append :
        (k : Call) (rows : List AuditRow)
        → IsReadCall k
        → IsLog rows
        → IsLog (append k.new k.now k.id k.faults k.refusal rows).1
    IsLog-append k rows h l =
        rw l.same
          (elim (append_refines k.new k.now k.id k.faults k.refusal l.log l.chained.numbered) [
            | inl e ↦ rw e (record {
              log = (Store.append k.new k.now k.id l.log).1;
              same = refl;
              chained = append-IsChained k.new k.now k.id l.log l.chained;
              readable =
                  IsReadable-after k l.log h l.readable (Store.append k.new k.now k.id l.log)
                    (append-Appended k.new k.now k.id l.log);
            })
            | inr (m, e, s) ↦
                rw e
                  (record { log = l.log; same = refl; chained = l.chained; readable = l.readable })
          ])

    IsLog-append_rows :
        (ks : List Call) (rows : List AuditRow)
        → All IsReadCall ks
        → IsLog rows
        → IsLog (append_rows ks rows)
    unfolding append_rows
    IsLog-append_rows [] rows h l = l
    IsLog-append_rows (k ∷ ks) rows h l =
        IsLog-append_rows ks (append k.new k.now k.id k.faults k.refusal rows).1 h.1
          (IsLog-append k rows h.0 l)

    verify_rows-IsLog :
        (faults : Faults) (rows : List AuditRow)
        → faults 0 ≡ none
        → IsLog rows
        → verify_rows faults rows ≡ ok (verified (length rows))
    unfolding verify_rows
    verify_rows-IsLog faults rows f l =
        let (back, e, k, n) = read_rows-rows_of genesis_hash l.log l.chained.linked l.readable in
        rw
          (
            l.same,
            by_sequence-rows_of l.log l.chained.numbered,
            answers-done faults 0 (rows_of l.log) f,
            e,
            length-map row_of l.log,
          )
          (let iff = verify_chain_iff back in ap (λ v. ok v) (iff.1.0 (iff.0.1 k) ∙ ap verified n))

    -- Whatever calls of `append` were made on an empty table, failing ones among them, `verify_chain`
    -- over the table accepts it with every row counted. This holds where the database answers the
    -- query, the identifiers and the times of the calls are read back from their texts, and what is
    -- written for the event of a call is read as some event; a float that is not finite, which JSON
    -- has no text for, is not.
    pub append_rows_verifies :
        (ks : List Call) (faults : Faults)
        → All IsReadCall ks
        → faults 0 ≡ none
        → verify_rows faults (append_rows ks []) ≡ ok (verified (length (append_rows ks [])))
    append_rows_verifies ks faults h f = verify_rows-IsLog faults (append_rows ks []) f (
        IsLog-append_rows ks [] h (record {
          log = [];
          same = refl;
          chained = record { linked = tt; numbered = tt };
          readable = tt;
        }))
