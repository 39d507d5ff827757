-- ===== src/Storage/AuditRefines.antt =====
-- `append` of crates/storage/src/audit_store.rs against that of crates/audit/src/store.rs.
use stellar_risk.Common.{
  ℕ, suc, ◌+◌, String, Bool, true, false, ◌≡◌, refl, sym, ◌∙◌, ap, ◌⊎◌, inl, inr, some, List, [],
  ◌∷◌, ◌++◌, ok, err, ◌>>=◌, map, map_err, any, length, last?, arith, map-append, Option-cases,
}
use stellar_risk.Common.Int.{pos}
use stellar_risk.Platform.{Platform, Uuid}
use stellar_risk.Codec.{Codec}
use stellar_risk.Domain.AuditEvent.{AuditRecord}
use stellar_risk.Audit.Chain.{AuditResult, serialization, storage, compute_hash}
use stellar_risk.Audit.Store
use stellar_risk.Audit.Store.{NewAuditEvent, last_hash, make_record}
use stellar_risk.Audit.Growth.{IsNumbered}
use stellar_risk.Storage.Query.{Faults, insert_ordered, order_by}
use stellar_risk.Storage.AuditLog.{
  AuditRow, by_sequence, newest, stored_hash, next_sequence, clashes, row_of, goes_before,
  answers-done, answers-failed, insert_answers, new_record, append,
}

module _ ⦃p : Platform⦄ where
  open p use {DateTime, uuid_text}

  abbrev pub rows_of : List AuditRecord → List AuditRow
  rows_of log = map row_of log

  insert_first :
      (n : ℕ) (r : AuditRecord) (rs : List AuditRecord)
      → r.sequence ≡ pos n
      → IsNumbered (suc n) rs
      → insert_ordered goes_before (row_of r) (rows_of rs) ≡ row_of r ∷ rows_of rs
  unfolding insert_ordered
  insert_first n r [] e h = refl
  insert_first n r (s ∷ ss) e h = rw (e, h.0) (ground arith)

  ordered_already :
      (n : ℕ) (log : List AuditRecord)
      → IsNumbered n log
      → order_by goes_before (rows_of log) ≡ rows_of log
  unfolding order_by
  ordered_already n [] h = refl
  ordered_already n (r ∷ rs) h = rw (ordered_already (suc n) rs h.1) (insert_first n r rs h.0 h.1)

  -- The rows of a numbered log are in order.
  pub by_sequence-rows_of :
      (log : List AuditRecord) → IsNumbered 0 log → by_sequence (rows_of log) ≡ rows_of log
  unfolding by_sequence
  by_sequence-rows_of log h = ordered_already 0 log h

  last_of :
      (n : ℕ) (r : AuditRecord) (rs : List AuditRecord)
      → IsNumbered n (r ∷ rs)
      → (stored_hash (last? (rows_of (r ∷ rs))) ≡ last_hash (r ∷ rs))
        × (next_sequence (last? (rows_of (r ∷ rs))) ≡ pos (suc (n + length rs)))
  unfolding last_hash
  last_of n r [] h = (refl, rw h.0 (ap pos (omega arith)))
  last_of n r (s ∷ ss) h = let (a, b) = last_of (suc n) s ss h.1 in (a, b ∙ ap pos (omega arith))

  -- What the first two statements read of a numbered log.
  newest-rows_of :
      (log : List AuditRecord)
      → IsNumbered 0 log
      → (stored_hash (newest (rows_of log)) ≡ last_hash log)
        × (next_sequence (newest (rows_of log)) ≡ pos (length log))
  unfolding last_hash by_sequence order_by
  newest-rows_of [] h = (refl, refl)
  newest-rows_of (r ∷ rs) h =
      rw (by_sequence-rows_of (r ∷ rs) h)
        (let (a, b) = last_of 0 r rs h in (a, b ∙ ap pos (omega arith)))

  module _ ⦃c : Codec⦄ where
    open c use {event_text}

    -- Why a call of `append` may stop with a storage error `m`: a statement failed with that text, or
    -- the database refused the row, which breaks a constraint.
    abbrev pub IsStopped : Faults → String → Bool → String → Type 0
    IsStopped faults refusal conflicts m =
        (faults 0 ≡ some m)
        ⊎ (faults 1 ≡ some m)
        ⊎ (faults 2 ≡ some m)
        ⊎ ((conflicts ≡ true) × (m ≡ refusal))

    abbrev pub conflicts_with : Uuid → List AuditRecord → Bool
    conflicts_with id log = any (clashes (uuid_text id) (pos (length log))) (rows_of log)

    abbrev built :
        NewAuditEvent → DateTime → Uuid → List AuditRecord → String → String → AuditRecord
    built n now id log event_json hash = record {
      id = id;
      alert_id = n.alert_id;
      tx_id = n.tx_id;
      event = n.event;
      event_json = event_json;
      created_at = now;
      sequence = pos (length log);
      prev_hash = last_hash log;
      hash = hash;
    }

    -- The steps before the insertion decide, unless it is they that succeed and it that fails.
    finish :
        {T H R : Type 0} (text : AuditResult T) (hashing : T → AuditResult H) (make : T → H → R)
        (m : String)
        → ((text >>= λ t. hashing t >>= λ h. err (storage m) >>= λ (u : Unit {0}). ok (make t h))
            ≡ (text >>= λ t. hashing t >>= λ h. ok (make t h)))
          ⊎ ((text >>= λ t. hashing t >>= λ h. err (storage m) >>= λ (u : Unit {0}). ok (make t h))
              ≡ err (storage m))
    finish (err e) hashing make m = inl refl
    finish {H = H} (ok t) hashing make m = go (hashing t)
      where
        go :
            (r : AuditResult H)
            → ((r >>= λ h. err (storage m) >>= λ (u : Unit {0}). ok (make t h))
                ≡ (r >>= λ h. ok (make t h)))
              ⊎ ((r >>= λ h. err (storage m) >>= λ (u : Unit {0}). ok (make t h)) ≡ err (storage m))
        go (err e) = inl refl
        go (ok h) = inr refl

    -- How the insertion answers.
    insert_answers-cases :
        (faults : Faults) (refusal : String) (conflicts : Bool)
        → (insert_answers faults 2 refusal conflicts ≡ ok tt)
          ⊎ ((m : String) × (insert_answers faults 2 refusal conflicts ≡ err (storage m))
              × IsStopped faults refusal conflicts m)
    insert_answers-cases faults refusal true = inr (refusal, refl, inr (inr (inr (refl, refl))))
    insert_answers-cases faults refusal false = elim (Option-cases (faults 2)) [
      | inl e ↦ inl (answers-done faults 2 tt e)
      | inr (m, e) ↦ inr (m, answers-failed faults 2 tt m e, inr (inr (inl e)))
    ]

    new_record_refines :
        (n : NewAuditEvent) (now : DateTime) (id : Uuid) (faults : Faults) (refusal : String)
        (log : List AuditRecord)
        → IsNumbered 0 log
        → (new_record n now id faults refusal (rows_of log) ≡ make_record n now id log)
          ⊎ ((m : String) × (new_record n now id faults refusal (rows_of log) ≡ err (storage m))
              × IsStopped faults refusal (conflicts_with id log) m)
    unfolding make_record new_record
    new_record_refines n now id faults refusal log h =
        let (a, b) = newest-rows_of log h in
        rw (a, b)
          (elim (Option-cases (faults 0)) [
            | inr (m, e) ↦ inr (m, rw (answers-failed faults 0 (last_hash log) m e) refl, inl e)
            | inl e0 ↦
                rw (answers-done faults 0 (last_hash log) e0) (elim (Option-cases (faults 1)) [
                  | inr (m, e) ↦
                      inr (m, rw (answers-failed faults 1 (pos (length log)) m e) refl, inr (inl e))
                  | inl e1 ↦
                      rw (answers-done faults 1 (pos (length log)) e1)
                        (elim (insert_answers-cases faults refusal (conflicts_with id log)) [
                          | inl e ↦ inl (rw e refl)
                          | inr (m, e, s) ↦
                              rw e
                                (elim (finish (map_err (λ x. serialization x) (event_text n.event))
                                  (λ t.
                                    compute_hash (last_hash log) (pos (length log)) n.alert_id
                                      n.tx_id t now)
                                  (built n now id log) m) [ inl k ↦ inl k | inr k ↦ inr (m, k, s) ])
                        ])
                ])
          ])

    -- The rows after a call, where they stand for a log.
    abbrev pub as_rows :
        AuditResult AuditRecord × List AuditRecord → AuditResult AuditRecord × List AuditRow
    as_rows (r, log) = (r, rows_of log)

    -- On the rows of a log whose numbers are its positions, `append` of the SQLite store gives the
    -- answer and the rows of the in-memory `append` on the log, or it answers a storage error and
    -- leaves the rows as they were; the error is that of a statement that failed, or of a row that
    -- clashes with one that is there.
    pub append_refines :
        (n : NewAuditEvent) (now : DateTime) (id : Uuid) (faults : Faults) (refusal : String)
        (log : List AuditRecord)
        → IsNumbered 0 log
        → (append n now id faults refusal (rows_of log) ≡ as_rows (Store.append n now id log))
          ⊎ ((m : String) × (append n now id faults refusal (rows_of log)
                ≡ (err (storage m), rows_of log))
              × IsStopped faults refusal (conflicts_with id log) m)
    unfolding append Store.append
    append_refines n now id faults refusal log h =
        elim (new_record_refines n now id faults refusal log h) [
          | inl e ↦ inl (rw (append, e) (agree (make_record n now id log)))
          | inr (m, e, s) ↦ inr (m, rw (append, e) refl, s)
        ]
      where
        agree :
            (r : AuditResult AuditRecord)
            → (elim r [
              | ok a ↦ (ok a, rows_of log ++ row_of a ∷ [])
              | err e ↦ (err e, rows_of log)
            ])
              ≡ as_rows (elim r [ ok a ↦ (ok a, log ++ a ∷ []) | err e ↦ (err e, log) ])
        agree (ok a) = ap (λ rows. (ok a, rows)) (sym (map-append row_of log (a ∷ [])))
        agree (err e) = refl
