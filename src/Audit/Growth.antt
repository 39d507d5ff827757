-- ===== src/Audit/Growth.antt =====
-- `append` of crates/audit/src/store.rs keeps every earlier record and a log that `verify_chain`
-- accepts; the sequence numbers are the positions.
use stellar_risk.Common.{
  ℕ, suc, ◌+◌, String, ◌≡◌, refl, ◌∙◌, ap, List, [], ◌∷◌, ◌++◌, arith, length, ok, err, map_err,
}
use stellar_risk.Common.Int.{pos}
use stellar_risk.Platform.{Platform, Uuid}
use stellar_risk.Codec.{Codec}
use stellar_risk.Domain.AuditEvent.{AuditRecord}
use stellar_risk.Audit.Chain.{
  AuditResult, serialization, genesis_hash, recompute, verified, verify_chain,
}
use stellar_risk.Audit.Store.{NewAuditEvent, last_hash, make_record, append}
use stellar_risk.Audit.Linked.{IsLinked, verify_chain_iff}

module _ ⦃p : Platform⦄ where
  open p use {DateTime}

  -- The hash that a next record must name.
  abbrev pub final_hash : String → List AuditRecord → String
  final_hash prev [] = prev
  final_hash prev (r ∷ rs) = final_hash r.hash rs

  final_hash-last :
      (r : AuditRecord) (rs : List AuditRecord) → last_hash (r ∷ rs) ≡ final_hash r.hash rs
  unfolding last_hash
  final_hash-last r [] = refl
  final_hash-last r (s ∷ ss) = final_hash-last s ss

  pub last_hash-final : (rs : List AuditRecord) → last_hash rs ≡ final_hash genesis_hash rs
  unfolding last_hash
  last_hash-final [] = refl
  last_hash-final (r ∷ rs) = final_hash-last r rs

  IsLinked-append :
      (prev : String) (rs : List AuditRecord) (r : AuditRecord)
      → IsLinked prev rs
      → r.prev_hash ≡ final_hash prev rs
      → recompute r ≡ ok r.hash
      → IsLinked prev (rs ++ r ∷ [])
  IsLinked-append prev [] r h e c = (e, c, tt)
  IsLinked-append prev (x ∷ xs) r h e c = (h.0, h.1, IsLinked-append x.hash xs r h.2 e c)

  -- The record at position `i` has sequence number `n + i`.
  abbrev pub IsNumbered : ℕ → List AuditRecord → Type 0
  IsNumbered n [] = Unit
  IsNumbered n (r ∷ rs) = (r.sequence ≡ pos n) × IsNumbered (suc n) rs

  IsNumbered-append :
      (n : ℕ) (rs : List AuditRecord) (r : AuditRecord)
      → IsNumbered n rs
      → r.sequence ≡ pos (n + length rs)
      → IsNumbered n (rs ++ r ∷ [])
  IsNumbered-append n [] r h e = (e ∙ ap pos (omega arith), tt)
  IsNumbered-append n (x ∷ xs) r h e =
      (h.0, IsNumbered-append (suc n) xs r h.1 (e ∙ ap pos (omega arith)))

  module _ ⦃c : Codec⦄ where
    open c use {event_text}

    -- What a record that `append` builds holds.
    pub record IsMade (n : NewAuditEvent) (now : DateTime) (id : Uuid) (rs : List AuditRecord)
        (r : AuditRecord) : Type 0 where
      pub same_id : r.id ≡ id
      pub same_alert : r.alert_id ≡ n.alert_id
      pub same_tx : r.tx_id ≡ n.tx_id
      pub same_event : r.event ≡ n.event
      pub written : map_err serialization (event_text n.event) ≡ ok r.event_json
      pub same_time : r.created_at ≡ now
      pub numbered : r.sequence ≡ pos (length rs)
      pub chained : r.prev_hash ≡ last_hash rs
      pub hashed : recompute r ≡ ok r.hash

    pub make_record-IsMade :
        (n : NewAuditEvent) (now : DateTime) (id : Uuid) (rs : List AuditRecord) (r : AuditRecord)
        → make_record n now id rs ≡ ok r
        → IsMade n now id rs r
    unfolding make_record recompute
    make_record-IsMade n now id rs r h = ground arith

    -- The log is linked and numbered: what `append` keeps.
    pub record IsChained (rs : List AuditRecord) : Type 0 where
      pub linked : IsLinked genesis_hash rs
      pub numbered : IsNumbered 0 rs

    IsChained-add :
        (n : NewAuditEvent) (now : DateTime) (id : Uuid) (rs : List AuditRecord) (r : AuditRecord)
        → IsChained rs
        → IsMade n now id rs r
        → IsChained (rs ++ r ∷ [])
    IsChained-add n now id rs r h m = record {
      linked = IsLinked-append genesis_hash rs r h.linked (m.chained ∙ last_hash-final rs) m.hashed;
      numbered = IsNumbered-append 0 rs r h.numbered (m.numbered ∙ ap pos (omega arith));
    }

    -- How a call of `append` ended: the new record stands behind the old ones, or nothing changed.
    abbrev pub Appended :
        NewAuditEvent
        → DateTime
        → Uuid
        → List AuditRecord
        → AuditResult AuditRecord × List AuditRecord
        → Type 0
    Appended n now id rs (ok r, rs') = (rs' ≡ rs ++ r ∷ []) × IsMade n now id rs r
    Appended n now id rs (err e, rs') = rs' ≡ rs

    -- `append` adds one record, which carries the event, the references, the next number and the hash
    -- of the last record, or it answers an error and leaves the log as it was.
    pub append-Appended :
        (n : NewAuditEvent) (now : DateTime) (id : Uuid) (rs : List AuditRecord)
        → Appended n now id rs (append n now id rs)
    unfolding append
    append-Appended n now id rs = go (make_record n now id rs) refl
      where
        go :
            (m : AuditResult AuditRecord)
            → make_record n now id rs ≡ m
            → Appended n now id rs (elim (make_record n now id rs) [
              | ok r ↦ (ok r, rs ++ r ∷ [])
              | err e ↦ (err e, rs)
            ])
        go (ok r) e = rw e (refl, make_record-IsMade n now id rs r e)
        go (err x) e = rw e refl

    pub append-IsChained :
        (n : NewAuditEvent) (now : DateTime) (id : Uuid) (rs : List AuditRecord)
        → IsChained rs
        → IsChained (append n now id rs).1
    append-IsChained n now id rs h = go (append n now id rs) (append-Appended n now id rs)
      where
        go :
            (out : AuditResult AuditRecord × List AuditRecord)
            → Appended n now id rs out
            → IsChained out.1
        go (ok r, rs') (e, m) = rw e (IsChained-add n now id rs r h m)
        go (err x, rs') e = rw e h

    -- A history of calls, each with the clock's and the generator's answer.
    unfoldable pub append_all :
        List (NewAuditEvent × DateTime × Uuid) → List AuditRecord → List AuditRecord
    append_all [] rs = rs
    append_all ((n, now, id) ∷ es) rs = append_all es (append n now id rs).1

    append_all-IsChained :
        (es : List (NewAuditEvent × DateTime × Uuid)) (rs : List AuditRecord)
        → IsChained rs
        → IsChained (append_all es rs)
    unfolding append_all
    append_all-IsChained [] rs h = h
    append_all-IsChained ((n, now, id) ∷ es) rs h =
        append_all-IsChained es (append n now id rs).1 (append-IsChained n now id rs h)

    -- Whatever calls of `append` were made on an empty log, failing ones among them, `verify_chain`
    -- accepts the log with every record counted, and each record's sequence number is its position.
    pub append_all_verifies :
        (es : List (NewAuditEvent × DateTime × Uuid))
        → (verify_chain (append_all es []) ≡ verified (length (append_all es [])))
          × IsNumbered 0 (append_all es [])
    append_all_verifies es =
        let h : IsChained (append_all es []) =
          append_all-IsChained es [] (record { linked = tt; numbered = tt }) in
        let iff = verify_chain_iff (append_all es []) in (iff.1.0 (iff.0.1 h.linked), h.numbered)
