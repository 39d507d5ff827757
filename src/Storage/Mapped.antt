-- ===== src/Storage/Mapped.antt =====
-- The alert tables of crates/storage/src/alert_store.rs as a map from identifiers to alerts.
use stellar_risk.Common.{
  true, String, false, ◌≡◌, ◌⊎◌, refl, ap, inl, inr, Option, none, some, [], ◌∷◌, ◌++◌, any, ok,
  err, map_err, ◌>>=◌, arith,
}
use stellar_risk.Platform.{Platform, Uuid}
use stellar_risk.Codec.{Codec}
use stellar_risk.Domain.Error.{DomainError, DomainResult}
use stellar_risk.Domain.AlertStatus
use stellar_risk.Domain.AlertStatus.{AlertStatus}
use stellar_risk.Domain.Decision
use stellar_risk.Domain.Alert.{AiAdvisoryStatus, Alert, InvestigatorDecisionRecord}
use stellar_risk.Alerts.Memory.{map_option}
use stellar_risk.Storage.Query.{map_json, Faults, answer, executed, inserted}
use stellar_risk.Storage.AlertTable.{
  AlertRow, AlertTables, has_id, with_status, with_ai_status, with_update, with_decision,
  decision_row, breaks, alert_row, transaction, new_row, insert, set_ai_status, record_decision,
}
use stellar_risk.Storage.Readable.{
  HaveTexts, IsReadBack, IsRead-alert_row, IsRead-with_status, IsRead-with_ai_status,
}
use stellar_risk.Storage.Views.{set_at, Shows, Shows-update, Shows-append}
use stellar_risk.Storage.Projection.{
  Write, inserting, advising, deciding, outcome, transaction-committed,
}

module _ ⦃p : Platform⦄ where
  open p use {f64_ge, uuid_text}

  module _ ⦃c : Codec⦄ where
    open c use {ai_status_text, read_ai_status}

    abbrev pub advised : AiAdvisoryStatus → Alert → Alert
    advised s a = record a { ai_status = s }

    abbrev pub moved : AlertStatus → Alert → Alert
    moved s a = record a { status = s }

    -- The call on a map.
    abbrev pub applied : Write → (Uuid → Option Alert) → Uuid → Option Alert
    applied (inserting a faults refusal) m = set_at a.id (λ old. some a) m
    applied (advising id s faults) m = set_at id (map_option (advised s)) m
    applied (deciding r faults refusal) m =
        set_at r.alert_id (map_option (moved (Decision.to_status r.decision))) m

    -- What is written for the values of the call is read back as these values.
    abbrev pub IsStorable : Write → Type 0
    IsStorable (inserting a faults refusal) = IsReadBack a
    IsStorable (advising id x faults) =
        (s : String) → ai_status_text x ≡ ok s → read_ai_status s ≡ ok x
    IsStorable (deciding r faults refusal) = Unit

    -- No statement fails, every value is written as a text and no constraint is broken.
    abbrev pub IsUnhindered : Write → AlertTables → Type 0
    IsUnhindered (inserting a faults refusal) t =
        (faults 0 ≡ none)
        × ((r : AlertRow) × (alert_row a ≡ ok r))
        × (any (has_id (uuid_text a.id)) t.alerts ≡ false)
        × (f64_ge a.score a.score ≡ true)
    IsUnhindered (advising id s faults) t =
        (faults 0 ≡ none) × ((x : String) × (ai_status_text s ≡ ok x))
    IsUnhindered (deciding r faults refusal) t =
        (faults 0 ≡ none)
        × (faults 1 ≡ none)
        × (faults 2 ≡ none)
        × (faults 3 ≡ none)
        × (breaks (decision_row r) t ≡ false)

    -- The call is that of the map, or it is refused.
    abbrev pub Mapped : Write → AlertTables → (Uuid → Option Alert) → Type 0
    Mapped w t m =
        (((outcome w t).0 ≡ ok tt) × Shows (outcome w t).1 (applied w m))
        ⊎ ((e : DomainError) × (outcome w t ≡ (err e, t)) × ¬ IsUnhindered w t)

    alert_row-id : (a : Alert) (r : AlertRow) → alert_row a ≡ ok r → r.id ≡ uuid_text a.id
    unfolding alert_row
    alert_row-id a r q = ground (arith, q)

    alert_row-score : (a : Alert) (r : AlertRow) → alert_row a ≡ ok r → r.score ≡ a.score
    unfolding alert_row
    alert_row-score a r q = ground (arith, q)

    new_row-done :
        (a : Alert) (faults : Faults) (refusal : String) (t : AlertTables) (r : AlertRow)
        → new_row a faults refusal t ≡ ok r
        → (alert_row a ≡ ok r) × (any (has_id r.id) t.alerts ≡ false)
    unfolding new_row
    new_row-done a faults refusal t r q = ground (arith, q)

    new_row-unhindered :
        (a : Alert) (faults : Faults) (refusal : String) (t : AlertTables)
        → IsUnhindered (inserting a faults refusal) t
        → (r : AlertRow) × (new_row a faults refusal t ≡ ok r)
    unfolding new_row
    new_row-unhindered a faults refusal t (f, (r, e), fresh, number) = (
      r,
      rw (new_row, e, inserted, alert_row-id a r e, fresh, alert_row-score a r e, number, answer, f)
          refl,
    )

    transaction-unhindered :
        (r : InvestigatorDecisionRecord) (faults : Faults) (refusal : String) (t : AlertTables)
        → IsUnhindered (deciding r faults refusal) t
        → (u : AlertTables) × (transaction r (Decision.to_status r.decision) faults refusal t
            ≡ ok u)
    unfolding transaction
    transaction-unhindered r faults refusal t (f0, f1, f2, f3, b) = (
      with_update (uuid_text r.alert_id)
          (with_status (AlertStatus.as_str (Decision.to_status r.decision)))
          (with_decision (decision_row r) t),
      rw (transaction, executed, inserted, answer, f0, b, f1, f2, f3) refl,
    )

    Mapped-done :
        (w : Write) (t u : AlertTables) (m : Uuid → Option Alert)
        → outcome w t ≡ (ok tt, u)
        → Shows u (applied w m)
        → Mapped w t m
    Mapped-done w t u m e s = inl (ap (λ o. o.0) e, rw e s)

    Mapped-inserting :
        (a : Alert) (faults : Faults) (refusal : String) (t : AlertTables) (m : Uuid → Option Alert)
        → HaveTexts
        → IsReadBack a
        → Shows t m
        → Mapped (inserting a faults refusal) t m
    unfolding outcome insert
    Mapped-inserting a faults refusal t m laws back s = go (new_row a faults refusal t) refl
      where
        go :
            (out : DomainResult AlertRow)
            → new_row a faults refusal t ≡ out
            → Mapped (inserting a faults refusal) t m
        go (ok r) q =
            let (wrote, fresh) = new_row-done a faults refusal t r q in
            Mapped-done (inserting a faults refusal) t (record t { alerts = t.alerts ++ r ∷ [] }) m
              (rw (outcome, insert, q) refl)
              (Shows-append a r t (record t { alerts = t.alerts ++ r ∷ [] }) m laws
                (alert_row-id a r wrote) (IsRead-alert_row a r back wrote) fresh refl s)
        go (err e) q = inr (
          e,
          rw (outcome, insert, q) refl,
          λ h. let (r, done) = new_row-unhindered a faults refusal t h in absurd (cc (q, done)),
        )

    Mapped-advising :
        (id : Uuid) (x : AiAdvisoryStatus) (faults : Faults) (t : AlertTables)
        (m : Uuid → Option Alert)
        → HaveTexts
        → IsStorable (advising id x faults)
        → Shows t m
        → Mapped (advising id x faults) t m
    unfolding outcome set_ai_status
    Mapped-advising id x faults t m laws back s =
        go (map_err map_json (ai_status_text x) >>= λ y. answer faults 0 y) refl
      where
        go :
            (out : DomainResult String)
            → (map_err map_json (ai_status_text x) >>= λ y. answer faults 0 y) ≡ out
            → Mapped (advising id x faults) t m
        go (ok y) q =
            let u = with_update (uuid_text id) (with_ai_status y) t in
            let wrote : ai_status_text x ≡ ok y = ground (arith, q) in
            Mapped-done (advising id x faults) t u m (rw (outcome, set_ai_status, q) refl) (
              Shows-update id (with_ai_status y) (advised x) t u m laws (λ r. refl)
                (λ r a h. IsRead-with_ai_status r a x y (back y wrote) h) refl s)
        go (err e) q =
            inr (
              e,
              rw (outcome, set_ai_status, q) refl,
              λ (f, (y, wrote)). ground (arith, q, f, wrote),
            )

    Mapped-deciding :
        (r : InvestigatorDecisionRecord) (faults : Faults) (refusal : String) (t : AlertTables)
        (m : Uuid → Option Alert)
        → HaveTexts
        → Shows t m
        → Mapped (deciding r faults refusal) t m
    unfolding outcome record_decision
    Mapped-deciding r faults refusal t m laws s =
        go (transaction r (Decision.to_status r.decision) faults refusal t) refl
      where
        go :
            (out : DomainResult AlertTables)
            → transaction r (Decision.to_status r.decision) faults refusal t ≡ out
            → Mapped (deciding r faults refusal) t m
        go (ok u) q =
            let status = Decision.to_status r.decision in
            let (n, same) = transaction-committed r status faults refusal t u q in
            Mapped-done (deciding r faults refusal) t u m (rw (outcome, record_decision, q) refl) (
              Shows-update r.alert_id (with_status (AlertStatus.as_str status)) (moved status) t u m
                laws (λ d. refl) (λ d a h. IsRead-with_status d a status h)
                (ap (λ v. AlertTables.alerts v) same) s)
        go (err e) q = inr (
          e,
          rw (outcome, record_decision, q) refl,
          λ h. let (u, done) = transaction-unhindered r faults refusal t h in absurd (cc (q, done)),
        )

    -- Where `get` answers, for every identifier, what a map has, a call that inserts an alert, stores
    -- an advisory status or records a decision with its status succeeds, and afterwards `get` answers
    -- what the map has with that alert put in, or that status of the advisory or of the alert changed
    -- where the identifier has one and nothing else; or it answers an error and leaves the tables,
    -- and then a statement failed, a value could not be written or a constraint was broken. The
    -- texts of identifiers are distinct, and what is written for the values of the call is read back.
    pub outcome_refines :
        (w : Write) (t : AlertTables) (m : Uuid → Option Alert)
        → HaveTexts
        → IsStorable w
        → Shows t m
        → Mapped w t m
    outcome_refines (inserting a faults refusal) t m laws back s =
        Mapped-inserting a faults refusal t m laws back s
    outcome_refines (advising id x faults) t m laws back s =
        Mapped-advising id x faults t m laws back s
    outcome_refines (deciding r faults refusal) t m laws back s =
        Mapped-deciding r faults refusal t m laws s
