-- ===== src/Storage/Projection.antt =====
-- What migrations/0001_init.sql says of `alerts.status`: it is a projection of the newest decision,
-- written in one transaction with it.
use stellar_risk.Common.{
  String, false, ◌≡◌, refl, sym, ◌∙◌, List, [], ◌∷◌, ◌++◌, any, All, All-append, ok, err, map_err,
  ◌>>=◌, arith,
}
use stellar_risk.Platform.{Platform, Uuid}
use stellar_risk.Codec.{Codec}
use stellar_risk.Domain.Error.{DomainResult}
use stellar_risk.Domain.AlertStatus
use stellar_risk.Domain.AlertStatus.{«open»}
use stellar_risk.Domain.Decision
use stellar_risk.Domain.Decision.{
  Decision, dismissed, under_investigation, escalated, confirmed_suspicious,
}
use stellar_risk.Domain.Alert.{AiAdvisoryStatus, Alert, InvestigatorDecisionRecord}
use stellar_risk.Storage.Query.{map_json, Faults, answer}
use stellar_risk.Storage.Projected.{
  as_str-to_status, latest-absent, HasLatest, Refers, IsProjected, Refers-update, Refers-append,
  HasLatest-decided, HasLatest-advised,
}
use stellar_risk.Storage.AlertTable.{
  DecisionRow, AlertRow, AlertTables, has_id, with_status, with_ai_status, decision_row, breaks,
  with_decision, with_update, transaction, record_decision, new_row, insert, set_ai_status,
}

module _ ⦃p : Platform⦄ where
  open p use {uuid_text}

  module _ ⦃c : Codec⦄ where
    open c use {ai_status_text}

    -- A call that writes the tables, with the database's answers.
    pub data Write : Type 0 where
      inserting : Alert → Faults → String → Write
      advising : Uuid → AiAdvisoryStatus → Faults → Write
      deciding : InvestigatorDecisionRecord → Faults → String → Write

    -- A decision is recorded with the status that it gives.
    unfoldable pub outcome : Write → AlertTables → DomainResult (Unit {0}) × AlertTables
    unfolding insert set_ai_status record_decision
    outcome (inserting a faults refusal) t = insert a faults refusal t
    outcome (advising id s faults) t = set_ai_status id s faults t
    outcome (deciding r faults refusal) t =
        record_decision r (Decision.to_status r.decision) faults refusal t

    unfoldable pub write : Write → AlertTables → AlertTables
    unfolding outcome
    write w t = (outcome w t).1

    unfoldable pub write_all : List Write → AlertTables → AlertTables
    unfolding write
    write_all [] t = t
    write_all (w ∷ ws) t = write_all ws (write w t)

    -- Alerts are inserted as open ones.
    abbrev pub IsOpening : Write → Type 0
    IsOpening (inserting a faults refusal) = a.status ≡ «open»
    IsOpening (advising id s faults) = Unit
    IsOpening (deciding r faults refusal) = Unit

    IsProjected-decided :
        (d : DecisionRow) (t : AlertTables)
        → IsProjected t
        → breaks d t ≡ false
        → IsProjected (with_update d.alert_id (with_status d.decision) (with_decision d t))
    IsProjected-decided d t h n = record {
      projected = HasLatest-decided d t.decisions t.alerts h.projected;
      referring =
          Refers-update d.alert_id (with_status d.decision) t.alerts (t.decisions ++ d ∷ [])
            (λ r. refl)
            (All-append (Refers t.alerts) t.decisions (d ∷ []) h.referring (ground (arith, n), tt));
    }

    -- A transaction that is committed broke no constraint.
    pub transaction-committed :
        (r : InvestigatorDecisionRecord) (status : AlertStatus.AlertStatus) (faults : Faults)
        (refusal : String) (t u : AlertTables)
        → transaction r status faults refusal t ≡ ok u
        → (breaks (decision_row r) t ≡ false)
          × (u
              ≡ with_update
                  (uuid_text r.alert_id)
                  (with_status (AlertStatus.as_str status))
                  (with_decision (decision_row r) t))
    unfolding transaction
    transaction-committed r status faults refusal t u q = ground (arith, q)

    IsProjected-deciding :
        (r : InvestigatorDecisionRecord) (faults : Faults) (refusal : String) (t : AlertTables)
        → IsProjected t
        → IsProjected (record_decision r (Decision.to_status r.decision) faults refusal t).1
    unfolding record_decision transaction
    IsProjected-deciding r faults refusal t h =
        go (transaction r (Decision.to_status r.decision) faults refusal t) refl
      where
        go :
            (out : DomainResult AlertTables)
            → transaction r (Decision.to_status r.decision) faults refusal t ≡ out
            → IsProjected
                (elim out as (λ x. DomainResult (Unit {0}) × AlertTables) [
                  | ok u ↦ (ok tt, u)
                  | err e ↦ (err e, t)
                ]).1
        go (err e) q = h
        go (ok u) q =
            let (n, same) =
              transaction-committed r (Decision.to_status r.decision) faults refusal t u q in
            rw (same, as_str-to_status r.decision) (IsProjected-decided (decision_row r) t h n)

    new_row-fresh :
        (a : Alert) (faults : Faults) (refusal : String) (t : AlertTables) (r : AlertRow)
        → new_row a faults refusal t ≡ ok r
        → (any (has_id r.id) t.alerts ≡ false) × (r.status ≡ AlertStatus.as_str a.status)
    unfolding new_row
    new_row-fresh a faults refusal t r q = ground (arith, q)

    IsProjected-inserting :
        (a : Alert) (faults : Faults) (refusal : String) (t : AlertTables)
        → a.status ≡ «open»
        → IsProjected t
        → IsProjected (insert a faults refusal t).1
    unfolding insert AlertStatus.as_str
    IsProjected-inserting a faults refusal t o h = go (new_row a faults refusal t) refl
      where
        go :
            (out : DomainResult AlertRow)
            → new_row a faults refusal t ≡ out
            → IsProjected
                (elim out as (λ x. DomainResult (Unit {0}) × AlertTables) [
                  | ok r ↦ (ok tt, record t { alerts = t.alerts ++ r ∷ [] })
                  | err e ↦ (err e, t)
                ]).1
        go (err e) q = h
        go (ok r) q =
            let (fresh, status) = new_row-fresh a faults refusal t r q in
            record {
              projected = All-append (HasLatest t.decisions) t.alerts (r ∷ []) h.projected (
                status
                    ∙ rw o refl
                    ∙ sym (latest-absent "open" r.id t.alerts t.decisions h.referring fresh),
                tt,
              );
              referring = Refers-append t.alerts r t.decisions h.referring;
            }

    IsProjected-advising :
        (id : Uuid) (s : AiAdvisoryStatus) (faults : Faults) (t : AlertTables)
        → IsProjected t
        → IsProjected (set_ai_status id s faults t).1
    unfolding set_ai_status
    IsProjected-advising id s faults t h =
        go (map_err map_json (ai_status_text s) >>= λ x. answer faults 0 x)
      where
        go :
            (out : DomainResult String)
            → IsProjected
                (elim out as (λ x. DomainResult (Unit {0}) × AlertTables) [
                  | ok x ↦ (ok tt, with_update (uuid_text id) (with_ai_status x) t)
                  | err e ↦ (err e, t)
                ]).1
        go (err e) = h
        go (ok x) = record {
          projected = HasLatest-advised (uuid_text id) x t.decisions t.alerts h.projected;
          referring =
              Refers-update (uuid_text id) (with_ai_status x) t.alerts t.decisions (λ r. refl)
                h.referring;
        }

    IsProjected-write :
        (w : Write) (t : AlertTables) → IsOpening w → IsProjected t → IsProjected (write w t)
    unfolding write outcome
    IsProjected-write (inserting a faults refusal) t o h =
        IsProjected-inserting a faults refusal t o h
    IsProjected-write (advising id s faults) t o h = IsProjected-advising id s faults t h
    IsProjected-write (deciding r faults refusal) t o h = IsProjected-deciding r faults refusal t h

    -- Whatever alerts were inserted, as open ones, and whatever advisories and decisions were recorded,
    -- with whatever failures of the database, every alert has the status of its newest decision, or is
    -- open where it has none, and every decision is on an alert of the table. This holds after any
    -- such calls where it held before, so from empty tables.
    pub write_all-IsProjected :
        (ws : List Write) (t : AlertTables)
        → All IsOpening ws
        → IsProjected t
        → IsProjected (write_all ws t)
    unfolding write_all
    write_all-IsProjected [] t o h = h
    write_all-IsProjected (w ∷ ws) t o h =
        write_all-IsProjected ws (write w t) o.1 (IsProjected-write w t o.0 h)
