-- ===== src/Storage/Projected.antt =====
-- The newest decision on an alert among the rows of crates/storage/src/alert_store.rs, and how the
-- statements of its methods change it.
use stellar_risk.Common.{
  String, true, false, ◌≡◌, refl, ◌∙◌, inl, inr, List, [], ◌∷◌, ◌++◌, ◌==◌, any, any-append, All,
  if◌then◌else◌, arith, eq_iff, Bool-cases,
}
use stellar_risk.Platform.{Platform}
use stellar_risk.Domain.AlertStatus
use stellar_risk.Domain.AlertStatus.{«open»}
use stellar_risk.Domain.Decision
use stellar_risk.Domain.Decision.{
  Decision, dismissed, under_investigation, escalated, confirmed_suspicious,
}
use stellar_risk.Storage.AlertTable.{
  DecisionRow, AlertRow, AlertTables, has_id, update, with_status, with_ai_status,
}

-- The status that a decision gives is stored as the text of the decision.
pub as_str-to_status :
    (d : Decision) → AlertStatus.as_str (Decision.to_status d) ≡ Decision.as_str d
unfolding AlertStatus.as_str Decision.to_status Decision.as_str
as_str-to_status dismissed = refl
as_str-to_status under_investigation = refl
as_str-to_status escalated = refl
as_str-to_status confirmed_suspicious = refl

-- The newest decision on an alert, and `s` where there is none.
abbrev pub latest : String → String → List DecisionRow → String
latest s id [] = s
latest s id (d ∷ ds) = latest (if d.alert_id == id then d.decision else s) id ds

latest-append :
    (s id : String) (ds : List DecisionRow) (d : DecisionRow)
    → latest s id (ds ++ d ∷ []) ≡ (if d.alert_id == id then d.decision else latest s id ds)
latest-append s id [] d = refl
latest-append s id (e ∷ es) d = latest-append (if e.alert_id == id then e.decision else s) id es d

module _ ⦃p : Platform⦄ where
  open p use {uuid_text}

  -- Every alert has the status of its newest decision, or the one it is opened with.
  abbrev pub HasLatest : List DecisionRow → AlertRow → Type 0
  HasLatest ds r = r.status ≡ latest "open" r.id ds

  -- The foreign key of a decision.
  abbrev pub Refers : List AlertRow → DecisionRow → Type 0
  Refers rows d = any (has_id d.alert_id) rows ≡ true

  pub record IsProjected (t : AlertTables) : Type 0 where
    pub projected : All (HasLatest t.decisions) t.alerts
    pub referring : All (Refers t.alerts) t.decisions

  pub latest-absent :
      (s id : String) (rows : List AlertRow) (ds : List DecisionRow)
      → All (Refers rows) ds
      → any (has_id id) rows ≡ false
      → latest s id ds ≡ s
  latest-absent s id rows [] h n = refl
  latest-absent s id rows (d ∷ ds) h n = elim (Bool-cases (d.alert_id == id)) [
    | inl e ↦ absurd (cc ((eq_iff d.alert_id id).0 e, h.0, n))
    | inr e ↦ rw e (latest-absent s id rows ds h.1 n)
  ]

  any-update :
      (x id : String) (f : AlertRow → AlertRow) (rows : List AlertRow)
      → ((r : AlertRow) → AlertRow.id (f r) ≡ r.id)
      → any (has_id x) (update id f rows) ≡ any (has_id x) rows
  unfolding update
  any-update x id f [] h = refl
  any-update x id f (r ∷ rs) h = elim (Bool-cases (r.id == id)) [
    | inl e ↦ rw (e, h r, any-update x id f rs h) refl
    | inr e ↦ rw (e, any-update x id f rs h) refl
  ]

  pub Refers-update :
      (id : String) (f : AlertRow → AlertRow) (rows : List AlertRow) (ds : List DecisionRow)
      → ((r : AlertRow) → AlertRow.id (f r) ≡ r.id)
      → All (Refers rows) ds
      → All (Refers (update id f rows)) ds
  Refers-update id f rows [] h a = tt
  Refers-update id f rows (d ∷ ds) h a =
      (any-update d.alert_id id f rows h ∙ a.0, Refers-update id f rows ds h a.1)

  pub Refers-append :
      (rows : List AlertRow) (r : AlertRow) (ds : List DecisionRow)
      → All (Refers rows) ds
      → All (Refers (rows ++ r ∷ [])) ds
  Refers-append rows r [] h = tt
  Refers-append rows r (d ∷ ds) h = (
    any-append (has_id d.alert_id) rows (r ∷ []) ∙ ground (arith, h.0),
    Refers-append rows r ds h.1,
  )

  pub HasLatest-decided :
      (d : DecisionRow) (ds : List DecisionRow) (rows : List AlertRow)
      → All (HasLatest ds) rows
      → All (HasLatest (ds ++ d ∷ [])) (update d.alert_id (with_status d.decision) rows)
  unfolding update
  HasLatest-decided d ds [] h = tt
  HasLatest-decided d ds (r ∷ rs) h = (step, HasLatest-decided d ds rs h.1)
    where
      step : HasLatest (ds ++ d ∷ []) (if r.id == d.alert_id then with_status d.decision r else r)
      step = elim (Bool-cases (r.id == d.alert_id)) [
        | inl e ↦
            rw (e, latest-append "open" r.id ds d)
              (ground (arith, e, eq_iff d.alert_id r.id, eq_iff r.id d.alert_id))
        | inr e ↦
            rw (e, latest-append "open" r.id ds d)
              (ground (arith, e, h.0, eq_iff d.alert_id r.id, eq_iff r.id d.alert_id))
      ]

  pub HasLatest-advised :
      (id s : String) (ds : List DecisionRow) (rows : List AlertRow)
      → All (HasLatest ds) rows
      → All (HasLatest ds) (update id (with_ai_status s) rows)
  unfolding update
  HasLatest-advised id s ds [] h = tt
  HasLatest-advised id s ds (r ∷ rs) h = elim (Bool-cases (r.id == id)) [
    | inl e ↦ rw e (h.0, HasLatest-advised id s ds rs h.1)
    | inr e ↦ rw e (h.0, HasLatest-advised id s ds rs h.1)
  ]
