-- ===== src/Storage/AlertTable.antt =====
-- crates/storage/src/alert_store.rs: the tables `alerts` and `alert_decisions`. The connection has
-- foreign keys switched on (`connect` of crates/storage/src/db.rs), so that a decision on an alert
-- that is not there is refused, and so is a row whose `score` is not a number: SQLite takes that for
-- NULL, and the column is NOT NULL.
use stellar_risk.Common.{
  String, Bool, true, not, Option, none, some, List, [], ◌∷◌, ◌++◌, ◌==◌, ◌||◌, any, filter, find?,
  if◌then◌else◌, ok, err, ◌>>=◌, map, map_err, collect,
}
use stellar_risk.Common.Int.{ℤ, pos, ltb_ℤ}
use stellar_risk.Common.Text.{le_text}
use stellar_risk.Platform.{Platform, Uuid}
use stellar_risk.Codec.{Codec}
use stellar_risk.Domain.Error.{DomainResult, internal}
use stellar_risk.Domain.AlertStatus
use stellar_risk.Domain.AlertStatus.{AlertStatus}
use stellar_risk.Domain.Decision
use stellar_risk.Domain.Severity
use stellar_risk.Domain.Alert.{AiAdvisoryStatus, Alert, InvestigatorDecisionRecord}
use stellar_risk.Alerts.Memory.{AlertFilter}
use stellar_risk.Storage.Query.{
  map_json, Faults, answer, executed, inserted, order_by, limited, offset_by,
}

pub record DecisionRow : Type 0 where
  pub id : String
  pub alert_id : String
  pub investigator_id : String
  pub decision : String
  pub rationale : String
  pub created_at : String

-- `ORDER BY created_at ASC`
abbrev pub earlier : DecisionRow → DecisionRow → Bool
earlier r s = le_text r.created_at s.created_at

abbrev pub decides : String → DecisionRow → Bool
decides id d = d.alert_id == id

abbrev pub is_decision : String → DecisionRow → Bool
is_decision id d = d.id == id

-- `if filter.limit > 0 { filter.limit } else { 100 }`
abbrev pub page_size : ℤ → ℤ
page_size limit = if ltb_ℤ (pos 0) limit then limit else pos 100

module _ ⦃p : Platform⦄ where
  open p use {F64, f64_ge, to_rfc3339, parse_rfc3339, uuid_text, parse_uuid}

  pub record AlertRow : Type 0 where
    pub id : String
    pub tx_id : String
    pub accounts_json : String
    pub assets_json : String
    pub created_at : String
    pub triggered_rules_json : String
    pub score : F64
    pub severity : String
    pub status : String
    pub ai_status_json : String

  pub record AlertTables : Type 0 where
    pub alerts : List AlertRow
    pub decisions : List DecisionRow

  abbrev pub has_id : String → AlertRow → Bool
  has_id id r = r.id == id

  abbrev pub has_status : Option AlertStatus → AlertRow → Bool
  has_status none r = true
  has_status (some s) r = r.status == AlertStatus.as_str s

  -- `ORDER BY created_at DESC`
  abbrev pub later : AlertRow → AlertRow → Bool
  later r s = le_text s.created_at r.created_at

  -- `UPDATE alerts SET .. WHERE id = ?`
  unfoldable pub update : String → (AlertRow → AlertRow) → List AlertRow → List AlertRow
  update id f [] = []
  update id f (r ∷ rs) = (if r.id == id then f r else r) ∷ update id f rs

  abbrev pub with_status : String → AlertRow → AlertRow
  with_status s r = record r { status = s }

  abbrev pub with_ai_status : String → AlertRow → AlertRow
  with_ai_status s r = record r { ai_status_json = s }

  -- The values that `record_decision` binds.
  abbrev pub decision_row : InvestigatorDecisionRecord → DecisionRow
  decision_row r = record {
    id = uuid_text r.id;
    alert_id = uuid_text r.alert_id;
    investigator_id = r.investigator_id;
    decision = Decision.as_str r.decision;
    rationale = r.rationale;
    created_at = to_rfc3339 r.created_at;
  }

  -- The primary key is taken, or no alert has the identifier that the row refers to.
  abbrev pub breaks : DecisionRow → AlertTables → Bool
  breaks d t = any (is_decision d.id) t.decisions || not (any (has_id d.alert_id) t.alerts)

  abbrev pub with_decision : DecisionRow → AlertTables → AlertTables
  with_decision d t = record t { decisions = t.decisions ++ d ∷ [] }

  abbrev pub with_update : String → (AlertRow → AlertRow) → AlertTables → AlertTables
  with_update id f t = record t { alerts = update id f t.alerts }

  -- What the transaction holds when it is committed: it begins, inserts, updates and commits.
  unfoldable pub transaction :
      InvestigatorDecisionRecord
      → AlertStatus
      → Faults
      → String
      → AlertTables
      → DomainResult AlertTables
  unfolding update
  transaction r new_status faults refusal t =
      let d = decision_row r in
      executed faults 0 >>= λ begun. inserted faults 1 refusal (breaks d t) >>= λ done.
      answer faults 2 (
        with_update (uuid_text r.alert_id) (with_status (AlertStatus.as_str new_status))
          (with_decision d t))
      >>= λ u. executed faults 3 >>= λ committed. ok u

  -- A transaction that is dropped before it is committed is rolled back.
  unfoldable pub record_decision :
      InvestigatorDecisionRecord
      → AlertStatus
      → Faults
      → String
      → AlertTables
      → DomainResult (Unit {0}) × AlertTables
  unfolding transaction
  record_decision r new_status faults refusal t = elim (transaction r new_status faults refusal t) [
    | ok u ↦ (ok tt, u)
    | err e ↦ (err e, t)
  ]

  unfoldable pub row_to_decision : DecisionRow → DomainResult InvestigatorDecisionRecord
  row_to_decision d = map_err internal (parse_uuid d.id) >>= λ id.
      map_err internal (parse_uuid d.alert_id) >>= λ alert_id.
      map_err internal (Decision.from_str d.decision) >>= λ decision.
      map_err internal (parse_rfc3339 d.created_at) >>= λ created_at. ok (record {
        id = id;
        alert_id = alert_id;
        investigator_id = d.investigator_id;
        decision = decision;
        rationale = d.rationale;
        created_at = created_at;
      })

  unfoldable pub decision_history :
      Uuid → Faults → AlertTables → DomainResult (List InvestigatorDecisionRecord)
  unfolding order_by row_to_decision
  decision_history alert_id faults t =
      answer faults 0 (order_by earlier (filter (decides (uuid_text alert_id)) t.decisions))
      >>= λ rows. collect (map row_to_decision rows)

  module _ ⦃c : Codec⦄ where
    open c use {
      texts_text, read_texts, assets_text, read_assets, triggers_text, read_triggers,
      ai_status_text, read_ai_status,
    }

    unfoldable pub row_to_alert : AlertRow → DomainResult Alert
    row_to_alert r = map_err internal (parse_uuid r.id) >>= λ id.
        map_err map_json (read_texts r.accounts_json) >>= λ accounts.
        map_err map_json (read_assets r.assets_json) >>= λ assets.
        map_err internal (parse_rfc3339 r.created_at) >>= λ created_at.
        map_err map_json (read_triggers r.triggered_rules_json) >>= λ triggered_rules.
        map_err internal (Severity.from_str r.severity) >>= λ severity.
        map_err internal (AlertStatus.from_str r.status) >>= λ status.
        map_err map_json (read_ai_status r.ai_status_json) >>= λ ai_status. ok (record {
          id = id;
          tx_id = r.tx_id;
          accounts = accounts;
          assets = assets;
          created_at = created_at;
          triggered_rules = triggered_rules;
          score = r.score;
          severity = severity;
          status = status;
          ai_status = ai_status;
        })

    -- The values that `insert` binds.
    unfoldable pub alert_row : Alert → DomainResult AlertRow
    alert_row a = map_err map_json (texts_text a.accounts) >>= λ accounts_json.
        map_err map_json (assets_text a.assets) >>= λ assets_json.
        map_err map_json (triggers_text a.triggered_rules) >>= λ triggered_rules_json.
        map_err map_json (ai_status_text a.ai_status) >>= λ ai_status_json. ok (record {
          id = uuid_text a.id;
          tx_id = a.tx_id;
          accounts_json = accounts_json;
          assets_json = assets_json;
          created_at = to_rfc3339 a.created_at;
          triggered_rules_json = triggered_rules_json;
          score = a.score;
          severity = Severity.as_str a.severity;
          status = AlertStatus.as_str a.status;
          ai_status_json = ai_status_json;
        })

    -- The primary key is taken, or the score is not a number.
    abbrev pub refuses : AlertRow → AlertTables → Bool
    refuses r t = any (has_id r.id) t.alerts || not (f64_ge r.score r.score)

    -- The values, and the one statement.
    unfoldable pub new_row : Alert → Faults → String → AlertTables → DomainResult AlertRow
    unfolding alert_row
    new_row a faults refusal t =
        alert_row a >>= λ r. inserted faults 0 refusal (refuses r t) >>= λ done. ok r

    unfoldable pub insert :
        Alert → Faults → String → AlertTables → DomainResult (Unit {0}) × AlertTables
    unfolding new_row
    insert a faults refusal t = elim (new_row a faults refusal t) [
      | ok r ↦ (ok tt, record t { alerts = t.alerts ++ r ∷ [] })
      | err e ↦ (err e, t)
    ]

    unfoldable pub get : Uuid → Faults → AlertTables → DomainResult (Option Alert)
    unfolding row_to_alert
    get id faults t = answer faults 0 (find? (has_id (uuid_text id)) t.alerts) >>= λ row. elim row [
      | none ↦ ok none
      | some r ↦ row_to_alert r >>= λ a. ok (some a)
    ]

    unfoldable pub list : AlertFilter → Faults → AlertTables → DomainResult (List Alert)
    unfolding order_by row_to_alert
    list filtering faults t =
        answer faults 0 (
          limited (page_size filtering.limit) (
            offset_by filtering.offset
              (order_by later (filter (has_status filtering.status) t.alerts))))
        >>= λ rows. collect (map row_to_alert rows)

    unfoldable pub set_ai_status :
        Uuid → AiAdvisoryStatus → Faults → AlertTables → DomainResult (Unit {0}) × AlertTables
    unfolding update
    set_ai_status id ai_status faults t =
        elim (map_err map_json (ai_status_text ai_status) >>= λ s. answer faults 0 s) [
          | ok s ↦ (ok tt, with_update (uuid_text id) (with_ai_status s) t)
          | err e ↦ (err e, t)
        ]
