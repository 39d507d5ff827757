-- ===== src/Storage/Readable.antt =====
-- What `row_to_alert` of crates/storage/src/alert_store.rs reads in a row, and how the written
-- columns change it.
use stellar_risk.Common.{String, ◌≡◌, refl, ok, bind_ok, map_err_ok, ok_inj}
use stellar_risk.Platform.{Platform, Uuid}
use stellar_risk.Codec.{Codec}
use stellar_risk.Domain.Error.{internal}
use stellar_risk.Domain.AlertStatus
use stellar_risk.Domain.AlertStatus.{AlertStatus}
use stellar_risk.Domain.Names.{severity_of_text, alert_status_of_text}
use stellar_risk.Domain.Severity
use stellar_risk.Domain.Alert.{AiAdvisoryStatus, Alert}
use stellar_risk.Storage.Query.{map_json}
use stellar_risk.Storage.AlertTable.{AlertRow, with_status, with_ai_status, alert_row, row_to_alert}

module _ ⦃p : Platform⦄ where
  open p use {DateTime, to_rfc3339, parse_rfc3339, uuid_text, parse_uuid}

  -- Different identifiers have different texts.
  abbrev pub HaveTexts : Type 0
  HaveTexts = (i j : Uuid) → uuid_text i ≡ uuid_text j → i ≡ j

  module _ ⦃c : Codec⦄ where
    open c use {
      texts_text, read_texts, assets_text, read_assets, triggers_text, read_triggers,
      ai_status_text, read_ai_status,
    }

    -- What the libraries write for the parts of this alert, they read as those parts. A float that is
    -- not finite, for one, is not read back from JSON.
    pub record IsReadBack (a : Alert) : Type 0 where
      pub uuid : parse_uuid (uuid_text a.id) ≡ ok a.id
      pub rfc3339 : parse_rfc3339 (to_rfc3339 a.created_at) ≡ ok a.created_at
      pub texts : (s : String) → texts_text a.accounts ≡ ok s → read_texts s ≡ ok a.accounts
      pub assets : (s : String) → assets_text a.assets ≡ ok s → read_assets s ≡ ok a.assets
      pub triggers :
          (s : String)
          → triggers_text a.triggered_rules ≡ ok s
          → read_triggers s ≡ ok a.triggered_rules
      pub ai_status :
          (s : String) → ai_status_text a.ai_status ≡ ok s → read_ai_status s ≡ ok a.ai_status

    -- Each column of the row reads as the field of the alert.
    pub record IsRead (r : AlertRow) (a : Alert) : Type 0 where
      pub id : parse_uuid r.id ≡ ok a.id
      pub tx_id : r.tx_id ≡ a.tx_id
      pub accounts : read_texts r.accounts_json ≡ ok a.accounts
      pub assets : read_assets r.assets_json ≡ ok a.assets
      pub created_at : parse_rfc3339 r.created_at ≡ ok a.created_at
      pub triggered_rules : read_triggers r.triggered_rules_json ≡ ok a.triggered_rules
      pub score : r.score ≡ a.score
      pub severity : Severity.from_str r.severity ≡ ok a.severity
      pub status : AlertStatus.from_str r.status ≡ ok a.status
      pub ai_status : read_ai_status r.ai_status_json ≡ ok a.ai_status

    pub row_to_alert-read : (r : AlertRow) (a : Alert) → IsRead r a → row_to_alert r ≡ ok a
    unfolding row_to_alert
    row_to_alert-read r a h =
        rw
          (
            row_to_alert, h.id, h.accounts, h.assets, h.created_at, h.triggered_rules, h.severity,
            h.status, h.ai_status, h.tx_id, h.score,
          )
          refl

    pub IsRead-row_to_alert : (r : AlertRow) (a : Alert) → row_to_alert r ≡ ok a → IsRead r a
    unfolding row_to_alert
    IsRead-row_to_alert r a q =
        let (id, e1, q1) = bind_ok _ _ a q in
        let (accounts, e2, q2) = bind_ok _ _ a q1 in
        let (assets, e3, q3) = bind_ok _ _ a q2 in
        let (created_at, e4, q4) = bind_ok _ _ a q3 in
        let (triggers, e5, q5) = bind_ok _ _ a q4 in
        let (severity, e6, q6) = bind_ok _ _ a q5 in
        let (status, e7, q7) = bind_ok _ _ a q6 in
        let (ai_status, e8, q8) = bind_ok _ _ a q7 in
        let same = ok_inj q8 in
        rw (← same) (record {
          id = map_err_ok internal (parse_uuid r.id) id e1;
          tx_id = refl;
          accounts = map_err_ok map_json (read_texts r.accounts_json) accounts e2;
          assets = map_err_ok map_json (read_assets r.assets_json) assets e3;
          created_at = map_err_ok internal (parse_rfc3339 r.created_at) created_at e4;
          triggered_rules = map_err_ok map_json (read_triggers r.triggered_rules_json) triggers e5;
          score = refl;
          severity = map_err_ok internal (Severity.from_str r.severity) severity e6;
          status = map_err_ok internal (AlertStatus.from_str r.status) status e7;
          ai_status = map_err_ok map_json (read_ai_status r.ai_status_json) ai_status e8;
        })

    pub IsRead-alert_row :
        (a : Alert) (r : AlertRow) → IsReadBack a → alert_row a ≡ ok r → IsRead r a
    unfolding alert_row
    IsRead-alert_row a r laws q =
        let (accounts, e1, q1) = bind_ok _ _ r q in
        let (assets, e2, q2) = bind_ok _ _ r q1 in
        let (triggers, e3, q3) = bind_ok _ _ r q2 in
        let (ai_status, e4, q4) = bind_ok _ _ r q3 in
        let same = ok_inj q4 in
        rw (← same) (record {
          id = laws.uuid;
          tx_id = refl;
          accounts = laws.texts accounts (map_err_ok map_json (texts_text a.accounts) accounts e1);
          assets = laws.assets assets (map_err_ok map_json (assets_text a.assets) assets e2);
          created_at = laws.rfc3339;
          triggered_rules =
              laws.triggers triggers
                (map_err_ok map_json (triggers_text a.triggered_rules) triggers e3);
          score = refl;
          severity = severity_of_text a.severity;
          status = alert_status_of_text a.status;
          ai_status =
              laws.ai_status ai_status
                (map_err_ok map_json (ai_status_text a.ai_status) ai_status e4);
        })

    pub IsRead-with_status :
        (r : AlertRow) (a : Alert) (s : AlertStatus)
        → IsRead r a
        → IsRead (with_status (AlertStatus.as_str s) r) (record a { status = s })
    IsRead-with_status r a s h = record {
      id = h.id;
      tx_id = h.tx_id;
      accounts = h.accounts;
      assets = h.assets;
      created_at = h.created_at;
      triggered_rules = h.triggered_rules;
      score = h.score;
      severity = h.severity;
      status = alert_status_of_text s;
      ai_status = h.ai_status;
    }

    pub IsRead-with_ai_status :
        (r : AlertRow) (a : Alert) (s : AiAdvisoryStatus) (x : String)
        → read_ai_status x ≡ ok s
        → IsRead r a
        → IsRead (with_ai_status x r) (record a { ai_status = s })
    IsRead-with_ai_status r a s x e h = record {
      id = h.id;
      tx_id = h.tx_id;
      accounts = h.accounts;
      assets = h.assets;
      created_at = h.created_at;
      triggered_rules = h.triggered_rules;
      score = h.score;
      severity = h.severity;
      status = h.status;
      ai_status = e;
    }
