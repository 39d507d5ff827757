-- ===== src/Api/Dashboard.antt =====
-- crates/api/src/routes/dashboard.rs: the pages. The style sheet is a parameter.
use stellar_risk.Common.{
  String, Option, none, some, List, [], ◌∷◌, map, nonempty, if◌then◌else◌, ok, err, ◌>>=◌, map_err,
}
use stellar_risk.Common.Int.{pos}
use stellar_risk.Common.Text.{concat}
use stellar_risk.Platform.{Platform, Uuid}
use stellar_risk.Codec.{Codec}
use stellar_risk.Domain.Role
use stellar_risk.Domain.Role.{can_decide, Investigator}
use stellar_risk.Domain.Transaction.{NormalizedTransaction}
use stellar_risk.Domain.Alert.{Alert, InvestigatorDecisionRecord}
use stellar_risk.Domain.AuditEvent.{AuditRecord}
use stellar_risk.Alerts.Service
use stellar_risk.Alerts.Service.{World, Ambient}
use stellar_risk.Storage.Query.{Faults}
use stellar_risk.Storage.Transactions
use stellar_risk.Storage.Transactions.{TransactionRow}
use stellar_risk.Api.Error.{from}
use stellar_risk.Api.Decisions.{
  ApiResult, DecisionRequest, Handled, responded, panicked, Sent, get_alert, submit_decision,
}
use stellar_risk.Api.Panels.{
  short, redirect_login, severity_badge, status_badge, ai_panel, audit_kind_label, alert_row,
  rule_html, tx_html, decision_html, audit_item,
}
use stellar_risk.Api.Html.{layout}

module _ ⦃p : Platform⦄ where
  open p use {DateTime, f64_fixed, to_rfc3339, uuid_text}

  -- The loop over the alerts.
  unfoldable pub alert_rows : List Alert → Option String
  unfolding alert_row short
  alert_rows [] = some ""
  alert_rows (a ∷ as') = elim (short a.tx_id) [
    | none ↦ none
    | some tx ↦ elim (alert_rows as') [
      | none ↦ none
      | some rest ↦ some (concat (alert_row a tx ∷ rest ∷ []))
    ]
  ]

  abbrev pub name_and_role : Investigator → Option (String × String)
  name_and_role user = some (user.username, Role.as_str user.role)

  abbrev pub list_body : String → String
  list_body rows = concat (
      "<div class=\"card\"><p class=\"section-title\">Active Alerts</p><table><thead><tr><th>Transaction</th><th>Severity</th><th>Status</th><th>Score</th><th>Rules Triggered</th><th>Created</th></tr></thead><tbody>"
      ∷ rows ∷ "</tbody></table></div>" ∷ [])

  -- No page is the panic of `short`.
  abbrev pub paged : Option String → Handled String
  paged none = panicked
  paged (some page) = responded (ok page)

  unfoldable pub alerts_list : String → Option Investigator → World → Handled String
  unfolding alert_rows layout
  alerts_list style none w = responded (ok redirect_login)
  alerts_list style (some user) w =
      let alerts = Service.list (record { status = none; limit = pos 100; offset = pos 0 }) w in
      paged (elim (alert_rows alerts) [
        | none ↦ none
        | some rows ↦ some (
            layout style "Alerts" (name_and_role user) (
              list_body (
                if nonempty alerts
                then rows
                else "<tr><td colspan=\"6\" class=\"muted\">No alerts yet.</td></tr>")))
      ])

  unfoldable pub decision_form : Investigator → Uuid → String
  decision_form user id =
      if can_decide user.role
      then concat (
          "<form class=\"decision\" method=\"post\" action=\"/dashboard/alerts/"
          ∷ uuid_text id
          ∷ "/decision\"><label>Final decision</label><select name=\"decision\"><option value=\"dismissed\">Dismissed / False Positive</option><option value=\"under_investigation\">Under Investigation</option><option value=\"escalated\">Escalated</option><option value=\"confirmed_suspicious\">Confirmed Suspicious</option></select><label>Rationale (required)</label><textarea name=\"rationale\" rows=\"3\" required></textarea><button type=\"submit\">Record decision</button></form>"
          ∷ [])
      else "<p class=\"muted\">Your role is read-only; only an investigator or admin can record a decision.</p>"

  unfoldable pub detail_body :
      Investigator
      → Uuid
      → Alert
      → List InvestigatorDecisionRecord
      → List AuditRecord
      → Option NormalizedTransaction
      → String
  unfolding severity_badge status_badge ai_panel decision_form audit_kind_label
  detail_body user id alert decisions audit_trail tx = concat (
      "<div class=\"card\"><p class=\"section-title\">Alert "
      ∷ uuid_text alert.id
      ∷ "</p>"
      ∷ severity_badge alert
      ∷ " "
      ∷ status_badge alert
      ∷ "<h3 style=\"margin-top:14px\">Transaction</h3>"
      ∷ tx_html tx
      ∷ "<h3>Triggered Rules (score "
      ∷ f64_fixed 0 alert.score
      ∷ ")</h3>"
      ∷ concat (map rule_html alert.triggered_rules)
      ∷ "</div>"
      ∷ ai_panel alert.ai_status
      ∷ "<div class=\"human-panel\"><span class=\"tag\">Human Decision — Final Authority</span><p class=\"muted\">Only an authorized investigator can set the final status. AI output above is advisory input to this decision, never a substitute for it.</p>"
      ∷ decision_form user id
      ∷ "<h4 style=\"margin-top:18px\">Decision History</h4>"
      ∷ (if nonempty decisions
          then concat (map decision_html decisions)
          else "<p class=\"muted\">No decisions recorded yet.</p>")
      ∷ "</div><div class=\"card\"><p class=\"section-title\">Audit Trail (append-only, hash-chained)</p>"
      ∷ concat (map audit_item audit_trail)
      ∷ "</div>"
      ∷ [])

  module _ ⦃c : Codec⦄ where
    -- The alert, and its transaction where the table has it.
    unfoldable pub alert_and_transaction :
        Uuid
        → Faults
        → World
        → List TransactionRow
        → ApiResult (Alert × Option NormalizedTransaction)
    unfolding get_alert
    alert_and_transaction id faults w rows = get_alert id w >>= λ alert.
        map_err from (Transactions.get alert.tx_id faults rows) >>= λ tx. ok (alert, tx)

    unfoldable pub alert_detail :
        String → Option Investigator → Uuid → Faults → World → List TransactionRow → Handled String
    unfolding detail_body layout alert_and_transaction short
    alert_detail style none id faults w rows = responded (ok redirect_login)
    alert_detail style (some user) id faults w rows =
        elim (alert_and_transaction id faults w rows) [
          | err e ↦ responded (err e)
          | ok (alert, tx) ↦ paged (elim (short (uuid_text alert.id)) [
            | none ↦ none
            | some short_id ↦ some (
                layout style (concat ("Alert " ∷ short_id ∷ [])) (name_and_role user) (
                  detail_body user id alert (Service.decision_history id w)
                    (Service.audit_history id w) tx))
          ])
        ]

    -- Back to the page of the alert.
    abbrev pub back_to :
        Uuid → Handled InvestigatorDecisionRecord × World × Sent → Handled String × World × Sent
    back_to id (panicked, w, sent) = (panicked, w, sent)
    back_to id (responded (err e), w, sent) = (responded (err e), w, sent)
    back_to id (responded (ok r), w, sent) =
        (responded (ok (concat ("/dashboard/alerts/" ∷ uuid_text id ∷ []))), w, sent)

    -- The handler's lines are those of `submit_decision` in alerts_api.rs, but for what it responds.
    unfoldable pub submit_decision_form :
        Investigator → Uuid → DecisionRequest → Ambient → World → Handled String × World × Sent
    unfolding submit_decision
    submit_decision_form investigator id req env w =
        back_to id (submit_decision investigator id req env w)
