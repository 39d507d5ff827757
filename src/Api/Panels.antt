-- ===== src/Api/Panels.antt =====
-- crates/api/src/routes/dashboard.rs: the pieces of the pages.
use Prim.Native.String.{len}
use text.Mathlib.Text.{get?}
use stellar_risk.Common.{◌-◌, String, Option, none, some, [], ◌∷◌, map, length, ltb, if◌then◌else◌}
use stellar_risk.Common.Text.{concat, show, show_int}
use stellar_risk.Platform.{Platform}
use stellar_risk.Domain.AlertStatus
use stellar_risk.Domain.Decision
use stellar_risk.Domain.Severity
use stellar_risk.Domain.Rule.{RuleTrigger}
use stellar_risk.Domain.Transaction.{NormalizedTransaction}
use stellar_risk.Domain.Alert.{
  AiAdvisoryStatus, pending, ready, unavailable, Alert, InvestigatorDecisionRecord,
}
use stellar_risk.Domain.AuditEvent.{
  AuditEventKind, AuditRecord, alert_created, ai_advisory_requested, ai_advisory_received,
  ai_advisory_unavailable, investigator_decision, ingestion_failure,
}
use stellar_risk.Api.Html.{replace, esc}

-- The bytes of the text are cut, which panics inside a character: then there is no answer.
unfoldable pub short : String → Option String
short s =
    if ltb 16 (len s)
    then (elim (get? s 0 8) [
      | none ↦ none
      | some head ↦ elim (get? s (len s - 6) (len s)) [
        | none ↦ none
        | some tail ↦ some (concat (head ∷ "…" ∷ tail ∷ []))
      ]
    ])
    else some s

abbrev pub redirect_login : String
redirect_login =
    "<html><head><meta http-equiv=\"refresh\" content=\"0; url=/login\"></head><body>Redirecting to login…</body></html>"

-- Where no character is an underscore any more.
abbrev pub spaced : String → String
spaced s = replace 95 " " s

module _ ⦃p : Platform⦄ where
  open p use {DateTime, f64_fixed, f32, f32_mul, f32_fixed, to_rfc3339, uuid_text}

  unfoldable pub severity_badge : Alert → String
  unfolding esc
  severity_badge a = concat (
      "<span class=\"badge sev-"
      ∷ Severity.as_str a.severity
      ∷ "\">"
      ∷ esc (Severity.as_str a.severity)
      ∷ "</span>"
      ∷ [])

  unfoldable pub status_badge : Alert → String
  unfolding esc
  status_badge a = concat (
      "<span class=\"badge status-"
      ∷ AlertStatus.as_str a.status
      ∷ "\">"
      ∷ esc (spaced (AlertStatus.as_str a.status))
      ∷ "</span>"
      ∷ [])

  abbrev pub item : String → String
  item s = concat ("<li>" ∷ esc s ∷ "</li>" ∷ [])

  unfoldable pub ai_panel : AiAdvisoryStatus → String
  unfolding esc
  ai_panel pending =
      "<div class=\"ai-panel\"><span class=\"tag\">AI Advisory</span><p class=\"muted\">Analysis pending…</p></div>"
  ai_panel (unavailable reason at) = concat (
      "<div class=\"ai-panel\"><span class=\"tag\">AI Advisory</span><p class=\"muted\">Unavailable ("
      ∷ esc reason
      ∷ ") — the AI service could not be reached at "
      ∷ esc (to_rfc3339 at)
      ∷ ". Rules-engine findings above are unaffected; proceed with manual review.</p></div>"
      ∷ [])
  ai_panel (ready a) = concat (
      "<div class=\"ai-panel\"><span class=\"tag\">AI Advisory — Recommendation Only</span><p><strong>Summary:</strong> "
      ∷ esc a.summary
      ∷ "</p><p><strong>Risk assessment:</strong> "
      ∷ esc a.risk_assessment.level
      ∷ " — "
      ∷ esc a.risk_assessment.rationale
      ∷ "</p><p><strong>Suspicious signals:</strong></p><ul>"
      ∷ concat (map item a.suspicious_signals)
      ∷ "</ul><p><strong>Relevant history:</strong> "
      ∷ esc a.relevant_history
      ∷ "</p><p><strong>Recommended next steps:</strong></p><ul>"
      ∷ concat (map item a.recommended_next_steps)
      ∷ "</ul><p><strong>Confidence:</strong> "
      ∷ f32_fixed 0 (f32_mul a.confidence (f32 100))
      ∷ "%</p><p class=\"muted\">"
      ∷ esc a.explanation
      ∷ "</p><p class=\"ai-disclaimer\">"
      ∷ esc a.disclaimer
      ∷ "</p></div>"
      ∷ [])

  unfoldable pub audit_kind_label : AuditEventKind → String
  audit_kind_label (alert_created _ _ _ _) = "Alert created"
  audit_kind_label (ai_advisory_requested _) = "AI advisory requested"
  audit_kind_label (ai_advisory_received _) = "AI advisory received"
  audit_kind_label (ai_advisory_unavailable reason) =
      concat ("AI advisory unavailable (" ∷ reason ∷ ")" ∷ [])
  audit_kind_label (investigator_decision investigator_id decision _ _) =
      concat ("Decision recorded by " ∷ investigator_id ∷ " — " ∷ Decision.as_str decision ∷ [])
  audit_kind_label (ingestion_failure _ _ _) = "Ingestion failure"

  -- One row of the list; `tx` is the shortened identifier.
  unfoldable pub alert_row : Alert → String → String
  unfolding esc severity_badge status_badge
  alert_row a tx = concat (
      "<tr><td><a class=\"rowlink\" href=\"/dashboard/alerts/"
      ∷ uuid_text a.id
      ∷ "\">"
      ∷ esc tx
      ∷ "</a></td><td>"
      ∷ severity_badge a
      ∷ "</td><td>"
      ∷ status_badge a
      ∷ "</td><td>"
      ∷ f64_fixed 0 a.score
      ∷ "</td><td>"
      ∷ show (length a.triggered_rules)
      ∷ "</td><td class=\"muted\">"
      ∷ esc (to_rfc3339 a.created_at)
      ∷ "</td></tr>"
      ∷ [])

  abbrev pub rule_html : RuleTrigger → String
  rule_html r = concat (
      "<div class=\"rule\"><strong>"
      ∷ esc r.rule_name
      ∷ "</strong><br>"
      ∷ esc r.reason
      ∷ "</div>"
      ∷ [])

  abbrev pub tx_html : Option NormalizedTransaction → String
  tx_html none = "<p class=\"muted\">Transaction detail not available.</p>"
  tx_html (some tx) = concat (
      "<p class=\"mono\">Source: "
      ∷ esc tx.source_account
      ∷ "</p><p>Ledger "
      ∷ show tx.ledger
      ∷ " · "
      ∷ show tx.operation_count
      ∷ " operation(s) · fee "
      ∷ show_int tx.fee_charged
      ∷ " stroops</p>"
      ∷ [])

  abbrev pub decision_html : InvestigatorDecisionRecord → String
  decision_html d = concat (
      "<div class=\"audit-item\"><strong>"
      ∷ esc (spaced (Decision.as_str d.decision))
      ∷ "</strong> by "
      ∷ esc d.investigator_id
      ∷ " at "
      ∷ esc (to_rfc3339 d.created_at)
      ∷ "<br><span class=\"muted\">"
      ∷ esc d.rationale
      ∷ "</span></div>"
      ∷ [])

  abbrev pub audit_item : AuditRecord → String
  audit_item r = concat (
      "<div class=\"audit-item mono\">#"
      ∷ show_int r.sequence
      ∷ " "
      ∷ esc (audit_kind_label r.event)
      ∷ " — "
      ∷ esc (to_rfc3339 r.created_at)
      ∷ "</div>"
      ∷ [])
