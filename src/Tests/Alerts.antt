-- ===== src/Tests/Alerts.antt =====
-- The review workflow of crates/alerts and crates/api on a concrete alert.
use stellar_risk.Common.{
  ◌≡◌, refl, ◌⊎◌, true, none, some, [], ◌∷◌, ◌++◌, if◌then◌else◌, nat_eq, err, arith,
}
use stellar_risk.Platform.{null}
use stellar_risk.Domain.AlertStatus
use stellar_risk.Domain.Severity
use stellar_risk.Domain.Decision
use stellar_risk.Domain.Decision.{Decision}
use stellar_risk.Domain.Role
use stellar_risk.Domain.Role.{Investigator}
use stellar_risk.Domain.Transaction.{involved_accounts, assets}
use stellar_risk.Domain.Alert.{AiAdvisory, pending, Alert}
use stellar_risk.Domain.AuditEvent.{alert_created, investigator_decision}
use stellar_risk.Audit.Chain.{verify_chain}
use stellar_risk.Alerts.Memory
use stellar_risk.Alerts.Memory.{record_decision}
use stellar_risk.Alerts.Service.{
  NewAlert, World, Ambient, make_alert, for_both, get, decision_history, create_alert,
  record_ai_advisory_requested, record_ai_advisory, record_ai_unavailable, make_decision,
  submit_decision,
}
use stellar_risk.Alerts.Review.{
  Audited, submit_decision_records, submit_decision_others, SameReview, advisory-SameReview,
  create_alert_opens,
}
use stellar_risk.Alerts.Status.{Agrees, Step, initial, Reach, reach_status, reach_verifies}
use stellar_risk.Alerts.Collect.{accounts_and_assets, accounts_and_assets-involved}
use stellar_risk.Api.Error.{ApiError}
use stellar_risk.Api.Decisions
use stellar_risk.Api.Decisions.{DecisionRequest, responded}
use stellar_risk.Api.Gate.{IsAllowed, submit_decision_gate}
use stellar_risk.Toy.{toy, toy_codec, transfer}

abbrev pub env : Ambient
env = record { id = 9; now = 50; audit_id = 10; audit_now = 51 }

abbrev new_alert : NewAlert
new_alert = record {
  tx_id = "t1";
  accounts = "alice" ∷ [];
  assets = [];
  triggered_rules = [];
  score = 40;
  severity = Severity.medium;
}

-- The empty state, then with one alert, then with that alert escalated.
abbrev opened : World
opened = (create_alert new_alert env initial).1

abbrev escalated : World
escalated = (submit_decision 9 "i1" Decision.escalated "odd" env opened).1

abbrev pub alert : Alert
alert = make_alert new_alert env

abbrev pub advisory : AiAdvisory
advisory = record {
  alert_id = 9;
  generated_at = 52;
  summary = "close it";
  suspicious_signals = [];
  relevant_history = "";
  risk_assessment = record { level = "low"; rationale = "" };
  recommended_next_steps = [];
  confidence = 1;
  explanation = "";
  model = "m";
  disclaimer = "";
}

escalated-Reach : Reach escalated
unfolding get Memory.get Memory.lookup
escalated-Reach =
    Reach.next (Reach.next Reach.start (Step.created new_alert env refl))
      (Step.decided 9 "i1" Decision.escalated "odd" env)

reach_status_example : Agrees (get 9 escalated) (decision_history 9 escalated)
reach_status_example = reach_status escalated 9 escalated-Reach

reach_verifies_example : (verify_chain escalated.log).valid ≡ true
reach_verifies_example = reach_verifies escalated escalated-Reach

submit_decision_records_example :
    (get 9 (submit_decision 9 "i1" Decision.escalated "odd" env opened).1
      ≡ some (record alert { status = AlertStatus.escalated }))
    × (decision_history 9 (submit_decision 9 "i1" Decision.escalated "odd" env opened).1
        ≡ decision_history 9 opened ++ make_decision 9 "i1" Decision.escalated "odd" env ∷ [])
    × Audited
        (for_both 9 "t1" (investigator_decision "i1" Decision.escalated "odd" AlertStatus.«open»))
        env
        (record_decision
          (make_decision 9 "i1" Decision.escalated "odd" env)
          AlertStatus.escalated
          opened.store)
        opened.log
        (make_decision 9 "i1" Decision.escalated "odd" env)
        (submit_decision 9 "i1" Decision.escalated "odd" env opened)
unfolding get make_alert create_alert Memory.get Memory.lookup Memory.insert Memory.put
    Decision.to_status
submit_decision_records_example =
    submit_decision_records 9 "i1" Decision.escalated "odd" env opened alert refl

submit_decision_others_example :
    (get 8 (submit_decision 9 "i1" Decision.escalated "odd" env opened).1 ≡ get 8 opened)
    × (decision_history 8 (submit_decision 9 "i1" Decision.escalated "odd" env opened).1
        ≡ decision_history 8 opened)
submit_decision_others_example =
    submit_decision_others 9 8 "i1" Decision.escalated "odd" env opened (λ e. absurd (omega arith))

advisory-SameReview_example :
    SameReview 9 opened (record_ai_advisory_requested 9 "t1" null env opened).1
    × SameReview 9 opened (record_ai_advisory 9 "t1" advisory env opened).1
    × SameReview 9 opened (record_ai_unavailable 9 "t1" "offline" env opened).1
advisory-SameReview_example = advisory-SameReview 9 9 "t1" null advisory "offline" env opened

create_alert_opens_example :
    (get 9 (create_alert new_alert env initial).1
      ≡ (if nat_eq 9 9 then some (make_alert new_alert env) else get 9 initial))
    × ((make_alert new_alert env).status ≡ AlertStatus.«open»)
    × ((make_alert new_alert env).ai_status ≡ pending)
    × (decision_history 9 (create_alert new_alert env initial).1 ≡ decision_history 9 initial)
    × Audited
        (for_both 9 "t1" (alert_created "t1" [] Severity.medium 40))
        env
        (Memory.insert (make_alert new_alert env) initial.store)
        initial.log
        (make_alert new_alert env)
        (create_alert new_alert env initial)
create_alert_opens_example = create_alert_opens new_alert env initial 9

accounts_and_assets-involved_example :
    accounts_and_assets "alice" transfer.movements ≡ (involved_accounts transfer, assets transfer)
accounts_and_assets-involved_example = accounts_and_assets-involved transfer

abbrev ann : Investigator
ann = record { id = "i1"; username = "ann"; role = Role.investigator }

abbrev request : DecisionRequest
request = record { decision = "escalated"; rationale = "odd" }

submit_decision_gate_example :
    ((e : ApiError) × (Decisions.submit_decision ann 9 request env opened
        ≡ (responded (err e), opened, none)))
    ⊎ ((d : Decision) × IsAllowed ann request d
        × ((Decisions.submit_decision ann 9 request env opened).1
            ≡ (submit_decision 9 "i1" d "odd" env opened).1))
submit_decision_gate_example = submit_decision_gate ann 9 request env opened
