-- ===== src/Domain/Names.antt =====
-- The texts of the four enumerations are read back, and nothing else is read as a value.
use stellar_risk.Common.{String, ◌≡◌, ◌∙◌, ap, refl, ◌↔◌, arith, eq_iff, ok}
use stellar_risk.Domain.Severity
use stellar_risk.Domain.Severity.{Severity}
use stellar_risk.Domain.AlertStatus
use stellar_risk.Domain.AlertStatus.{AlertStatus}
use stellar_risk.Domain.Decision
use stellar_risk.Domain.Decision.{Decision}
use stellar_risk.Domain.Role
use stellar_risk.Domain.Role.{Role}

pub severity_of_text : (v : Severity) → Severity.from_str (Severity.as_str v) ≡ ok v
unfolding Severity.from_str Severity.as_str
severity_of_text Severity.low = refl
severity_of_text _ = refl

text_of_severity : (s : String) (v : Severity) → Severity.from_str s ≡ ok v → s ≡ Severity.as_str v
unfolding Severity.from_str Severity.as_str
text_of_severity s v h =
    ground (arith, eq_iff s "low", eq_iff s "medium", eq_iff s "high", eq_iff s "critical")

severity_iff : (s : String) (v : Severity) → (Severity.from_str s ≡ ok v) ↔ (s ≡ Severity.as_str v)
severity_iff s v = (text_of_severity s v, λ h. ap Severity.from_str h ∙ severity_of_text v)

pub alert_status_of_text : (v : AlertStatus) → AlertStatus.from_str (AlertStatus.as_str v) ≡ ok v
unfolding AlertStatus.from_str AlertStatus.as_str
alert_status_of_text AlertStatus.«open» = refl
alert_status_of_text _ = refl

text_of_alert_status :
    (s : String) (v : AlertStatus) → AlertStatus.from_str s ≡ ok v → s ≡ AlertStatus.as_str v
unfolding AlertStatus.from_str AlertStatus.as_str
text_of_alert_status s v h = ground (
  arith,
  eq_iff s "open",
  eq_iff s "under_investigation",
  eq_iff s "escalated",
  eq_iff s "dismissed",
  eq_iff s "confirmed_suspicious",
)

alert_status_iff :
    (s : String) (v : AlertStatus) → (AlertStatus.from_str s ≡ ok v) ↔ (s ≡ AlertStatus.as_str v)
alert_status_iff s v =
    (text_of_alert_status s v, λ h. ap AlertStatus.from_str h ∙ alert_status_of_text v)

decision_of_text : (v : Decision) → Decision.from_str (Decision.as_str v) ≡ ok v
unfolding Decision.from_str Decision.as_str
decision_of_text Decision.dismissed = refl
decision_of_text _ = refl

text_of_decision : (s : String) (v : Decision) → Decision.from_str s ≡ ok v → s ≡ Decision.as_str v
unfolding Decision.from_str Decision.as_str
text_of_decision s v h = ground (
  arith,
  eq_iff s "dismissed",
  eq_iff s "under_investigation",
  eq_iff s "escalated",
  eq_iff s "confirmed_suspicious",
)

decision_iff : (s : String) (v : Decision) → (Decision.from_str s ≡ ok v) ↔ (s ≡ Decision.as_str v)
decision_iff s v = (text_of_decision s v, λ h. ap Decision.from_str h ∙ decision_of_text v)

pub role_of_text : (v : Role) → Role.from_str (Role.as_str v) ≡ ok v
unfolding Role.from_str Role.as_str
role_of_text Role.viewer = refl
role_of_text _ = refl

text_of_role : (s : String) (v : Role) → Role.from_str s ≡ ok v → s ≡ Role.as_str v
unfolding Role.from_str Role.as_str
text_of_role s v h = ground (arith, eq_iff s "viewer", eq_iff s "investigator", eq_iff s "admin")

role_iff : (s : String) (v : Role) → (Role.from_str s ≡ ok v) ↔ (s ≡ Role.as_str v)
role_iff s v = (text_of_role s v, λ h. ap Role.from_str h ∙ role_of_text v)

-- For a severity, an alert status, a decision and a role alike: a text is read as a value exactly
-- when it is the text that the value is written as.
pub from_str_iff :
    (s : String) (v : Severity) (a : AlertStatus) (d : Decision) (r : Role)
    → ((Severity.from_str s ≡ ok v) ↔ (s ≡ Severity.as_str v))
      × ((AlertStatus.from_str s ≡ ok a) ↔ (s ≡ AlertStatus.as_str a))
      × ((Decision.from_str s ≡ ok d) ↔ (s ≡ Decision.as_str d))
      × ((Role.from_str s ≡ ok r) ↔ (s ≡ Role.as_str r))
from_str_iff s v a d r = (severity_iff s v, alert_status_iff s a, decision_iff s d, role_iff s r)
