-- ===== src/Domain/Decision.antt =====
-- `Decision` of crates/domain/src/decision.rs.
use stellar_risk.Common.{String, ◌==◌, [], ◌∷◌, if◌then◌else◌, Result, ok, err}
use stellar_risk.Common.Text.{concat}
use stellar_risk.Domain.AlertStatus.{AlertStatus}

pub data Decision : Type 0 where
  dismissed under_investigation escalated confirmed_suspicious : Decision

unfoldable pub as_str : Decision → String
as_str dismissed = "dismissed"
as_str under_investigation = "under_investigation"
as_str escalated = "escalated"
as_str confirmed_suspicious = "confirmed_suspicious"

unfoldable pub from_str : String → Result String Decision
from_str s =
    if s == "dismissed"
    then ok dismissed
    else if s == "under_investigation"
    then ok under_investigation
    else if s == "escalated"
    then ok escalated
    else if s == "confirmed_suspicious"
    then ok confirmed_suspicious
    else err (concat ("unknown decision: " ∷ s ∷ []))

-- `From<Decision> for AlertStatus`
unfoldable pub to_status : Decision → AlertStatus
to_status dismissed = AlertStatus.dismissed
to_status under_investigation = AlertStatus.under_investigation
to_status escalated = AlertStatus.escalated
to_status confirmed_suspicious = AlertStatus.confirmed_suspicious
