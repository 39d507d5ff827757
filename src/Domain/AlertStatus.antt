-- ===== src/Domain/AlertStatus.antt =====
-- `AlertStatus` of crates/domain/src/alert.rs.
use stellar_risk.Common.{String, Bool, ◌==◌, [], ◌∷◌, if◌then◌else◌, Result, ok, err}
use stellar_risk.Common.Text.{concat}

pub data AlertStatus : Type 0 where
  «open» under_investigation escalated dismissed confirmed_suspicious : AlertStatus

unfoldable pub as_str : AlertStatus → String
as_str «open» = "open"
as_str under_investigation = "under_investigation"
as_str escalated = "escalated"
as_str dismissed = "dismissed"
as_str confirmed_suspicious = "confirmed_suspicious"

unfoldable pub from_str : String → Result String AlertStatus
from_str s =
    if s == "open"
    then ok «open»
    else if s == "under_investigation"
    then ok under_investigation
    else if s == "escalated"
    then ok escalated
    else if s == "dismissed"
    then ok dismissed
    else if s == "confirmed_suspicious"
    then ok confirmed_suspicious
    else err (concat ("unknown alert status: " ∷ s ∷ []))

-- The derived `==`.
unfoldable pub is_same : AlertStatus → AlertStatus → Bool
unfolding as_str
is_same a b = as_str a == as_str b
