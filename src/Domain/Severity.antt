-- ===== src/Domain/Severity.antt =====
-- `Severity` of crates/domain/src/rule.rs.
use stellar_risk.Common.{String, ◌==◌, [], ◌∷◌, if◌then◌else◌, Result, ok, err}
use stellar_risk.Common.Text.{concat}

pub data Severity : Type 0 where
  low medium high critical : Severity

unfoldable pub as_str : Severity → String
as_str low = "low"
as_str medium = "medium"
as_str high = "high"
as_str critical = "critical"

unfoldable pub from_str : String → Result String Severity
from_str s =
    if s == "low"
    then ok low
    else if s == "medium"
    then ok medium
    else if s == "high"
    then ok high
    else if s == "critical"
    then ok critical
    else err (concat ("unknown severity: " ∷ s ∷ []))
