-- ===== src/Domain/Role.antt =====
-- `Role` of crates/domain/src/auth.rs.
use stellar_risk.Common.{String, Bool, true, false, ◌==◌, [], ◌∷◌, if◌then◌else◌, Result, ok, err}
use stellar_risk.Common.Text.{concat}

pub data Role : Type 0 where
  viewer investigator admin : Role

unfoldable pub as_str : Role → String
as_str viewer = "viewer"
as_str investigator = "investigator"
as_str admin = "admin"

unfoldable pub from_str : String → Result String Role
from_str s =
    if s == "viewer"
    then ok viewer
    else if s == "investigator"
    then ok investigator
    else if s == "admin"
    then ok admin
    else err (concat ("unknown role: " ∷ s ∷ []))

unfoldable pub can_decide : Role → Bool
can_decide viewer = false
can_decide investigator = true
can_decide admin = true

unfoldable pub can_administer : Role → Bool
can_administer viewer = false
can_administer investigator = false
can_administer admin = true

pub record Investigator : Type 0 where
  pub id : String
  pub username : String
  pub role : Role
