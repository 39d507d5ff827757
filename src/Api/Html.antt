-- ===== src/Api/Html.antt =====
-- crates/api/src/html.rs: escaping, and the frame of every page. The style sheet is a parameter.
use Prim.Native.Char.{code}
use Prim.Native.String.{◌++◌}
use stellar_risk.Common.{ℕ, String, Option, none, some, [], ◌∷◌, nat_eq, if◌then◌else◌}
use stellar_risk.Common.Text.{concat}

-- `replace` of one character.
unfoldable pub replace : ℕ → String → String → String
replace x by String.[] = ""
replace x by (String.◌∷◌ c s) =
    let rest = replace x by s in if nat_eq (code c) x then by ++ rest else String.◌∷◌ c rest

-- The codes of `&`, `<`, `>`, `"` and `'`, in the order of the source.
unfoldable pub esc : String → String
unfolding replace
esc input =
    replace 39 "&#39;"
      (replace 34 "&quot;" (replace 62 "&gt;" (replace 60 "&lt;" (replace 38 "&amp;" input))))

abbrev pub header_right : Option (String × String) → String
unfolding esc
header_right none = "<a href=\"/login\">Log in</a>"
header_right (some (username, role)) = concat (
    "<span class=\"muted\">"
    ∷ esc username
    ∷ " ("
    ∷ esc role
    ∷ ")</span> &nbsp; <a href=\"/logout\">Log out</a>"
    ∷ [])

unfoldable pub layout : String → String → Option (String × String) → String → String
layout style title username_and_role body = concat (
    "<!doctype html><html><head><meta charset=\"utf-8\"><title>"
    ∷ title
    ∷ " · StellarRisk</title><style>"
    ∷ style
    ∷ "</style></head><body><header class=\"app\"><a href=\"/dashboard\">StellarRisk</a><div>"
    ∷ header_right username_and_role
    ∷ "</div></header><main>"
    ∷ body
    ∷ "</main></body></html>"
    ∷ [])
