-- ===== src/Api/Login.antt =====
-- crates/api/src/routes/auth.rs: signing in, by JSON or by the form of the page, and out.
use stellar_risk.Common.{String, none, List, [], ◌∷◌, if◌then◌else◌, ok, err, ◌>>=◌, map_err, ok_or}
use stellar_risk.Common.Text.{concat}
use stellar_risk.Api.Html.{layout}
use stellar_risk.Platform.{Platform}
use stellar_risk.Domain.Role
use stellar_risk.Domain.Role.{Investigator}
use stellar_risk.Storage.Query.{Faults}
use stellar_risk.Storage.Investigators.{InvestigatorRow, InvestigatorWithHash, find_by_username}
use stellar_risk.Api.Error.{unauthorized, from}
use stellar_risk.Api.Decisions.{ApiResult}
use stellar_risk.Api.Auth.{Credentials, auth_cookie_name, verify_password, issue_token}

-- Also `LoginForm`, which has the same fields.
pub record LoginRequest : Type 0 where
  pub username : String
  pub password : String

pub record LoginResponse : Type 0 where
  pub token : String
  pub investigator_id : String
  pub username : String
  pub role : String

-- A redirection with the `Set-Cookie` header's text.
pub record Redirected : Type 0 where
  pub set_cookie : String
  pub location : String

-- The argument is the style sheet.
unfoldable pub login_page : String → String
unfolding layout
login_page style = layout style "Sign in" none (
    concat (
      "<div class=\"card login-box\">\n" ∷ "        <h2>Investigator sign-in</h2>\n"
      ∷ "        <form method=\"post\" action=\"/login\">\n"
      ∷ "            <label>Username</label><input type=\"text\" name=\"username\" required>\n"
      ∷ "            <label>Password</label><input type=\"password\" name=\"password\" required>\n"
      ∷ "            <button type=\"submit\">Sign in</button>\n" ∷ "        </form>\n"
      ∷ "    </div>" ∷ []))

unfoldable pub session_cookie : String → String
session_cookie token =
    concat (auth_cookie_name ∷ "=" ∷ token ∷ "; Path=/; HttpOnly; SameSite=Lax" ∷ [])

unfoldable pub logout : Redirected
logout = record {
  set_cookie = concat (auth_cookie_name ∷ "=; Path=/; HttpOnly; Max-Age=0" ∷ []);
  location = "/login";
}

module _ ⦃p : Platform⦄ ⦃k : Credentials⦄ where
  open p use {DateTime}

  -- The lines that both handlers begin with: the user is found and the password is that one's.
  unfoldable pub signed_in :
      LoginRequest → Faults → List InvestigatorRow → ApiResult InvestigatorWithHash
  signed_in req faults rows = map_err from (find_by_username req.username faults rows) >>= λ found.
      ok_or found (unauthorized "invalid credentials") >>= λ r.
      if verify_password req.password r.password_hash
      then ok r
      else err (unauthorized "invalid credentials")

  unfoldable pub login :
      LoginRequest → DateTime → String → Faults → List InvestigatorRow → ApiResult LoginResponse
  unfolding signed_in
  login req now secret faults rows = signed_in req faults rows >>= λ r.
      issue_token r.investigator now secret >>= λ token. ok (record {
        token = token;
        investigator_id = r.investigator.id;
        username = r.investigator.username;
        role = Role.as_str r.investigator.role;
      })

  unfoldable pub login_form :
      LoginRequest → DateTime → String → Faults → List InvestigatorRow → ApiResult Redirected
  unfolding signed_in session_cookie
  login_form req now secret faults rows = signed_in req faults rows >>= λ r.
      issue_token r.investigator now secret >>= λ token.
      ok (record { set_cookie = session_cookie token; location = "/dashboard" })
