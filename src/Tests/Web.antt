-- ===== src/Tests/Web.antt =====
-- The web server's and the model client's edges on concrete inputs.
use stellar_risk.Common.{
  ℕ, ◌+◌, ◌≡◌, refl, ap, ◌∙◌, String, Bool, true, none, some, [], ◌∷◌, ok, err, ◌&&◌, ◌==◌,
  if◌then◌else◌, leb, inl, inr, Bool-cases, ok_inj, nat_eq, nat_eq_iff, arith, eq_iff,
}
use stellar_risk.Common.Int.{pos}
use stellar_risk.Common.Text.{
  show, all_chars, count_chars, is_blank, take_chars, lowers_to, contains, filter_chars, trim,
}
use stellar_risk.Platform.{Json, text}
use stellar_risk.Domain.Severity.{high}
use stellar_risk.Domain.Role.{from_str, as_str}
use stellar_risk.Storage.Query.{Faults}
use stellar_risk.Storage.Investigators.{InvestigatorRow, find_by_username}
use stellar_risk.Advisor.Request.{AdvisoryRequest}
use stellar_risk.Advisor.Schema.{json_object, json_array}
use stellar_risk.Advisor.Client.{Transport, new, advisory_of, investigate}
use stellar_risk.Advisor.Validate.{SanitizedAdvisory}
use stellar_risk.Advisor.Answered.{IsAnswered, investigate-IsAnswered}
use stellar_risk.Api.Auth.{Claims, Credentials, verify_password, issue_token}
use stellar_risk.Api.Login.{LoginRequest, LoginResponse, signed_in, login}
use stellar_risk.Api.Sessions.{is_plain, IsSignedIn, login-IsSignedIn}
use stellar_risk.Api.Config.{Config, from_env}
use stellar_risk.Api.Bootstrap.{Start, Database, bootstrap}
use stellar_risk.Api.Seeded.{admin_of, admin_request, bootstrap_signs_in}
use stellar_risk.Api.Html.{esc}
use stellar_risk.Api.Escape.{is_inert, one_pass}
use stellar_risk.Api.Shown.{shown, esc_shows}
use stellar_risk.Tests.Outside.{raw}
use stellar_risk.Toy.{toy, toy_codec}

esc_shows_example :
    (all_chars is_inert (esc "<a href='x'>&lt;\"") ≡ true)
    × (esc "<a href='x'>&lt;\"" ≡ one_pass "<a href='x'>&lt;\"")
    × (shown (count_chars "<a href='x'>&lt;\"") (esc "<a href='x'>&lt;\"") ≡ "<a href='x'>&lt;\"")
esc_shows_example = esc_shows "<a href='x'>&lt;\""

escaped_text : esc "<b>&" ≡ "&lt;b&gt;&amp;"
unfolding esc
escaped_text = refl

-- The one user, whose token is a word.
abbrev claims : Claims
claims = record { sub = "7"; username = "eve"; role = "admin"; exp = 62 }

abbrev are_claims : Claims → Bool
are_claims c = c.sub == "7" && (c.username == "eve" && (c.role == "admin" && nat_eq c.exp 62))

instance abbrev credentials : Credentials
credentials = record {
  Salt = ℕ;
  ParsedHash = String;
  argon2_hash = λ password salt. ok password;
  parse_hash = λ hash. some hash;
  argon2_verify = λ password hash. password == hash;
  encode = λ c secret. if are_claims c then ok "token" else err "no claims";
  decode = λ clock token secret. if leb clock 62 then some claims else none;
  hours_later = λ h now. now + 12;
  timestamp = pos;
}

abbrev made : String → String → String → ℕ → Claims
made sub username role exp = record { sub = sub; username = username; role = role; exp = exp }

claims_iff : (c : Claims) → are_claims c ≡ true → c ≡ claims
claims_iff c h =
    ap (λ x. made x c.username c.role c.exp) (ground (arith, h, eq_iff c.sub "7"))
    ∙ ap (λ x. made "7" x c.role c.exp) (ground (arith, h, eq_iff c.username "eve"))
    ∙ ap (λ x. made "7" "eve" x c.exp) (ground (arith, h, eq_iff c.role "admin"))
    ∙ ap (λ x. made "7" "eve" "admin" x) (ground (arith, h, nat_eq_iff c.exp 62))

encoded :
    (c : Claims) (token secret : String)
    → credentials.encode c secret ≡ ok token
    → (are_claims c ≡ true) × ("token" ≡ token)
encoded c token secret h = elim (Bool-cases (are_claims c)) [
  | inl e ↦ (e, ok_inj (rw e at h))
  | inr e ↦ absurd (cc (rw e at h))
]

decodes :
    (c : Claims) (clock : ℕ) (token secret : String)
    → credentials.encode c secret ≡ ok token
    → leb clock c.exp ≡ true
    → credentials.decode clock token secret ≡ some c
decodes c clock token secret h k =
    let same = claims_iff c (encoded c token secret h).0 in rw same (ground (arith, k, same))

written :
    (c : Claims) (token secret : String)
    → credentials.encode c secret ≡ ok token
    → all_chars is_plain token ≡ true
unfolding all_chars
written c token secret h = rw (← (encoded c token secret h).1) refl

abbrev user : InvestigatorRow
user = record { id = "7"; username = "eve"; password_hash = "pw"; role = "admin"; created_at = "1" }

abbrev sign_in : LoginRequest
sign_in = record { username = "eve"; password = "pw" }

abbrev signed : LoginResponse
signed = record { token = "token"; investigator_id = "7"; username = "eve"; role = "admin" }

abbrev healthy : Faults
healthy i = none

login-IsSignedIn_example : IsSignedIn sign_in 50 "secret" healthy (user ∷ []) 55 signed
unfolding login find_by_username from_str verify_password issue_token as_str
login-IsSignedIn_example =
    login-IsSignedIn decodes written sign_in 50 "secret" healthy (user ∷ []) 55 signed refl refl

-- A start with the default configuration for which no account can be flagged.
abbrev config : Config
config = from_env (λ name. none)

abbrev start : Start
start = record {
  now = 50;
  id = 7;
  salt = 3;
  counting = healthy;
  creating = healthy;
  refusal = "unique";
  flagging = λ i. some "disk full";
}

abbrev empty : Database
empty = record { investigators = []; flagged_accounts = [] }

bootstrap_signs_in_example :
    (signed_in (admin_request config) healthy (bootstrap config start empty).1.investigators
      ≡ ok (admin_of config start config.admin_password))
    × ((bootstrap config start (bootstrap config start empty).1).1.investigators
        ≡ (bootstrap config start empty).1.investigators)
unfolding from_env
bootstrap_signs_in_example =
    bootstrap_signs_in config start empty config.admin_password config.admin_password healthy config
      start refl refl refl refl refl refl refl

-- A provider that answers every request with one call of the tool.
abbrev payload : Json ℕ
payload = json_object (
    ("stop_reason", text "tool_use")
    ∷ (
      "content",
      json_array (
          json_object (("type", text "text") ∷ ("text", text "first") ∷ [])
          ∷ json_object (
              ("type", text "tool_use")
              ∷ ("name", text "submit_fraud_advisory")
              ∷ ("input", text "input")
              ∷ [])
          ∷ []),
    )
    ∷ [])

abbrev provider : Transport
provider = record {
  send = λ r.
      ok (record { is_success = true; status = "200"; content = err "read"; json = ok payload });
  to_value = λ r. ok (text "request");
  to_string = λ j. ok "request";
  from_value = λ j. ok raw;
}

abbrev question : AdvisoryRequest
question = record {
  alert_id = 9;
  tx_id = "t1";
  source_account = "alice";
  movements = [];
  triggered_rules = [];
  score = 40;
  severity = high;
  history = record {
    recent_transaction_count = 1;
    baseline_tx_per_hour = 1;
    known_asset_count = 1;
  };
}

abbrev sanitized : SanitizedAdvisory
sanitized = record {
  summary = "SCRIPTalert/script odd";
  suspicious_signals = "one" ∷ "two" ∷ [];
  relevant_history = "";
  risk_assessment = record { level = "high"; rationale = "" };
  recommended_next_steps = [];
  confidence = 1;
  explanation = "";
}

investigate-IsAnswered_example :
    IsAnswered provider
      (new "key")
      60
      question
      (advisory_of provider (new "key") question 60 sanitized)
unfolding investigate is_blank take_chars lowers_to contains filter_chars trim
investigate-IsAnswered_example =
    investigate-IsAnswered provider (new "key") 60 question
      (advisory_of provider (new "key") question 60 sanitized) refl

-- Without a Horizon server the demonstration account is flagged, here over a statement that answers.
demo_flags :
    (bootstrap config (record start { flagging = healthy }) empty).1.flagged_accounts
    ≡ record {
      account_id = "GKNOWNBADACTOR";
      reason = "Previously confirmed suspicious in a prior investigation (demo seed data)";
      created_at = "50";
      added_by = none;
    }
      ∷ []
unfolding bootstrap from_env show
demo_flags = refl
