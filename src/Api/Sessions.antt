-- ===== src/Api/Sessions.antt =====
-- A sign-in by crates/api/src/routes/auth.rs and the requests that carry its token, which
-- crates/api/src/auth.rs takes apart.
use stellar_risk.Common.{
  ℕ, String, List, Bool, true, not, ◌&&◌, ◌≡◌, refl, sym, ok_inj, ◌∙◌, ap, none, some, [], ◌∷◌, ok,
  ◌>>=◌, leb, nat_eq, arith, bind_ok, map_err_ok,
}
use stellar_risk.Common.Text.{concat, is_white, all_chars, trim}
use stellar_risk.Common.Split.{
  strip_prefix, split_first, all_chars_weaker, split_first-concat, trim-black, strip_prefix-concat,
  concat_last_three, concat_last_four, all_chars-concat, split-whole,
}
use stellar_risk.Platform.{Platform}
use stellar_risk.Domain.Role
use stellar_risk.Domain.Role.{Investigator}
use stellar_risk.Domain.Names.{role_of_text}
use stellar_risk.Storage.Query.{Faults}
use stellar_risk.Storage.Investigators.{InvestigatorRow, InvestigatorWithHash, find_by_username}
use stellar_risk.Api.Error.{failed}
use stellar_risk.Api.Decisions.{ApiResult}
use stellar_risk.Api.Auth.{
  Claims, Credentials, Parts, auth_cookie_name, as_usize, token_ttl_hours, find_cookie,
  token_from_parts, verify_password, claims_of, issue_token, decode_token, from_request_parts,
}
use stellar_risk.Api.Login.{
  LoginRequest, LoginResponse, session_cookie, signed_in, login, login_form,
}

-- Neither white nor a semicolon.
abbrev pub is_plain : ℕ → Bool
is_plain c = not (is_white c) && not (nat_eq c 59)

abbrev pub with_bearer : String → Parts
with_bearer token = record {
  authorization = some (some (concat ("Bearer " ∷ token ∷ [])));
  cookie = none;
}

abbrev pub with_cookie : String → Parts
with_cookie cookie = record { authorization = none; cookie = some (some cookie) }

-- What a browser keeps of a `Set-Cookie` header to send it back: the text before the attributes.
abbrev pub kept : String → String
kept set_cookie = (split_first 59 set_cookie).0

token_from_bearer : (token : String) → token_from_parts (with_bearer token) ≡ some token
unfolding token_from_parts
token_from_bearer token = rw (token_from_parts, strip_prefix-concat "Bearer " token) refl

all_chars-cookie :
    (token : String)
    → all_chars is_plain token ≡ true
    → all_chars is_plain (concat (auth_cookie_name ∷ "=" ∷ token ∷ [])) ≡ true
unfolding all_chars concat
all_chars-cookie token h =
    rw (concat_last_three auth_cookie_name "=" token)
      (all_chars-concat is_plain (concat (auth_cookie_name ∷ "=" ∷ [])) token refl h)

kept-session_cookie :
    (token : String)
    → all_chars is_plain token ≡ true
    → kept (session_cookie token) ≡ concat (auth_cookie_name ∷ "=" ∷ token ∷ [])
unfolding session_cookie split_first
kept-session_cookie token h =
    rw (concat_last_four auth_cookie_name "=" token "; Path=/; HttpOnly; SameSite=Lax") (
      split_first-concat 59 (concat (auth_cookie_name ∷ "=" ∷ token ∷ []))
        "; Path=/; HttpOnly; SameSite=Lax"
        (all_chars_weaker is_plain (λ c. not (nat_eq c 59))
          (concat (auth_cookie_name ∷ "=" ∷ token ∷ [])) (λ c k. ground (arith, k))
          (all_chars-cookie token h))
        refl)

find_cookie-only :
    (c t : String)
    → strip_prefix (concat (auth_cookie_name ∷ "=" ∷ [])) (trim c) ≡ some t
    → find_cookie (c ∷ []) ≡ some t
find_cookie-only c t h = rw (find_cookie, h) refl

token_from_cookie :
    (token : String)
    → all_chars is_plain token ≡ true
    → token_from_parts (with_cookie (concat (auth_cookie_name ∷ "=" ∷ token ∷ []))) ≡ some token
unfolding token_from_parts
token_from_cookie token h =
    let plain = all_chars-cookie token h in
    let cookie = concat (auth_cookie_name ∷ "=" ∷ token ∷ []) in
    rw
      (split-whole 59 cookie (
        all_chars_weaker is_plain (λ c. not (nat_eq c 59)) cookie (λ c k. ground (arith, k)) plain))
      (find_cookie-only cookie token (
        ap (λ s. strip_prefix (concat (auth_cookie_name ∷ "=" ∷ [])) s)
          (trim-black cookie (
              all_chars_weaker is_plain (λ c. not (is_white c)) cookie (λ c k. ground (arith, k))
                plain)
            ∙ concat_last_three auth_cookie_name "=" token)
        ∙ strip_prefix-concat (concat (auth_cookie_name ∷ "=" ∷ [])) token))

module _ ⦃p : Platform⦄ ⦃k : Credentials⦄ where
  open p use {DateTime}
  open k use {encode, decode, hours_later, timestamp}

  abbrev pub expiry : DateTime → ℕ
  expiry now = as_usize (timestamp (hours_later token_ttl_hours now))

  -- A sign-in succeeded: who it was, and what the requests with its token are taken for.
  pub record IsSignedIn (req : LoginRequest) (now : DateTime) (secret : String) (faults : Faults)
      (rows : List InvestigatorRow) (clock : ℕ) (response : LoginResponse) : Type 0 where
    pub who : InvestigatorWithHash
    pub found : find_by_username req.username faults rows ≡ ok (some who)
    pub proved : verify_password req.password who.password_hash ≡ true
    pub same_id : response.investigator_id ≡ who.investigator.id
    pub same_name : response.username ≡ who.investigator.username
    pub same_role : response.role ≡ Role.as_str who.investigator.role
    pub by_header :
        from_request_parts clock (with_bearer response.token) secret ≡ ok who.investigator
    pub by_form :
        login_form req now secret faults rows
        ≡ ok (record { set_cookie = session_cookie response.token; location = "/dashboard" })
    pub by_cookie :
        from_request_parts clock (with_cookie (kept (session_cookie response.token))) secret
        ≡ ok who.investigator

  from_request_parts-token :
      (clock : ℕ) (parts : Parts) (secret token : String) (i : Investigator) (now : DateTime)
      → token_from_parts parts ≡ some token
      → decode clock token secret ≡ some (claims_of i now)
      → from_request_parts clock parts secret ≡ ok i
  unfolding from_request_parts decode_token claims_of
  from_request_parts-token clock parts secret token i now h d = rw (h, d, role_of_text i.role) refl

  signed_in-ok :
      (req : LoginRequest) (faults : Faults) (rows : List InvestigatorRow)
      (w : InvestigatorWithHash)
      → signed_in req faults rows ≡ ok w
      → (find_by_username req.username faults rows ≡ ok (some w))
        × (verify_password req.password w.password_hash ≡ true)
  unfolding signed_in
  signed_in-ok req faults rows w h = ground (arith, h)

  abbrev response_of : InvestigatorWithHash → String → LoginResponse
  response_of w token = record {
    token = token;
    investigator_id = w.investigator.id;
    username = w.investigator.username;
    role = Role.as_str w.investigator.role;
  }

  -- The second half of the handler, and its token.
  abbrev responding : DateTime → String → InvestigatorWithHash → ApiResult LoginResponse
  responding now secret w =
      issue_token w.investigator now secret >>= λ token. ok (response_of w token)

  its_token :
      (w : InvestigatorWithHash) (token : String) (response : LoginResponse)
      → response_of w token ≡ response
      → (token ≡ response.token) × (response ≡ response_of w response.token)
  its_token w token response q =
      let same : token ≡ response.token = ap (λ x. LoginResponse.token x) q in
      (same, sym q ∙ ap (response_of w) same)

  login-steps :
      (req : LoginRequest) (now : DateTime) (secret : String) (faults : Faults)
      (rows : List InvestigatorRow) (response : LoginResponse)
      → login req now secret faults rows ≡ ok response
      → (w : InvestigatorWithHash) × (signed_in req faults rows ≡ ok w)
        × (encode (claims_of w.investigator now) secret ≡ ok response.token)
        × (response ≡ response_of w response.token)
  unfolding login issue_token
  login-steps req now secret faults rows response h =
      let (w, a, h') = bind_ok (signed_in req faults rows) (responding now secret) response h in
      let (token, b, e) =
        bind_ok (issue_token w.investigator now secret) (λ t. ok (response_of w t)) response h' in
      let same = its_token w token response (ok_inj e) in
      (
        w,
        a,
        map_err_ok (λ m. failed m) (encode (claims_of w.investigator now) secret) response.token
            (b ∙ ap (λ t. ok t) same.0),
        same.1,
      )

  -- Where a sign-in succeeds, the user of the request is in the table and the password is that
  -- user's; until its token expires, a request with the token in the `Authorization` header, and one
  -- with the cookie that the form sets, are both taken for that user with the role of the table. This
  -- holds where a token that was encoded is decoded under the same secret as long as it has not
  -- expired, and has neither a semicolon nor a white character.
  pub login-IsSignedIn :
      (decodes : (c : Claims) (clock : ℕ) (token secret : String)
        → encode c secret ≡ ok token
        → leb clock c.exp ≡ true
        → decode clock token secret ≡ some c)
      (written : (c : Claims) (token secret : String)
        → encode c secret ≡ ok token
        → all_chars is_plain token ≡ true)
      (req : LoginRequest) (now : DateTime) (secret : String) (faults : Faults)
      (rows : List InvestigatorRow) (clock : ℕ) (response : LoginResponse)
      → leb clock (expiry now) ≡ true
      → login req now secret faults rows ≡ ok response
      → IsSignedIn req now secret faults rows clock response
  unfolding login_form issue_token claims_of
  login-IsSignedIn decodes written req now secret faults rows clock response alive h =
      let (w, a, e, r) = login-steps req now secret faults rows response h in
      let (found, proved) = signed_in-ok req faults rows w a in
      let d = decodes (claims_of w.investigator now) clock response.token secret e alive in
      let plain = written (claims_of w.investigator now) response.token secret e in
      record {
        who = w;
        found = found;
        proved = proved;
        same_id = ap (λ x. LoginResponse.investigator_id x) r;
        same_name = ap (λ x. LoginResponse.username x) r;
        same_role = ap (λ x. LoginResponse.role x) r;
        by_header =
            from_request_parts-token clock (with_bearer response.token) secret response.token
              w.investigator now (token_from_bearer response.token) d;
        by_form = rw (a, e) refl;
        by_cookie = rw (kept-session_cookie response.token plain) (
            from_request_parts-token clock
              (with_cookie (concat (auth_cookie_name ∷ "=" ∷ response.token ∷ []))) secret
              response.token w.investigator now (token_from_cookie response.token plain) d);
      }
