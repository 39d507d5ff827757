-- ===== src/Api/Auth.antt =====
-- crates/api/src/auth.rs: passwords, tokens and who a request comes from. `argon2` and
-- `jsonwebtoken` are crates outside the repository: what they compute is the parameter `Credentials`.
use stellar_risk.Common.{
  ℕ, ◌+◌, ◌%◌, ◌-◌, String, Bool, false, Option, none, some, List, [], ◌∷◌, Result, ok, err, ◌>>=◌,
  map_err, ok_or,
}
use stellar_risk.Common.Int.{ℤ, pos, negsuc}
use stellar_risk.Common.Text.{concat, trim, usize_limit}
use stellar_risk.Common.Split.{strip_prefix, split}
use stellar_risk.Platform.{Platform}
use stellar_risk.Domain.Role
use stellar_risk.Domain.Role.{Investigator}
use stellar_risk.Api.Error.{unauthorized, failed}
use stellar_risk.Api.Decisions.{ApiResult}

pub record Claims : Type 0 where
  pub sub : String
  pub username : String
  pub role : String
  pub exp : ℕ

pub record Credentials ⦃p : Platform⦄ : Type 1 where
  pub Salt : Type 0
  pub ParsedHash : Type 0
  -- `Argon2::default().hash_password` with its text, `PasswordHash::new` and `verify_password`.
  pub argon2_hash : String → Salt → Result String String
  pub parse_hash : String → Option ParsedHash
  pub argon2_verify : String → ParsedHash → Bool
  -- `encode` and `decode` of claims under a secret; `decode` reads the clock, in seconds.
  pub encode : Claims → String → Result String String
  pub decode : ℕ → String → String → Option Claims
  -- The instant some hours later, and its seconds since 1970.
  pub hours_later : ℤ → p.DateTime → p.DateTime
  pub timestamp : p.DateTime → ℤ

abbrev pub token_ttl_hours : ℤ
token_ttl_hours = pos 12

abbrev pub auth_cookie_name : String
auth_cookie_name = "stellarrisk_token"

-- `as usize` of an `i64`
abbrev pub as_usize : ℤ → ℕ
as_usize (pos n) = n % usize_limit
as_usize (negsuc n) = usize_limit - (n % usize_limit + 1)

-- The headers that are read. A value that is not visible ASCII, which `to_str` refuses, is none.
pub record Parts : Type 0 where
  pub authorization : Option (Option String)
  pub cookie : Option (Option String)

abbrev pub visible : Option (Option String) → Option String
visible none = none
visible (some value) = value

-- `if let Some(token) = s.strip_prefix("Bearer ")`
abbrev pub bearer : Option String → Option String
bearer none = none
bearer (some s) = strip_prefix "Bearer " s

-- `find_map` over the pieces of the cookie header.
abbrev pub find_cookie : List String → Option String
find_cookie [] = none
find_cookie (c ∷ cs) = elim (strip_prefix (concat (auth_cookie_name ∷ "=" ∷ [])) (trim c)) [
  | some s ↦ some s
  | none ↦ find_cookie cs
]

abbrev pub cookie_token : Option String → Option String
cookie_token none = none
cookie_token (some s) = find_cookie (split 59 s)

-- The bearer token comes before the cookie.
unfoldable pub token_from_parts : Parts → Option String
token_from_parts parts = elim (bearer (visible parts.authorization)) [
  | some token ↦ some token
  | none ↦ cookie_token (visible parts.cookie)
]

module _ ⦃p : Platform⦄ ⦃k : Credentials⦄ where
  open p use {DateTime}
  open k use {Salt, argon2_hash, parse_hash, argon2_verify, encode, decode, hours_later, timestamp}

  unfoldable pub hash_password : String → Salt → ApiResult String
  hash_password password salt = map_err failed (argon2_hash password salt)

  unfoldable pub verify_password : String → String → Bool
  verify_password password hash = elim (parse_hash hash) [
    | none ↦ false
    | some parsed ↦ argon2_verify password parsed
  ]

  unfoldable pub claims_of : Investigator → DateTime → Claims
  claims_of investigator now = record {
    sub = investigator.id;
    username = investigator.username;
    role = Role.as_str investigator.role;
    exp = as_usize (timestamp (hours_later token_ttl_hours now));
  }

  unfoldable pub issue_token : Investigator → DateTime → String → ApiResult String
  unfolding claims_of
  issue_token investigator now secret = map_err failed (encode (claims_of investigator now) secret)

  unfoldable pub decode_token : ℕ → String → String → ApiResult Claims
  decode_token clock token secret =
      ok_or (decode clock token secret) (unauthorized "invalid or expired token")

  -- `AuthUser`
  unfoldable pub from_request_parts : ℕ → Parts → String → ApiResult Investigator
  unfolding token_from_parts decode_token
  from_request_parts clock parts secret =
      ok_or (token_from_parts parts) (unauthorized "missing credentials") >>= λ token.
      decode_token clock token secret >>= λ claims.
      map_err failed (Role.from_str claims.role) >>= λ role.
      ok (record { id = claims.sub; username = claims.username; role = role })

  -- `OptionalAuthUser`
  unfoldable pub optional_from_request_parts : ℕ → Parts → String → Option Investigator
  unfolding from_request_parts
  optional_from_request_parts clock parts secret = elim (from_request_parts clock parts secret) [
    | ok i ↦ some i
    | err e ↦ none
  ]
