-- ===== src/Api/Config.antt =====
-- crates/api/src/config.rs. The environment is a map from names to texts.
use stellar_risk.Common.{ℕ, String, Bool, not, Option, none, some, is_some}
use stellar_risk.Common.Text.{parse_usize}

pub record Config : Type 0 where
  pub database_url : String
  pub bind_addr : String
  pub jwt_secret : String
  pub anthropic_api_key : Option String
  pub anthropic_model : Option String
  pub horizon_url : Option String
  pub admin_username : String
  pub admin_password : String
  pub soroban_contract_id : Option String
  pub soroban_network : Option String
  pub soroban_source_account : Option String
  pub poll_interval_secs : ℕ

abbrev pub or_else {ℓ} : {A : Type ℓ} → A → Option A → A
or_else a none = a
or_else a (some b) = b

abbrev pub env_or : (String → Option String) → String → String → String
env_or env key default = or_else default (env key)

-- `s.parse().ok()` as a `u64`, which has the range of `usize`.
abbrev pub seconds_of : Option String → Option ℕ
seconds_of none = none
seconds_of (some s) = parse_usize s

unfoldable pub from_env : (String → Option String) → Config
from_env env = record {
  database_url = env_or env "DATABASE_URL" "sqlite://stellarrisk.db";
  bind_addr = env_or env "BIND_ADDR" "127.0.0.1:8080";
  jwt_secret = env_or env "JWT_SECRET" "dev-only-insecure-secret-change-me";
  anthropic_api_key = env "ANTHROPIC_API_KEY";
  anthropic_model = env "ANTHROPIC_MODEL";
  horizon_url = env "HORIZON_URL";
  admin_username = env_or env "ADMIN_USERNAME" "admin";
  admin_password = env_or env "ADMIN_PASSWORD" "change-me-immediately";
  soroban_contract_id = env "SOROBAN_CONTRACT_ID";
  soroban_network = env "SOROBAN_NETWORK";
  soroban_source_account = env "SOROBAN_SOURCE_ACCOUNT";
  poll_interval_secs = or_else 15 (seconds_of (env "POLL_INTERVAL_SECS"));
}

unfoldable pub demo_mode : Config → Bool
demo_mode c = not (is_some c.horizon_url)
