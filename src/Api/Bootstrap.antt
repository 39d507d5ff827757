-- ===== src/Api/Bootstrap.antt =====
-- `bootstrap` of crates/api/src/lib.rs: what the configuration selects, and the first rows. The
-- database has been opened, and the clock is read once.
use stellar_risk.Common.{
  zero, suc, String, Bool, true, false, Option, none, some, List, [], ◌∷◌, if◌then◌else◌, Result,
  ok, err,
}
use stellar_risk.Common.Int.{ℤ, pos, negsuc}
use stellar_risk.Platform.{Platform, Uuid}
use stellar_risk.Domain.Error.{DomainError, DomainResult}
use stellar_risk.Domain.Role
use stellar_risk.Domain.Role.{Investigator}
use stellar_risk.Rules.Config.{default_rules_config, default_scoring_config}
use stellar_risk.Rules.Registry.{with_built_ins}
use stellar_risk.Advisor.Client
use stellar_risk.Advisor.Client.{AnthropicAdvisor, with_model}
use stellar_risk.Anchor.Cli
use stellar_risk.Anchor.Cli.{CliSorobanAnchor}
use stellar_risk.Ingestion.Mock
use stellar_risk.Ingestion.Mock.{MockTransactionSource}
use stellar_risk.Storage.Query.{Faults}
use stellar_risk.Storage.Flagged.{FlaggedRow, add}
use stellar_risk.Storage.Investigators.{InvestigatorRow, create, count}
use stellar_risk.Pipeline.Process.{Settings}
use stellar_risk.Api.Error.{ApiError}
use stellar_risk.Api.Decisions.{ApiResult}
use stellar_risk.Api.Auth.{Credentials, hash_password}
use stellar_risk.Api.Config.{Config}
use stellar_risk.Api.Demo.{demo_flagged_accounts, synthetic_transactions}

-- The errors that `?` turns into one of `anyhow`.
pub data StartError : Type 0 where
  of_domain : DomainError → StartError
  of_api : ApiError → StartError

-- The advisor, the anchor and the source that the configuration selects.
pub data AdvisorChoice : Type 0 where
  anthropic : AnthropicAdvisor → AdvisorChoice
  no_advisor : AdvisorChoice

pub data AnchorChoice : Type 0 where
  cli : CliSorobanAnchor → AnchorChoice
  no_anchor : AnchorChoice

abbrev with_model_of : Option String → AnthropicAdvisor → AnthropicAdvisor
with_model_of none a = a
with_model_of (some model) a = with_model model a

unfoldable pub choose_advisor : Option String → Option String → AdvisorChoice
choose_advisor none model = no_advisor
choose_advisor (some key) model = anthropic (with_model_of model (Client.new key))

unfoldable pub choose_anchor : Option String → Option String → Option String → AnchorChoice
choose_anchor (some id) (some net) (some src) = cli (Cli.new id net src)
choose_anchor _ _ _ = no_anchor

abbrev is_zero : ℤ → Bool
is_zero (pos zero) = true
is_zero (pos (suc n)) = false
is_zero (negsuc n) = false

module _ ⦃p : Platform⦄ ⦃k : Credentials⦄ where
  open p use {DateTime, seconds}
  open k use {Salt}

  pub data SourceChoice : Type 0 where
    horizon : String → SourceChoice
    mock : MockTransactionSource → SourceChoice

  pub record Database : Type 0 where
    pub investigators : List InvestigatorRow
    pub flagged_accounts : List FlaggedRow

  -- What the clock, the generators and the database answer.
  pub record Start : Type 0 where
    pub now : DateTime
    pub id : Uuid
    pub salt : Salt
    pub counting : Faults
    pub creating : Faults
    pub refusal : String
    pub flagging : Faults

  pub record Wiring : Type 0 where
    pub advisor : AdvisorChoice
    pub anchor : AnchorChoice
    pub source : SourceChoice
    pub source_name : String
    pub settings : Settings
    pub jwt_secret : String

  -- What `?` makes of the creation.
  abbrev pub created :
      DomainResult Investigator × List InvestigatorRow
      → Result StartError (Unit {0}) × List InvestigatorRow
  created (ok i, rows) = (ok tt, rows)
  created (err e, rows) = (err (of_domain e), rows)

  -- With a hash of the password.
  abbrev pub create_admin :
      Config
      → Start
      → List InvestigatorRow
      → ApiResult String
      → Result StartError (Unit {0}) × List InvestigatorRow
  create_admin config s rows (err e) = (err (of_api e), rows)
  create_admin config s rows (ok hash) =
      created (create config.admin_username hash Role.admin s.id s.now s.creating s.refusal rows)

  -- `if investigators.count().await? == 0`
  unfoldable pub seed_admin :
      Config → Start → List InvestigatorRow → Result StartError (Unit {0}) × List InvestigatorRow
  unfolding hash_password create count
  seed_admin config s rows = elim (count s.counting rows) [
    | err e ↦ (err (of_domain e), rows)
    | ok n ↦
        if is_zero n
        then create_admin config s rows (hash_password config.admin_password s.salt)
        else (ok tt, rows)
  ]

  -- The loop over the accounts; a statement that fails ends it.
  unfoldable pub flag_all :
      List (String × String)
      → Start
      → List FlaggedRow
      → Result StartError (Unit {0}) × List FlaggedRow
  unfolding add
  flag_all [] s rows = (ok tt, rows)
  flag_all ((account, reason) ∷ as') s rows =
      let (done, rows') = add account reason none s.now s.flagging rows in
      let rest = flag_all as' s rows' in
      elim done [ ok u ↦ rest | err e ↦ (err (of_domain e), rows') ]

  unfoldable pub choose_source :
      Option String
      → Start
      → List FlaggedRow
      → Result StartError (SourceChoice × String) × List FlaggedRow
  unfolding flag_all synthetic_transactions
  choose_source (some url) s rows = (ok (horizon url, "horizon"), rows)
  choose_source none s rows =
      let (done, rows') = flag_all demo_flagged_accounts s rows in
      (
        elim done [
          | ok u ↦ ok (mock (Mock.new (synthetic_transactions s.now)), "demo")
          | err e ↦ err e
        ],
        rows',
      )

  abbrev pub wiring_of : Config → SourceChoice × String → Wiring
  wiring_of config (source, source_name) = record {
    advisor = choose_advisor config.anthropic_api_key config.anthropic_model;
    anchor =
        choose_anchor config.soroban_contract_id config.soroban_network
          config.soroban_source_account;
    source = source;
    source_name = source_name;
    settings = record {
      rule_registry = with_built_ins;
      rules_config = default_rules_config;
      scoring_config = default_scoring_config;
      history_lookback = seconds (pos 600);
      history_baseline_window = seconds (pos 86400);
    };
    jwt_secret = config.jwt_secret;
  }

  -- After the administrator's row.
  unfoldable pub finish :
      Config
      → Start
      → List FlaggedRow
      → Result StartError (Unit {0}) × List InvestigatorRow
      → Result StartError Wiring × Database
  unfolding choose_source choose_advisor choose_anchor
  finish config s flagged (err e, rows) =
      (err e, record { investigators = rows; flagged_accounts = flagged })
  finish config s flagged (ok u, rows) =
      let (source, flagged') = choose_source config.horizon_url s flagged in
      (
        elim source [ ok c ↦ ok (wiring_of config c) | err e ↦ err e ],
        record { investigators = rows; flagged_accounts = flagged' },
      )

  unfoldable pub bootstrap : Config → Start → Database → Result StartError Wiring × Database
  unfolding seed_admin finish
  bootstrap config s db = finish config s db.flagged_accounts (seed_admin config s db.investigators)
