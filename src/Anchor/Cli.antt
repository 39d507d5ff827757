-- ===== src/Anchor/Cli.antt =====
-- crates/soroban_anchor/src/cli.rs, anchor.rs and error.rs: the anchor that runs the `stellar` program.
-- The program's run and the clock are parameters.
use Prim.Native.Char.{code}
use stellar_risk.Common.{
  ℕ, zero, suc, ◌/◌, ◌%◌, ◌++◌, String, Bool, Option, none, some, List, [], ◌∷◌, if◌then◌else◌,
  Result, ok, err,
}
use stellar_risk.Common.Text.{concat, trim, is_blank}
use stellar_risk.Platform.{Platform, Uuid}

pub data AnchorError : Type 0 where
  not_configured cli_not_found : AnchorError
  cli_failed : String → AnchorError

-- The `Display` text of an error.
unfoldable pub display : AnchorError → String
display not_configured = "on-chain anchoring not configured"
display (cli_failed m) = concat ("stellar CLI invocation failed: " ∷ m ∷ [])
display cli_not_found = "stellar CLI not found on PATH"

pub record CliSorobanAnchor : Type 0 where
  pub binary : String
  pub contract_id : String
  pub network : String
  pub source_account : String

abbrev pub new : String → String → String → CliSorobanAnchor
new contract_id network source_account = record {
  binary = "stellar";
  contract_id = contract_id;
  network = network;
  source_account = source_account;
}

abbrev pub with_binary : String → CliSorobanAnchor → CliSorobanAnchor
with_binary binary a = record a { binary = binary }

unfoldable pub build_args : CliSorobanAnchor → String → String → List String
build_args a alert_id_hash_hex decision_hash_hex =
    "contract" ∷ "invoke" ∷ "--id" ∷ a.contract_id ∷ "--source" ∷ a.source_account ∷ "--network"
    ∷ a.network ∷ "--" ∷ "anchor" ∷ "--alert_id_hash" ∷ alert_id_hash_hex ∷ "--decision_hash"
    ∷ decision_hash_hex ∷ []

-- The bytes of an ASCII text, and those of a number of `n` bytes, the highest first.
abbrev ascii : String → List ℕ
ascii String.[] = []
ascii (String.◌∷◌ c s) = code c ∷ ascii s

abbrev pub bytes_of : ℕ → ℕ → List ℕ
bytes_of zero n = []
bytes_of (suc k) n = bytes_of k (n / 256) ++ n % 256 ∷ []

-- What is hashed for an alert.
unfoldable pub alert_bytes : Uuid → List ℕ
alert_bytes alert_id = ascii "stellarrisk:alert:" ++ bytes_of 16 alert_id

-- Why a program could not be run, and what one that ran printed.
pub data RunError : Type 0 where
  program_missing : RunError
  run_failed : String → RunError

pub record Output : Type 0 where
  pub success : Bool
  pub stdout : String
  pub stderr : String

abbrev pub run_error : RunError → AnchorError
run_error program_missing = cli_not_found
run_error (run_failed m) = cli_failed m

module _ ⦃p : Platform⦄ where
  open p use {DateTime, sha256, hex_encode}

  pub record AnchorReceipt : Type 0 where
    pub tx_hash : Option String
    pub anchored_at : DateTime

  -- After the run.
  unfoldable pub receipt : DateTime → Result RunError Output → Result AnchorError AnchorReceipt
  receipt now (err e) = err (run_error e)
  receipt now (ok output) =
      if output.success
      then ok (record {
        tx_hash = if is_blank output.stdout then none else some (trim output.stdout);
        anchored_at = now;
      })
      else err (cli_failed (trim output.stderr))

  unfoldable pub hash_alert_id : Uuid → List ℕ
  unfolding alert_bytes
  hash_alert_id alert_id = sha256 (alert_bytes alert_id)

  unfoldable pub anchor_decision :
      (String → List String → Result RunError Output)
      → CliSorobanAnchor
      → Uuid
      → List ℕ
      → DateTime
      → Result AnchorError AnchorReceipt
  unfolding build_args receipt hash_alert_id
  anchor_decision run a alert_id decision_commitment now = receipt now (
      run a.binary
        (build_args a (hex_encode (hash_alert_id alert_id)) (hex_encode decision_commitment)))

  -- `NoopAnchor`
  unfoldable pub noop_anchor : Uuid → List ℕ → Result AnchorError AnchorReceipt
  noop_anchor alert_id decision_commitment = err not_configured
