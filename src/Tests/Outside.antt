-- ===== src/Tests/Outside.antt =====
-- The components at the edges on concrete inputs: the contract of crates/soroban_anchor, the
-- validation of crates/ai_advisor, the replay of crates/ingestion.
use stellar_risk.Common.{
  ◌>>=◌, String, List, true, String, List, ℕ, ◌≡◌, refl, false, none, some, [], ◌∷◌, ok, arith,
  nat_eq,
}
use stellar_risk.Anchor.Contract.{Ledger, Env, get_anchor}
use stellar_risk.Anchor.Calls.{
  Call, initializing, anchoring, run, latest, run-latest, run_unauthorized,
}
use stellar_risk.Advisor.Validate.{RawAdvisoryInput, validate_and_sanitize}
use stellar_risk.Advisor.Sanitized.{Validated, validate_and_sanitize-Validated}
use stellar_risk.Ingestion.Mock.{MockTransactionSource}
use stellar_risk.Ingestion.Replay.{polls, polls-all}
use stellar_risk.Common.{Result, leb, if◌then◌else◌, ◌==◌}
use stellar_risk.Common.Int.{ℤ, pos}
use stellar_risk.Ingestion.Normalize.{HorizonTransactionRecord}
use stellar_risk.Ingestion.Horizon.{Reply, success, status, get_json, page_url}
use stellar_risk.Ingestion.Server.{Server, new, operations_url, poll_server}
use stellar_risk.Ingestion.Polled.{Polled, poll_server-count}
use stellar_risk.Ingestion.Fetching.{Returned, get_json-Returned, ids}
use stellar_risk.Toy.{toy, transfer}
use stellar_risk.Common.Text.{concat, parse_usize}
use stellar_risk.Ingestion.Normalize.{normalize_transaction}

abbrev owned : Ledger ℕ
owned = record { admin = some 1; anchors = [] }

-- One call with the authorisation of 1, and one without any.
abbrev by_admin : Env ℕ
by_admin = record { authorized = nat_eq 1; time = 70 }

abbrev by_nobody : Env ℕ
by_nobody = record { authorized = λ a. false; time = 71 }

run-latest_example :
    ((run (anchoring by_admin 5 6 ∷ anchoring by_nobody 5 7 ∷ []) owned).admin ≡ some 1)
    × (get_anchor 5 (run (anchoring by_admin 5 6 ∷ anchoring by_nobody 5 7 ∷ []) owned)
        ≡ latest 1 5 (anchoring by_admin 5 6 ∷ anchoring by_nobody 5 7 ∷ []) (get_anchor 5 owned))
run-latest_example =
    run-latest 1 5 (anchoring by_admin 5 6 ∷ anchoring by_nobody 5 7 ∷ []) owned refl

-- Another address tries to take the contract over, and the admin stores a commitment.
abbrev later : List (Call ℕ)
later = initializing 2 ∷ anchoring by_nobody 5 7 ∷ anchoring by_admin 5 6 ∷ []

run_unauthorized_example : run (initializing 2 ∷ anchoring by_nobody 5 7 ∷ []) owned ≡ owned
run_unauthorized_example =
    run_unauthorized 1 (initializing 2 ∷ anchoring by_nobody 5 7 ∷ []) owned refl (refl, (refl, tt))

abbrev pub raw : RawAdvisoryInput
raw = record {
  summary = "<SCRIPT>alert</script> odd";
  suspicious_signals = "one" ∷ "two" ∷ [];
  relevant_history = "";
  risk_level = " High ";
  risk_rationale = "";
  recommended_next_steps = [];
  confidence = 7;
  explanation = "";
}

validate_and_sanitize-Validated_example : Validated raw (validate_and_sanitize raw)
validate_and_sanitize-Validated_example = validate_and_sanitize-Validated raw

abbrev pub replay : MockTransactionSource
replay = record { transactions = transfer ∷ transfer ∷ transfer ∷ []; batch_size = 2 }

polls-all_example : polls 2 replay none ≡ transfer ∷ transfer ∷ transfer ∷ []
polls-all_example = polls-all 2 replay (omega arith) (omega arith) (omega arith)

-- A server that fails once and then answers.
abbrev flaky : ℕ → Reply String
flaky n = if leb n 1 then status "503" true else success (ok "page")

get_json-Returned_example : Returned 3 "url" flaky (get_json 3 "url" flaky)
get_json-Returned_example = get_json-Returned 3 "url" flaky

abbrev fee : String → Result String ℤ
fee s = ok (pos 100)

abbrev horizon_record : String → HorizonTransactionRecord
horizon_record hash = record {
  hash = hash;
  ledger = 1;
  created_at = "50";
  source_account = "alice";
  fee_charged = "100";
  operation_count = 1;
  successful = true;
  memo = none;
  paging_token = hash;
}

abbrev page : List HorizonTransactionRecord
page = horizon_record "h2" ∷ horizon_record "h1" ∷ []

-- The page comes at the second attempt, and the operations of one record never.
abbrev server : Server
server = record {
  pages = λ url n. if leb n 1 then status "503" true else success (ok page);
  operations =
      λ url n. if url == operations_url "base" "h1" then success (ok []) else Reply.broken "down";
}

poll_server-count_example : Polled fee (new "base") server none "h1"
poll_server-count_example = poll_server-count fee (new "base") server none "h1"

-- One record is a transaction and the other a failure.
polled_batch :
    poll_server fee (new "base") server none >>= (λ b. ok (ids b)) ≡ ok ("h1" ∷ "h2" ∷ [])
unfolding new poll_server page_url get_json concat normalize_transaction parse_usize
polled_batch = refl
