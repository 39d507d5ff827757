-- ===== src/Api/Demo.antt =====
-- crates/api/src/demo.rs: what is replayed and flagged where no Horizon server is configured.
use stellar_risk.Common.{ℕ, true, ◌-◌, ◌*◌, String, none, some, List, [], ◌∷◌, ◌++◌, map}
use stellar_risk.Common.Int.{pos}
use stellar_risk.Common.Text.{concat, show}
use stellar_risk.Platform.{Platform}
use stellar_risk.Domain.Transaction.{Asset, native, NormalizedTransaction}

abbrev pub demo_flagged_accounts : List (String × String)
demo_flagged_accounts =
    ("GKNOWNBADACTOR", "Previously confirmed suspicious in a prior investigation (demo seed data)")
    ∷ []

module _ ⦃p : Platform⦄ where
  open p use {DateTime, minus, seconds, decimal_of}

  unfoldable pub mk_tx : String → DateTime → String → String → Asset → ℕ → NormalizedTransaction
  mk_tx tx_id created_at from to asset amount = record {
    tx_id = tx_id;
    ledger = 1;
    created_at = created_at;
    source_account = from;
    fee_charged = pos 100;
    memo = none;
    operation_count = 1;
    successful = true;
    movements = record { asset = asset; from = from; to = to; amount = decimal_of amount } ∷ [];
    contract_ids = [];
  }

  -- One round of the loop; an hour and a minute are 3600 and 60 seconds.
  abbrev pub burst : DateTime → ℕ → NormalizedTransaction
  burst now i =
      mk_tx (concat ("demo-tx-velocity-" ∷ show i ∷ [])) (minus now (seconds (pos (50 - i * 8))))
        "GBURSTACCOUNT" "GRECIPIENTVARIES" native 100

  unfoldable pub synthetic_transactions : DateTime → List NormalizedTransaction
  unfolding mk_tx
  synthetic_transactions now =
      mk_tx "demo-tx-normal-1" (minus now (seconds (pos 7200))) "GNORMALALICE" "GNORMALBOB" native
          25
        ∷ mk_tx "demo-tx-large-transfer" (minus now (seconds (pos 1800))) "GWHALEACCOUNT"
            "GNEWCOUNTERPARTY" native 50000
        ∷ map (burst now) (0 ∷ 1 ∷ 2 ∷ 3 ∷ 4 ∷ 5 ∷ [])
      ++ mk_tx "demo-tx-flagged-counterparty" (minus now (seconds (pos 300))) "GUNSUSPECTINGUSER"
          "GKNOWNBADACTOR" (record { code = "USDC"; issuer = some "GISSUERUSDC" }) 1200
        ∷ []
