-- ===== src/Toy.antt =====
-- A concrete platform for the tests: floats, decimals, instants and durations are natural numbers,
-- and every digest is the same text. Nothing but the tests uses it.
use stellar_risk.Common.{
  ℕ, ◌+◌, ◌-◌, ◌*◌, ◌/◌, String, true, none, some, [], ◌∷◌, leb, ltb, if◌then◌else◌, Result, ok,
  err,
}
use stellar_risk.Common.Int.{ℤ, pos, negsuc}
use stellar_risk.Common.Text.{show, parse_usize}
use stellar_risk.Platform.{Platform}
use stellar_risk.Codec.{Codec}
use stellar_risk.Domain.Alert.{pending}
use stellar_risk.Domain.AuditEvent.{ai_advisory_unavailable}
use stellar_risk.Domain.Transaction.{Asset, AssetMovement, NormalizedTransaction}

abbrev at_most : ℕ → ℕ → ℕ
at_most a b = if leb a b then a else b

abbrev at_least : ℕ → ℕ → ℕ
at_least a b = if leb a b then b else a

abbrev number : String → Result String ℕ
number s = elim (parse_usize s) [ none ↦ err "no number" | some n ↦ ok n ]

abbrev pub natural : ℤ → ℕ
natural (pos n) = n
natural (negsuc n) = 0

instance abbrev pub toy : Platform
toy = record {
  F64 = ℕ;
  F32 = ℕ;
  Decimal = ℕ;
  DateTime = ℕ;
  Duration = ℕ;
  f64 = λ n. n;
  f64_of_int = natural;
  f64_add = λ a b. a + b;
  f64_mul = λ a b. a * b;
  f64_div = λ a b. a / b;
  f64_min = at_most;
  f64_max = at_least;
  f64_clamp = λ a low high. at_most (at_least a low) high;
  f64_ge = λ a b. leb b a;
  f64_gt = λ a b. ltb b a;
  f64_fixed = λ n a. show a;
  to_f32 = λ a. a;
  f32 = λ n. n;
  f32_mul = λ a b. a * b;
  f32_fixed = λ n a. show a;
  decimal_gt = λ a b. ltb b a;
  decimal_text = show;
  parse_decimal = parse_usize;
  decimal_of = λ n. n;
  le_time = leb;
  since = λ a b. a - b;
  minus = λ a b. a - b;
  le_duration = leb;
  seconds = natural;
  num_seconds = pos;
  to_rfc3339 = show;
  parse_rfc3339 = number;
  uuid_text = show;
  parse_uuid = number;
  to_vec = λ j. ok [];
  sha256 = λ bytes. bytes;
  hex_encode = λ bytes. "digest";
}

abbrev pub usdc : Asset
usdc = record { code = "USDC"; issuer = none }

abbrev pub payment : AssetMovement
payment = record { asset = usdc; from = "alice"; to = "bob"; amount = 20000 }

abbrev pub transfer : NormalizedTransaction
transfer = record {
  tx_id = "t1";
  ledger = 7;
  created_at = 50;
  source_account = "alice";
  fee_charged = pos 100;
  memo = none;
  operation_count = 1;
  successful = true;
  movements = payment ∷ [];
  contract_ids = [];
}

-- Every text of movements is read as the one payment.
instance abbrev pub toy_codec : Codec
toy_codec = record {
  event_text = λ e. ok "event";
  read_event = λ s. ok (ai_advisory_unavailable s);
  transaction_text = λ t. ok "transaction";
  movements_text = λ ms. ok "movements";
  read_movements = λ s. ok (payment ∷ []);
  texts_text = λ xs. ok "texts";
  read_texts = λ s. ok [];
  assets_text = λ xs. ok "assets";
  read_assets = λ s. ok (usdc ∷ []);
  triggers_text = λ xs. ok "triggers";
  read_triggers = λ s. ok [];
  ai_status_text = λ s. ok "pending";
  read_ai_status = λ s. ok pending;
}
