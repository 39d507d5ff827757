-- ===== src/Tests/Rows.antt =====
-- The alert table of crates/storage over libraries that read back what they write.
use stellar_risk.Common.{
  sym, ◌∙◌, ◌==◌, if◌then◌else◌, ok_inj, ℕ, zero, suc, ◌≡◌, refl, ap, String, some, List, [], ◌∷◌,
  Result, ok, err, arith,
}
use stellar_risk.Common.Text.{count_chars}
use stellar_risk.Platform.{Platform, text, object, field, end}
use stellar_risk.Domain.Rule.{RuleTrigger}
use stellar_risk.Codec.{Codec}
use stellar_risk.Domain.Severity
use stellar_risk.Domain.Severity.{high, from_str}
use stellar_risk.Domain.AlertStatus
use stellar_risk.Domain.AlertStatus.{«open»}
use stellar_risk.Domain.Decision
use stellar_risk.Domain.Decision.{escalated}
use stellar_risk.Domain.Alert.{
  Alert, AiAdvisoryStatus, pending, unavailable, InvestigatorDecisionRecord,
}
use stellar_risk.Storage.AlertTable.{AlertTables, get}
use stellar_risk.Storage.Readable.{HaveTexts, IsReadBack}
use stellar_risk.Storage.Views.{healthy}
use stellar_risk.Storage.Projection.{Write, inserting, advising, deciding, write_all}
use stellar_risk.Storage.Agree.{Agrees, Simulated, replayed, alert_store_refines, stores_agree}
use stellar_risk.Alerts.Memory
use stellar_risk.Toy

-- A number as so many strokes.
abbrev strokes : ℕ → String
strokes zero = ""
strokes (suc n) = String.◌∷◌ "|" (strokes n)

abbrev counted : String → Result String ℕ
counted s = ok (count_chars s)

count_chars-strokes : (n : ℕ) → count_chars (strokes n) ≡ n
unfolding count_chars
count_chars-strokes zero = refl
count_chars-strokes (suc n) = omega (arith, count_chars-strokes n)

instance abbrev platform : Platform
platform = record Toy.toy {
  to_rfc3339 = strokes;
  parse_rfc3339 = counted;
  uuid_text = strokes;
  parse_uuid = counted;
}

abbrev trigger : RuleTrigger
trigger = record {
  rule_id = "velocity";
  rule_name = "Velocity";
  reason = "6 transactions";
  weight = 25;
  evidence = object (field "account" (text "alice") end);
}

abbrev refused : AiAdvisoryStatus
refused = unavailable "no key" 7

abbrev status_text : AiAdvisoryStatus → Result String String
status_text pending = ok "pending"
status_text _ = ok "unavailable"

-- A serialiser for the values of the tests.
instance abbrev codec : Codec
codec = record {
  event_text = λ e. ok "event";
  read_event = λ s. err "unread";
  transaction_text = λ t. ok "transaction";
  movements_text = λ ms. ok "movements";
  read_movements = λ s. ok [];
  texts_text = λ xs. ok "[\"alice\",\"bob\"]";
  read_texts = λ s. ok ("alice" ∷ "bob" ∷ []);
  assets_text = λ xs. ok "assets";
  read_assets = λ s. ok (Toy.usdc ∷ []);
  triggers_text = λ xs. ok "triggers";
  read_triggers = λ s. ok (trigger ∷ []);
  ai_status_text = status_text;
  read_ai_status = λ s. if s == "pending" then ok pending else ok refused;
}

texts_differ : HaveTexts
texts_differ i j e = sym (count_chars-strokes i) ∙ ap count_chars e ∙ count_chars-strokes j

abbrev alert : Alert
alert = record {
  id = 9;
  tx_id = "t1";
  accounts = "alice" ∷ "bob" ∷ [];
  assets = Toy.usdc ∷ [];
  created_at = 5;
  triggered_rules = trigger ∷ [];
  score = 70;
  severity = high;
  status = «open»;
  ai_status = pending;
}

abbrev scored : ℕ → Alert
scored n = record alert { score = n }

alert_read : (n : ℕ) → IsReadBack (scored n)
alert_read n = record {
  uuid = ap ok (count_chars-strokes 9);
  rfc3339 = ap ok (count_chars-strokes 5);
  texts = λ s h. refl;
  assets = λ s h. refl;
  triggers = λ s h. refl;
  ai_status = λ s h. rw (← ok_inj h) refl;
}

refused_read : (s : String) → status_text refused ≡ ok s → codec.read_ai_status s ≡ ok refused
refused_read s h = rw (← ok_inj h) refl

abbrev decided : InvestigatorDecisionRecord
decided = record {
  id = 3;
  alert_id = 9;
  investigator_id = "i1";
  decision = escalated;
  rationale = "odd";
  created_at = 60;
}

abbrev no_rows : AlertTables
no_rows = record { alerts = []; decisions = [] }

alert_store_refines_example : Simulated (inserting alert healthy "taken") no_rows Memory.empty
unfolding get Memory.get Memory.lookup
alert_store_refines_example =
    alert_store_refines (inserting alert healthy "taken") no_rows Memory.empty texts_differ
      (alert_read 70) (λ id. refl)

-- The second insertion is refused, and so is a decision over a database that fails.
abbrev calls : List Write
calls =
    inserting alert healthy "taken"
    ∷ inserting (scored 90) healthy "taken"
    ∷ deciding decided (λ i. some "disk full") "taken"
    ∷ advising 9 refused healthy
    ∷ deciding decided healthy "taken"
    ∷ []

stores_agree_example : Agrees (write_all calls no_rows) (replayed calls no_rows Memory.empty)
unfolding get Memory.get Memory.lookup
stores_agree_example =
    stores_agree calls no_rows Memory.empty texts_differ
      (alert_read 70, (alert_read 90, (tt, (refused_read, (tt, tt))))) (λ id. refl)

run_shows_decision :
    get 9 healthy (write_all calls no_rows)
    ≡ ok (some (record alert { status = AlertStatus.escalated; ai_status = refused }))
unfolding get write_all from_str Severity.as_str Decision.to_status AlertStatus.as_str
    AlertStatus.from_str count_chars
run_shows_decision = refl
