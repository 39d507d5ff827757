-- ===== src/Codec.antt =====
-- What `serde` derives for the program's own types and `serde_json` writes: generated code, so a
-- parameter of the definitions that serialise.
use stellar_risk.Common.{String, List, Result}
use stellar_risk.Platform.{Platform}
use stellar_risk.Domain.Transaction.{Asset, AssetMovement, NormalizedTransaction}
use stellar_risk.Domain.Rule.{RuleTrigger}
use stellar_risk.Domain.Alert.{AiAdvisoryStatus}
use stellar_risk.Domain.AuditEvent.{AuditEventKind}

-- Each is a `to_string` or a `from_str` at one type; the error is its text.
pub record Codec ⦃p : Platform⦄ : Type 0 where
  pub event_text : AuditEventKind → Result String String
  pub read_event : String → Result String AuditEventKind
  pub transaction_text : NormalizedTransaction → Result String String
  pub movements_text : List AssetMovement → Result String String
  pub read_movements : String → Result String (List AssetMovement)
  pub texts_text : List String → Result String String
  pub read_texts : String → Result String (List String)
  pub assets_text : List Asset → Result String String
  pub read_assets : String → Result String (List Asset)
  pub triggers_text : List RuleTrigger → Result String String
  pub read_triggers : String → Result String (List RuleTrigger)
  pub ai_status_text : AiAdvisoryStatus → Result String String
  pub read_ai_status : String → Result String AiAdvisoryStatus
