-- ===== src/Advisor/Schema.antt =====
-- The tool and the prompt that crates/ai_advisor/src/client.rs sends to the model.
use stellar_risk.Common.{String, true, false, List, [], ◌∷◌, map}
use stellar_risk.Common.Int.{pos}
use stellar_risk.Platform.{
  Platform, Json, Items, Fields, text, int, boolean, array, object, nil, cons, end, field,
}

abbrev pub default_model : String
default_model = "claude-opus-5"

abbrev pub anthropic_version : String
anthropic_version = "2023-06-01"

abbrev pub tool_name : String
tool_name = "submit_fraud_advisory"

abbrev pub system_prompt : String
system_prompt =
    "You are a fraud/anomaly triage assistant for a Stellar blockchain risk system. You analyze transactions that a deterministic rules engine has already flagged, and produce a structured, advisory-only assessment for a human investigator. You are strictly advisory: you never approve, reject, freeze, reverse, or block a transaction, and nothing you output is treated as a decision. Base your assessment only on the rule triggers, transaction data, and history summary provided — do not invent account history, identities, or off-chain facts you were not given. Call the submit_fraud_advisory tool exactly once with your assessment."

module _ ⦃p : Platform⦄ where
  open p use {F64}

  abbrev text_of : String → Json F64
  text_of s = text s

  abbrev items : List (Json F64) → Items F64
  items [] = nil
  items (j ∷ js) = cons j (items js)

  abbrev fields : List (String × Json F64) → Fields F64
  fields [] = end
  fields ((k, j) ∷ fs) = field k j (fields fs)

  -- The literals of `json!`.
  abbrev pub json_array : List (Json F64) → Json F64
  json_array js = array (items js)

  abbrev pub json_object : List (String × Json F64) → Json F64
  json_object fs = object (fields fs)

  unfoldable pub tool_properties : Json F64
  tool_properties = json_object (
      (
        "summary",
        json_object (
            ("type", text "string")
            ∷ ("description", text "Concise summary of the transaction and why it was flagged.")
            ∷ []),
      )
      ∷ (
        "suspicious_signals",
        json_object (
            ("type", text "array")
            ∷ ("items", json_object (("type", text "string") ∷ []))
            ∷ ("description", text "The specific suspicious signals detected.")
            ∷ []),
      )
      ∷ (
        "relevant_history",
        json_object (
            ("type", text "string")
            ∷ (
              "description",
              text "Relevant context from the account's available transaction history.",
            )
            ∷ []),
      )
      ∷ (
        "risk_level",
        json_object (
            ("type", text "string")
            ∷ ("enum", json_array (map text_of ("low" ∷ "elevated" ∷ "high" ∷ "critical" ∷ [])))
            ∷ []),
      )
      ∷ (
        "risk_rationale",
        json_object (
            ("type", text "string")
            ∷ ("description", text "Why this risk level, in plain terms.")
            ∷ []),
      )
      ∷ (
        "recommended_next_steps",
        json_object (
            ("type", text "array")
            ∷ ("items", json_object (("type", text "string") ∷ []))
            ∷ ("description", text "Concrete next investigative steps for a human investigator.")
            ∷ []),
      )
      ∷ (
        "confidence",
        json_object (
            ("type", text "number")
            ∷ ("minimum", int (pos 0))
            ∷ ("maximum", int (pos 1))
            ∷ ("description", text "Confidence in this assessment, 0 to 1.")
            ∷ []),
      )
      ∷ (
        "explanation",
        json_object (
            ("type", text "string")
            ∷ ("description", text "Brief explanation of the reasoning behind this assessment.")
            ∷ []),
      )
      ∷ [])

  unfoldable pub tool_schema : Json F64
  unfolding tool_properties
  tool_schema = json_object (
      ("name", text tool_name)
      ∷ (
        "description",
        text
            "Submit a structured, advisory-only fraud investigation assessment for a flagged Stellar transaction. This is never a final decision — a human investigator makes that call separately.",
      )
      ∷ ("strict", boolean true)
      ∷ (
        "input_schema",
        json_object (
            ("type", text "object")
            ∷ ("properties", tool_properties)
            ∷ (
              "required",
              json_array (
                  map text_of (
                    "summary" ∷ "suspicious_signals" ∷ "relevant_history" ∷ "risk_level"
                    ∷ "risk_rationale" ∷ "recommended_next_steps" ∷ "confidence" ∷ "explanation"
                    ∷ [])),
            )
            ∷ ("additionalProperties", boolean false)
            ∷ []),
      )
      ∷ [])
