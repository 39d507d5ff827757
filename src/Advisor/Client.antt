-- ===== src/Advisor/Client.antt =====
-- crates/ai_advisor/src/client.rs: the request to the model's provider and what becomes of its reply.
-- The HTTP client, `serde` and the clock are parameters.
use stellar_risk.Common.{
  String, Bool, false, Option, none, some, List, [], ◌∷◌, ◌==◌, ◌&&◌, if◌then◌else◌, Result, ok,
  err, ◌>>=◌, map_err, ok_or,
}
use stellar_risk.Common.Int.{pos}
use stellar_risk.Common.Text.{concat}
use stellar_risk.Platform.{
  Platform, Json, Items, Fields, text, int, array, object, nil, cons, end, entry,
}
use stellar_risk.Domain.Alert.{AiAdvisory, ai_advisory_disclaimer}
use stellar_risk.Advisor.Request.{AdvisoryRequest, AiAdvisor, or_empty}
use stellar_risk.Advisor.Validate.{
  AdvisorError, network, provider, invalid_response, not_configured, RawAdvisoryInput,
  SanitizedAdvisory, validate_and_sanitize,
}
use stellar_risk.Advisor.Schema.{
  default_model, anthropic_version, tool_name, system_prompt, json_array, json_object, tool_schema,
}

-- The `Display` text of an error.
unfoldable pub display : AdvisorError → String
display (network m) = concat ("network error: " ∷ m ∷ [])
display (provider m) = concat ("AI provider returned an error: " ∷ m ∷ [])
display (invalid_response m) = concat ("AI response failed validation: " ∷ m ∷ [])
display not_configured = "AI advisor not configured"

pub record AnthropicAdvisor : Type 0 where
  pub base_url : String
  pub api_key : String
  pub model : String

-- `AnthropicAdvisor::new`, `with_base_url` and `with_model`
abbrev pub new : String → AnthropicAdvisor
new api_key = record {
  base_url = "https://api.anthropic.com";
  api_key = api_key;
  model = default_model;
}

abbrev pub with_base_url : String → AnthropicAdvisor → AnthropicAdvisor
with_base_url url a = record a { base_url = url }

abbrev pub with_model : String → AnthropicAdvisor → AnthropicAdvisor
with_model model a = record a { model = model }

abbrev pub or_default : Result String String → String
or_default (ok s) = s
or_default (err e) = ""

module _ ⦃p : Platform⦄ where
  open p use {F64, DateTime}

  pub record HttpRequest : Type 0 where
    pub url : String
    pub headers : List (String × String)
    pub body : Json F64

  pub record HttpReply : Type 0 where
    pub is_success : Bool
    pub status : String
    pub content : Result String String
    pub json : Result String (Json F64)

  -- `reqwest`, `serde_json::to_value`, `to_string` and `from_value`.
  pub record Transport : Type 0 where
    pub send : HttpRequest → Result String HttpReply
    pub to_value : AdvisoryRequest → Result String (Json F64)
    pub to_string : Json F64 → Result String String
    pub from_value : Json F64 → Result String RawAdvisoryInput

  -- `Value::get` of a key, `as_str` and `as_array`.
  abbrev find_field : String → Fields F64 → Option (Json F64)
  find_field key end = none
  find_field key (entry k v fs) = if k == key then some v else find_field key fs

  abbrev pub get : String → Json F64 → Option (Json F64)
  get key (object fs) = find_field key fs
  get key _ = none

  abbrev pub as_str : Option (Json F64) → Option String
  as_str (some (text s)) = some s
  as_str _ = none

  abbrev pub as_array : Option (Json F64) → Option (Items F64)
  as_array (some (array js)) = some js
  as_array _ = none

  abbrev pub says : String → Option String → Bool
  says s none = false
  says s (some t) = t == s

  -- A block that calls the tool.
  abbrev pub is_call : Json F64 → Bool
  is_call block =
      says "tool_use" (as_str (get "type" block)) && says tool_name (as_str (get "name" block))

  unfoldable pub find_call : Items F64 → Option (Json F64)
  find_call nil = none
  find_call (cons block blocks) = if is_call block then some block else find_call blocks

  abbrev pub input_of : Option (Json F64) → Option (Json F64)
  input_of none = none
  input_of (some block) = get "input" block

  abbrev pub is_refusal : Json F64 → Bool
  is_refusal payload = says "refusal" (as_str (get "stop_reason" payload))

  -- The payload of a reply, which a status that is no success does not have.
  unfoldable pub payload_of : HttpReply → Result AdvisorError (Json F64)
  payload_of reply =
      if reply.is_success
      then map_err invalid_response reply.json
      else err (provider (concat ("HTTP " ∷ reply.status ∷ ": " ∷ or_default reply.content ∷ [])))

  unfoldable pub tool_input : Json F64 → Result AdvisorError (Json F64)
  unfolding find_call
  tool_input payload =
      if is_refusal payload
      then err (provider "model declined to respond (refusal)")
      else ok_or (as_array (get "content" payload)) (invalid_response "missing content array")
        >>= λ content.
            ok_or (input_of (find_call content))
              (invalid_response "no submit_fraud_advisory tool call in response")

  module _ (t : Transport) (a : AnthropicAdvisor) where
    unfoldable pub request_body : AdvisoryRequest → Json F64
    unfolding tool_schema
    request_body request = json_object (
        ("model", text a.model)
        ∷ ("max_tokens", int (pos 8000))
        ∷ ("system", text system_prompt)
        ∷ ("tools", json_array (tool_schema ∷ []))
        ∷ ("tool_choice", json_object (("type", text "tool") ∷ ("name", text tool_name) ∷ []))
        ∷ ("output_config", json_object (("effort", text "medium") ∷ []))
        ∷ (
          "messages",
          json_array (
              json_object (
                ("role", text "user")
                ∷ ("content", text (or_default (t.to_string (or_empty (t.to_value request)))))
                ∷ [])
              ∷ []),
        )
        ∷ [])

    unfoldable pub http_request : AdvisoryRequest → HttpRequest
    unfolding request_body
    http_request request = record {
      url = concat (a.base_url ∷ "/v1/messages" ∷ []);
      headers =
          ("content-type", "application/json")
          ∷ ("x-api-key", a.api_key)
          ∷ ("anthropic-version", anthropic_version)
          ∷ [];
      body = request_body request;
    }

    unfoldable pub read_input : Json F64 → Result AdvisorError RawAdvisoryInput
    read_input input =
        map_err (λ e. invalid_response (concat ("malformed tool input: " ∷ e ∷ [])))
          (t.from_value input)

    abbrev pub advisory_of : AdvisoryRequest → DateTime → SanitizedAdvisory → AiAdvisory
    advisory_of request now s = record {
      alert_id = request.alert_id;
      generated_at = now;
      summary = s.summary;
      suspicious_signals = s.suspicious_signals;
      relevant_history = s.relevant_history;
      risk_assessment = s.risk_assessment;
      recommended_next_steps = s.recommended_next_steps;
      confidence = s.confidence;
      explanation = s.explanation;
      model = a.model;
      disclaimer = ai_advisory_disclaimer;
    }

    unfoldable pub investigate : DateTime → AdvisoryRequest → Result AdvisorError AiAdvisory
    unfolding http_request payload_of tool_input read_input validate_and_sanitize
    investigate now request = map_err network (t.send (http_request request)) >>= λ reply.
        payload_of reply >>= λ payload. tool_input payload >>= λ input. read_input input >>= λ raw.
        validate_and_sanitize raw >>= λ sanitized. ok (advisory_of request now sanitized)

    -- The advisor as the pipeline takes it: an error by its text.
    unfoldable pub as_advisor : DateTime → AiAdvisor
    unfolding investigate display
    as_advisor now = record {
      to_value = t.to_value;
      investigate = λ request. map_err display (investigate now request);
    }

  -- `NullAdvisor`
  unfoldable pub null_advisor : AdvisoryRequest → Result AdvisorError AiAdvisory
  null_advisor request = err not_configured
