-- ===== src/Advisor/Answered.antt =====
-- When crates/ai_advisor/src/client.rs answers with an advisory, and what it then says.
use stellar_risk.Common.{
  true, false, some, [], ◌∷◌, ◌≡◌, refl, inl, inr, Result, ok, ◌>>=◌, map_err, bind_ok, map_err_ok,
  ok_inj, ok_or_ok, Bool-cases, arith, ok_or,
}
use stellar_risk.Common.Text.{is_blank, concat, trim}
use stellar_risk.Platform.{Platform, Json, Items}
use stellar_risk.Domain.Alert.{AiAdvisory, ai_advisory_disclaimer}
use stellar_risk.Advisor.Request.{AdvisoryRequest}
use stellar_risk.Advisor.Validate.{
  AdvisorError, network, invalid_response, RawAdvisoryInput, SanitizedAdvisory, max_text_len,
  allowed_risk_levels, sanitize_text, sanitize_list, risk_level_of, validate_and_sanitize,
}
use stellar_risk.Advisor.Sanitized.{IsSafe, validate_and_sanitize-Validated}
use stellar_risk.Advisor.Client.{
  AnthropicAdvisor, HttpReply, Transport, get, as_array, find_call, input_of, is_refusal,
  http_request, payload_of, tool_input, read_input, advisory_of, investigate,
}

module _ ⦃p : Platform⦄ where
  open p use {F64, DateTime, f64, f64_clamp, to_f32}

  -- Each part of the advisory is what the validation makes of the same part of the call.
  pub record IsTaken (raw : RawAdvisoryInput) (advisory : AiAdvisory) : Type 0 where
    pub summary : advisory.summary ≡ sanitize_text raw.summary max_text_len
    pub signals : advisory.suspicious_signals ≡ sanitize_list raw.suspicious_signals
    pub history : advisory.relevant_history ≡ sanitize_text raw.relevant_history max_text_len
    pub level :
        advisory.risk_assessment.level ≡ risk_level_of allowed_risk_levels (trim raw.risk_level)
    pub rationale :
        advisory.risk_assessment.rationale ≡ sanitize_text raw.risk_rationale max_text_len
    pub steps : advisory.recommended_next_steps ≡ sanitize_list raw.recommended_next_steps
    pub confidence : advisory.confidence ≡ to_f32 (f64_clamp raw.confidence (f64 0) (f64 1))
    pub explanation : advisory.explanation ≡ sanitize_text raw.explanation max_text_len

  -- The parts of an advisory that come from the call.
  abbrev pub parts_of : AiAdvisory → SanitizedAdvisory
  parts_of advisory = record {
    summary = advisory.summary;
    suspicious_signals = advisory.suspicious_signals;
    relevant_history = advisory.relevant_history;
    risk_assessment = advisory.risk_assessment;
    recommended_next_steps = advisory.recommended_next_steps;
    confidence = advisory.confidence;
    explanation = advisory.explanation;
  }

  module _ (t : Transport) (a : AnthropicAdvisor) where
    -- Where an advisory comes from: a successful reply, which is no refusal, whose content has a call
    -- of the tool, whose input is read as `raw`; its parts are those of that input, made safe, and the
    -- alert, the time, the model and the disclaimer are not the provider's.
    pub record IsAnswered (now : DateTime) (request : AdvisoryRequest) (advisory : AiAdvisory)
        : Type 0 where
      pub reply : HttpReply
      pub payload : Json F64
      pub input : Json F64
      pub raw : RawAdvisoryInput
      pub replied : t.send (http_request t a request) ≡ ok reply
      pub succeeded : reply.is_success ≡ true
      pub parsed : reply.json ≡ ok payload
      pub accepted : is_refusal payload ≡ false
      pub called :
          (content : Items F64) × (as_array (get "content" payload) ≡ some content)
          × (input_of (find_call content) ≡ some input)
      pub read : t.from_value input ≡ ok raw
      pub nonblank : is_blank raw.summary ≡ false
      pub taken : IsTaken raw advisory
      pub safe : IsSafe raw (parts_of advisory)
      pub asked : advisory.alert_id ≡ request.alert_id
      pub timed : advisory.generated_at ≡ now
      pub answering : advisory.model ≡ a.model
      pub disclaimed : advisory.disclaimer ≡ ai_advisory_disclaimer

    payload_of-ok :
        (reply : HttpReply) (payload : Json F64)
        → payload_of reply ≡ ok payload
        → (reply.is_success ≡ true) × (reply.json ≡ ok payload)
    unfolding payload_of
    payload_of-ok reply payload h =
        ground (arith, h, map_err_ok (λ m. invalid_response m) reply.json payload)

    tool_input-ok :
        (payload input : Json F64)
        → tool_input payload ≡ ok input
        → (is_refusal payload ≡ false)
          × ((content : Items F64) × (as_array (get "content" payload) ≡ some content)
              × (input_of (find_call content) ≡ some input))
    unfolding tool_input
    tool_input-ok payload input h = elim (Bool-cases (is_refusal payload)) [
      | inl e ↦ absurd (cc (h, e))
      | inr e ↦
          let (content, found, call) =
            bind_ok
              (ok_or (as_array (get "content" payload)) (invalid_response "missing content array"))
              (λ content.
                ok_or (input_of (find_call content))
                  (invalid_response "no submit_fraud_advisory tool call in response"))
              input (rw e at h) in
          (
            e,
            (
              content,
              ok_or_ok (as_array (get "content" payload)) (invalid_response "missing content array")
                  content found,
              ok_or_ok (input_of (find_call content))
                  (invalid_response "no submit_fraud_advisory tool call in response") input call,
            ),
          )
    ]

    IsSafe-validate_and_sanitize :
        (raw : RawAdvisoryInput) (s : SanitizedAdvisory)
        → validate_and_sanitize raw ≡ ok s
        → (is_blank raw.summary ≡ false) × IsSafe raw s
    IsSafe-validate_and_sanitize raw s h = rw h at (validate_and_sanitize-Validated raw)

    IsTaken-advisory_of :
        (raw : RawAdvisoryInput) (s : SanitizedAdvisory) (now : DateTime)
        (request : AdvisoryRequest)
        → validate_and_sanitize raw ≡ ok s
        → IsTaken raw (advisory_of t a request now s)
    unfolding validate_and_sanitize
    IsTaken-advisory_of raw s now request h = elim (Bool-cases (is_blank raw.summary)) [
      | inl e ↦ absurd (cc (rw e at h))
      | inr e ↦
          let same = ok_inj (rw e at h) in
          rw (← same) (record {
            summary = refl;
            signals = refl;
            history = refl;
            level = refl;
            rationale = refl;
            steps = refl;
            confidence = refl;
            explanation = refl;
          })
    ]

    -- What `investigate` goes on with after each step.
    abbrev after_read :
        DateTime → AdvisoryRequest → RawAdvisoryInput → Result AdvisorError AiAdvisory
    after_read now request raw =
        validate_and_sanitize raw >>= λ s. ok (advisory_of t a request now s)

    abbrev after_call : DateTime → AdvisoryRequest → Json F64 → Result AdvisorError AiAdvisory
    after_call now request input = read_input t a input >>= after_read now request

    abbrev after_payload : DateTime → AdvisoryRequest → Json F64 → Result AdvisorError AiAdvisory
    after_payload now request payload = tool_input payload >>= after_call now request

    abbrev after_reply : DateTime → AdvisoryRequest → HttpReply → Result AdvisorError AiAdvisory
    after_reply now request reply = payload_of reply >>= after_payload now request

    -- Whenever the client answers with an advisory, a successful reply that is no refusal has a call of
    -- the tool whose summary is not blank; each text and list of the advisory is the sanitised one of
    -- the same name in that call, its risk level the word of the vocabulary that the call's is, or
    -- `unspecified`, and its confidence the call's, clamped; all of these are safe; and it is about the
    -- alert that was asked about, at the time of the call, with the model that was asked and the
    -- program's own disclaimer.
    pub investigate-IsAnswered :
        (now : DateTime) (request : AdvisoryRequest) (advisory : AiAdvisory)
        → investigate t a now request ≡ ok advisory
        → IsAnswered now request advisory
    unfolding investigate read_input
    investigate-IsAnswered now request advisory h =
        let (reply, h1, k1) =
          bind_ok (map_err (λ m. network m) (t.send (http_request t a request)))
            (after_reply now request) advisory h in
        let (payload, h2, k2) =
          bind_ok (payload_of reply) (after_payload now request) advisory k1 in
        let (input, h3, k3) = bind_ok (tool_input payload) (after_call now request) advisory k2 in
        let (raw, h4, k4) = bind_ok (read_input t a input) (after_read now request) advisory k3 in
        let (s, h5, k5) =
          bind_ok (validate_and_sanitize raw) (λ s. ok (advisory_of t a request now s)) advisory
            k4 in
        let (succeeded, parsed) = payload_of-ok reply payload h2 in
        let (accepted, called) = tool_input-ok payload input h3 in
        let (nonblank, safe) = IsSafe-validate_and_sanitize raw s h5 in
        let same = ok_inj k5 in
        rw (← same) (record {
          reply = reply;
          payload = payload;
          input = input;
          raw = raw;
          replied = map_err_ok (λ m. network m) (t.send (http_request t a request)) reply h1;
          succeeded = succeeded;
          parsed = parsed;
          accepted = accepted;
          called = called;
          read =
              map_err_ok (λ e. invalid_response (concat ("malformed tool input: " ∷ e ∷ [])))
                (t.from_value input) raw h4;
          nonblank = nonblank;
          taken = IsTaken-advisory_of raw s now request h5;
          safe = safe;
          asked = refl;
          timed = refl;
          answering = refl;
          disclaimed = refl;
        })
