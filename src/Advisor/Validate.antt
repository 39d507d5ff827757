-- ===== src/Advisor/Validate.antt =====
-- crates/ai_advisor/src/validate.rs, and the errors of error.rs.
use stellar_risk.Common.{
  ℕ, String, Bool, not, ◌&&◌, ◌||◌, List, [], ◌∷◌, leb, nat_eq, if◌then◌else◌, take, map, Result,
  ok, err,
}
use stellar_risk.Common.Text.{is_blank, trim, take_chars, filter_chars, contains, lowers_to}
use stellar_risk.Platform.{Platform}
use stellar_risk.Domain.Alert.{RiskAssessment}

pub data AdvisorError : Type 0 where
  network provider invalid_response : String → AdvisorError
  not_configured : AdvisorError

abbrev pub max_text_len : ℕ
max_text_len = 2000

abbrev pub max_short_len : ℕ
max_short_len = 300

abbrev pub max_list_items : ℕ
max_list_items = 10

abbrev pub allowed_risk_levels : List String
allowed_risk_levels = "low" ∷ "elevated" ∷ "high" ∷ "critical" ∷ []

-- `char::is_control`: the general category Cc.
abbrev pub is_control : ℕ → Bool
is_control c = leb c 31 || leb 127 c && leb c 159

-- A newline, a tab, or no control character.
abbrev pub is_kept : ℕ → Bool
is_kept c = nat_eq c 10 || nat_eq c 9 || not (is_control c)

abbrev pub is_no_angle : ℕ → Bool
is_no_angle c = not (nat_eq c 60) && not (nat_eq c 62)

-- The codes of `<script`.
abbrev pub script : List ℕ
script = 60 ∷ 115 ∷ 99 ∷ 114 ∷ 105 ∷ 112 ∷ 116 ∷ []

unfoldable pub clean : String → String
clean stripped = if contains script stripped then filter_chars is_no_angle stripped else stripped

unfoldable pub sanitize_text : String → ℕ → String
unfolding clean
sanitize_text input max_len = take_chars max_len (clean (filter_chars is_kept input))

unfoldable pub sanitize_list : List String → List String
unfolding sanitize_text
sanitize_list xs = map (λ s. sanitize_text s max_short_len) (take max_list_items xs)

-- The allowed word that the lowered text is, or `unspecified`.
unfoldable pub risk_level_of : List String → String → String
risk_level_of [] s = "unspecified"
risk_level_of (w ∷ ws) s = if lowers_to s w then w else risk_level_of ws s

module _ ⦃p : Platform⦄ where
  open p use {F64, F32, f64, f64_clamp, to_f32}

  pub record RawAdvisoryInput : Type 0 where
    pub summary : String
    pub suspicious_signals : List String
    pub relevant_history : String
    pub risk_level : String
    pub risk_rationale : String
    pub recommended_next_steps : List String
    pub confidence : F64
    pub explanation : String

  pub record SanitizedAdvisory : Type 0 where
    pub summary : String
    pub suspicious_signals : List String
    pub relevant_history : String
    pub risk_assessment : RiskAssessment
    pub recommended_next_steps : List String
    pub confidence : F32
    pub explanation : String

  unfoldable pub validate_and_sanitize : RawAdvisoryInput → Result AdvisorError SanitizedAdvisory
  unfolding sanitize_text sanitize_list risk_level_of
  validate_and_sanitize raw =
      if is_blank raw.summary
      then err (invalid_response "summary was empty")
      else ok (record {
        summary = sanitize_text raw.summary max_text_len;
        suspicious_signals = sanitize_list raw.suspicious_signals;
        relevant_history = sanitize_text raw.relevant_history max_text_len;
        risk_assessment = record {
          level = risk_level_of allowed_risk_levels (trim raw.risk_level);
          rationale = sanitize_text raw.risk_rationale max_text_len;
        };
        recommended_next_steps = sanitize_list raw.recommended_next_steps;
        confidence = to_f32 (f64_clamp raw.confidence (f64 0) (f64 1));
        explanation = sanitize_text raw.explanation max_text_len;
      })
