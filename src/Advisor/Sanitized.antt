-- ===== src/Advisor/Sanitized.antt =====
-- What crates/ai_advisor/src/validate.rs lets through of a model's answer.
use stellar_risk.Common.{
  ℕ, zero, suc, ◌≤◌, String, ◌≡◌, refl, ◌∙◌, Bool, true, false, List, [], ◌∷◌, ◌++◌, sym, eq_refl,
  arith, take, length, map, All, Result, ok, err, Bool-cases, inl, inr, length-take, length-map,
}
use stellar_risk.Common.Text.{
  is_blank, trim, take_chars, count_chars, filter_chars, all_chars, begins, contains,
}
use stellar_risk.Common.Sort.{has_key}
use stellar_risk.Domain.Transaction.{itself}
use mathlib.Core.Bool.{false≢true}
use stellar_risk.Platform.{Platform}
use stellar_risk.Advisor.Validate.{
  AdvisorError, invalid_response, max_text_len, max_short_len, max_list_items, is_kept, is_no_angle,
  script, clean, sanitize_text, sanitize_list, allowed_risk_levels, risk_level_of, RawAdvisoryInput,
  SanitizedAdvisory, validate_and_sanitize,
}

count-take : (n : ℕ) (s : String) → count_chars (take_chars n s) ≤ n
unfolding take_chars count_chars
count-take zero s = omega arith
count-take (suc n) String.[] = omega arith
count-take (suc n) (String.◌∷◌ c s) = omega (arith, count-take n s)

all-take :
    (f : ℕ → Bool) (n : ℕ) (s : String) → all_chars f s ≡ true → all_chars f (take_chars n s) ≡ true
unfolding take_chars all_chars
all-take f zero s h = refl
all-take f (suc n) String.[] h = refl
all-take f (suc n) (String.◌∷◌ c s) h = ground (arith, h, all-take f n s)

all-filter : (f : ℕ → Bool) (s : String) → all_chars f (filter_chars f s) ≡ true
unfolding filter_chars all_chars
all-filter f String.[] = refl
all-filter f (String.◌∷◌ c s) = ground (arith, all-filter f s)

all-filter-other :
    (f g : ℕ → Bool) (s : String) → all_chars f s ≡ true → all_chars f (filter_chars g s) ≡ true
unfolding filter_chars all_chars
all-filter-other f g String.[] h = refl
all-filter-other f g (String.◌∷◌ c s) h = ground (arith, h, all-filter-other f g s)

begins-take :
    (xs : List ℕ) (n : ℕ) (s : String) → begins xs (take_chars n s) ≡ true → begins xs s ≡ true
unfolding begins take_chars
begins-take [] n s h = refl
begins-take (x ∷ xs) zero s h = cc
begins-take (x ∷ xs) (suc n) String.[] h = h
begins-take (x ∷ xs) (suc n) (String.◌∷◌ c s) h = ground (arith, h, begins-take xs n s)

contains-take :
    (x : ℕ) (xs : List ℕ) (n : ℕ) (s : String)
    → contains (x ∷ xs) (take_chars n s) ≡ true
    → contains (x ∷ xs) s ≡ true
unfolding contains take_chars begins
contains-take x xs zero s h = cc
contains-take x xs (suc n) String.[] h = h
contains-take x xs (suc n) (String.◌∷◌ c s) h =
    ground (arith, h, contains-take x xs n s, begins-take xs n s)

contains-take-false :
    (x : ℕ) (xs : List ℕ) (n : ℕ) (s : String)
    → contains (x ∷ xs) s ≡ false
    → contains (x ∷ xs) (take_chars n s) ≡ false
contains-take-false x xs n s h = elim (Bool-cases (contains (x ∷ xs) (take_chars n s))) [
  | inl e ↦ absurd (false≢true (sym h ∙ contains-take x xs n s e))
  | inr e ↦ e
]

no-angle-no-script : (s : String) → all_chars is_no_angle s ≡ true → contains script s ≡ false
unfolding contains begins all_chars
no-angle-no-script String.[] h = refl
no-angle-no-script (String.◌∷◌ c s) h = ground (arith, h, no-angle-no-script s)

clean-no-script : (s : String) → contains script (clean s) ≡ false
unfolding clean
clean-no-script s = elim (Bool-cases (contains script s)) [
  | inl e ↦ rw e (no-angle-no-script (filter_chars is_no_angle s) (all-filter is_no_angle s))
  | inr e ↦ rw e e
]

clean-kept : (f : ℕ → Bool) (s : String) → all_chars f s ≡ true → all_chars f (clean s) ≡ true
unfolding clean
clean-kept f s h = ground (arith, h, all-filter-other f is_no_angle s)

-- What holds of a text that is safe to store and show: at most so many characters, no control
-- character but newlines and tabs, and no `<script` in whatever case.
pub record IsClean (max_len : ℕ) (s : String) : Type 0 where
  pub short : count_chars s ≤ max_len
  pub printable : all_chars is_kept s ≡ true
  pub inert : contains script s ≡ false

-- Whatever the text, `sanitize_text` gives one that is safe.
pub sanitize_text-IsClean : (s : String) (n : ℕ) → IsClean n (sanitize_text s n)
unfolding sanitize_text
sanitize_text-IsClean s n = record {
  short = count-take n (clean (filter_chars is_kept s));
  printable =
      all-take is_kept n (clean (filter_chars is_kept s))
        (clean-kept is_kept (filter_chars is_kept s) (all-filter is_kept s));
  inert =
      contains-take-false 60 (115 ∷ 99 ∷ 114 ∷ 105 ∷ 112 ∷ 116 ∷ []) n
        (clean (filter_chars is_kept s)) (clean-no-script (filter_chars is_kept s));
}

map-IsClean : (n : ℕ) (xs : List String) → All (IsClean n) (map (λ s. sanitize_text s n) xs)
map-IsClean n [] = tt
map-IsClean n (x ∷ xs) = (sanitize_text-IsClean x n, map-IsClean n xs)

-- A list of short texts, at most ten of them.
abbrev pub IsCleanList : List String → Type 0
IsCleanList xs = (length xs ≤ max_list_items) × All (IsClean max_short_len) xs

sanitize_list-IsCleanList : (xs : List String) → IsCleanList (sanitize_list xs)
unfolding sanitize_list
sanitize_list-IsCleanList xs = (
  omega (
    arith,
    length-map (λ s. sanitize_text s max_short_len) (take max_list_items xs),
    length-take max_list_items xs,
  ),
  map-IsClean max_short_len (take max_list_items xs),
)

risk_level-known :
    (ws : List String) (s : String)
    → has_key itself (risk_level_of ws s) (ws ++ "unspecified" ∷ []) ≡ true
unfolding risk_level_of
risk_level-known [] s = ground (arith, eq_refl "unspecified")
risk_level-known (w ∷ ws) s = ground (arith, eq_refl w, risk_level-known ws s)

module _ ⦃p : Platform⦄ where
  open p use {f64, f64_clamp, to_f32}

  -- An advisory all of whose texts are safe.
  pub record IsSafe (raw : RawAdvisoryInput) (a : SanitizedAdvisory) : Type 0 where
    pub summary : IsClean max_text_len a.summary
    pub signals : IsCleanList a.suspicious_signals
    pub history : IsClean max_text_len a.relevant_history
    pub level :
        has_key itself a.risk_assessment.level (allowed_risk_levels ++ "unspecified" ∷ []) ≡ true
    pub rationale : IsClean max_text_len a.risk_assessment.rationale
    pub steps : IsCleanList a.recommended_next_steps
    pub confident : a.confidence ≡ to_f32 (f64_clamp raw.confidence (f64 0) (f64 1))
    pub explanation : IsClean max_text_len a.explanation

  -- How validation ends.
  abbrev pub Validated : RawAdvisoryInput → Result AdvisorError SanitizedAdvisory → Type 0
  Validated raw (ok a) = (is_blank raw.summary ≡ false) × IsSafe raw a
  Validated raw (err e) = (is_blank raw.summary ≡ true) × (e ≡ invalid_response "summary was empty")

  -- Validation rejects an answer exactly if its summary is blank; of any other it keeps texts that are
  -- safe, lists of at most ten, a risk level of the vocabulary or `unspecified`, and the confidence
  -- clamped between 0 and 1.
  pub validate_and_sanitize-Validated :
      (raw : RawAdvisoryInput) → Validated raw (validate_and_sanitize raw)
  unfolding validate_and_sanitize
  validate_and_sanitize-Validated raw = elim (Bool-cases (is_blank raw.summary)) [
    | inl e ↦ rw e (e, refl)
    | inr e ↦ rw e (
      e,
      record {
        summary = sanitize_text-IsClean raw.summary max_text_len;
        signals = sanitize_list-IsCleanList raw.suspicious_signals;
        history = sanitize_text-IsClean raw.relevant_history max_text_len;
        level = risk_level-known allowed_risk_levels (trim raw.risk_level);
        rationale = sanitize_text-IsClean raw.risk_rationale max_text_len;
        steps = sanitize_list-IsCleanList raw.recommended_next_steps;
        confident = refl;
        explanation = sanitize_text-IsClean raw.explanation max_text_len;
      },
    )
  ]
