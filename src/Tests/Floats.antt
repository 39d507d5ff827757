-- ===== src/Tests/Floats.antt =====
-- The score of crates/rules_engine over floats that have infinities and a value that is no number.
use stellar_risk.Common.{
  ℕ, ◌+◌, ◌-◌, ◌*◌, ◌≤◌, ◌≡◌, ◌↔◌, refl, String, Bool, true, false, none, [], ◌∷◌, leb, ltb, not,
  ◌&&◌, if◌then◌else◌, ok, arith,
}
use stellar_risk.Common.Int.{pos}
use stellar_risk.Platform.{Platform, FloatLaws, null}
use stellar_risk.Domain.Rule.{RuleTrigger}
use stellar_risk.Rules.Config.{default_scoring_config}
use stellar_risk.Rules.Scoring.{score_and_severity}
use stellar_risk.Rules.Bands.{rank, more_triggers, score-le-max_score}
use stellar_risk.Toy
use stellar_risk.Toy.{natural}

data Float : Type 0 where
  finite : ℕ → Float
  infinite : Float
  below : Float
  nan : Float

abbrev ge : Float → Float → Bool
ge (finite a) (finite b) = leb b a
ge (finite a) below = true
ge infinite (finite b) = true
ge infinite infinite = true
ge infinite below = true
ge below below = true
ge _ _ = false

abbrev add : Float → Float → Float
add (finite a) (finite b) = finite (a + b)
add (finite a) infinite = infinite
add (finite a) below = below
add infinite (finite b) = infinite
add infinite infinite = infinite
add below (finite b) = below
add below below = below
add _ _ = nan

-- Where one side is no number the other is the least.
abbrev least : Float → Float → Float
least nan b = b
least a nan = a
least (finite a) (finite b) = finite (if leb a b then a else b)
least below b = below
least a below = below
least infinite b = b
least a infinite = a

abbrev shown : ℕ → Float → String
shown n a = "float"

instance abbrev floats : Platform
floats = record {
  F64 = Float;
  F32 = ℕ;
  Decimal = ℕ;
  DateTime = ℕ;
  Duration = ℕ;
  f64 = finite;
  f64_of_int = λ i. finite (natural i);
  f64_add = add;
  f64_mul = λ a b. nan;
  f64_div = λ a b. nan;
  f64_min = least;
  f64_max = λ a b. if ge a b then a else b;
  f64_clamp = λ a low high. if ge a high then high else if ge low a then low else a;
  f64_ge = ge;
  f64_gt = λ a b. ge a b && not (ge b a);
  f64_fixed = shown;
  to_f32 = λ a. 0;
  f32 = λ n. n;
  f32_mul = λ a b. a * b;
  f32_fixed = λ n a. "float";
  decimal_gt = λ a b. ltb b a;
  decimal_text = Toy.toy.decimal_text;
  parse_decimal = Toy.toy.parse_decimal;
  decimal_of = λ n. n;
  le_time = leb;
  since = λ a b. a - b;
  minus = λ a b. a - b;
  le_duration = leb;
  seconds = natural;
  num_seconds = pos;
  to_rfc3339 = Toy.toy.to_rfc3339;
  parse_rfc3339 = Toy.toy.parse_rfc3339;
  uuid_text = Toy.toy.uuid_text;
  parse_uuid = Toy.toy.parse_uuid;
  to_vec = λ j. ok [];
  sha256 = λ bytes. bytes;
  hex_encode = λ bytes. "digest";
}

ge_number : (a b : Float) → ge a b ≡ true → ge a a ≡ true
ge_number a b h = ground (arith, h)

ge_trans : (a b c : Float) → ge a b ≡ true → ge b c ≡ true → ge a c ≡ true
ge_trans a b c h k = ground (arith, h, k)

add_grows : (a w : Float) → ge a (finite 0) ≡ true → ge w (finite 0) ≡ true → ge (add a w) a ≡ true
add_grows a w h k = ground (arith, h, k)

min_mono : (a b m : Float) → ge a b ≡ true → ge (least a m) (least b m) ≡ true
min_mono a b m h = ground (arith, h)

min_le : (a m : Float) → ge m m ≡ true → ge m (least a m) ≡ true
min_le a m h = ground (arith, h)

laws : FloatLaws
laws = record {
  ge_number = ge_number;
  ge_trans = ge_trans;
  zero_number = refl;
  add_grows = add_grows;
  min_mono = min_mono;
  min_le = min_le;
}

abbrev weighing : Float → RuleTrigger
weighing w = record { rule_id = "r"; rule_name = "R"; reason = "why"; weight = w; evidence = null }

-- The second weight takes the sum to infinity, and the score to the cap.
more_triggers_example :
    rank (score_and_severity (weighing (finite 40) ∷ []) default_scoring_config).1
    ≤ rank
        (score_and_severity
          (weighing (finite 40) ∷ weighing infinite ∷ [])
          default_scoring_config).1
more_triggers_example =
    more_triggers laws default_scoring_config (weighing (finite 40) ∷ []) (weighing infinite)
      (refl, tt) refl

-- A weight may be no number.
score-le-max_score_example :
    (ge
        (finite 100)
        (score_and_severity (weighing nan ∷ weighing below ∷ []) default_scoring_config).0
      ≡ true)
    × (((score_and_severity (weighing nan ∷ weighing below ∷ []) default_scoring_config).1 ≡ none)
        ↔ (weighing nan ∷ weighing below ∷ [] ≡ []))
score-le-max_score_example =
    score-le-max_score laws default_scoring_config (weighing nan ∷ weighing below ∷ []) refl
