-- ===== src/Platform.antt =====
-- What the program takes from crates that are not in the repository: the floating-point
-- operations of the machine, `rust_decimal`, `chrono`, `uuid`, `serde_json`, `sha2` and `hex`. None
-- of it is defined here: every definition and theorem takes a `Platform`, and a theorem that needs a
-- law of one of these operations has that law among its hypotheses.
use stellar_risk.Common.{ℕ, String, ◌≡◌, Bool, true, Option, List}
use stellar_risk.Common.{Result, ◌==◌, if◌then◌else◌}
use stellar_risk.Common.Text.{lt_text}
use stellar_risk.Common.Int.{ℤ}

-- `serde_json::Value`. A number is an integer or a float. The map of an object is a `BTreeMap`: its
-- fields stand in ascending order of their keys, in which `field` puts them.
mutual
  pub data Json (F : Type 0) : Type 0 where
    text : String → Json F
    int : ℤ → Json F
    float : F → Json F
    null : Json F
    boolean : Bool → Json F
    array : Items F → Json F
    object : Fields F → Json F

  pub data Items (F : Type 0) : Type 0 where
    nil : Items F
    cons : Json F → Items F → Items F

  pub data Fields (F : Type 0) : Type 0 where
    end : Fields F
    entry : String → Json F → Fields F → Fields F

-- A field of a `json!` literal before those that follow it; of two with one key the later one counts.
abbrev pub field : {F : Type 0} → String → Json F → Fields F → Fields F
field k v end = entry k v end
field k v (entry j w fs) =
    let rest = field k v fs in
    if k == j
    then entry j w fs
    else if lt_text k j
    then entry k v (entry j w fs)
    else entry j w rest

pub record Platform : Type 1 where
  pub F64 : Type 0
  pub F32 : Type 0
  pub Decimal : Type 0
  pub DateTime : Type 0
  pub Duration : Type 0
  -- A float literal without a fraction, and `as f64` of an unsigned number.
  pub f64 : ℕ → F64
  pub f64_of_int : ℤ → F64
  pub f64_add : F64 → F64 → F64
  pub f64_mul : F64 → F64 → F64
  pub f64_div : F64 → F64 → F64
  pub f64_min : F64 → F64 → F64
  pub f64_max : F64 → F64 → F64
  -- `clamp(low, high)` of the first argument.
  pub f64_clamp : F64 → F64 → F64 → F64
  -- `a >= b` and `a > b`; both are false where one side is not a number.
  pub f64_ge : F64 → F64 → Bool
  pub f64_gt : F64 → F64 → Bool
  -- `{:.n}`
  pub f64_fixed : ℕ → F64 → String
  pub to_f32 : F64 → F32
  pub f32 : ℕ → F32
  pub f32_mul : F32 → F32 → F32
  pub f32_fixed : ℕ → F32 → String
  pub decimal_gt : Decimal → Decimal → Bool
  pub decimal_text : Decimal → String
  pub parse_decimal : String → Option Decimal
  pub decimal_of : ℕ → Decimal
  pub le_time : DateTime → DateTime → Bool
  -- `a - b` of two instants, and an instant less a duration.
  pub since : DateTime → DateTime → Duration
  pub minus : DateTime → Duration → DateTime
  pub le_duration : Duration → Duration → Bool
  pub seconds : ℤ → Duration
  pub num_seconds : Duration → ℤ
  pub to_rfc3339 : DateTime → String
  pub parse_rfc3339 : String → Result String DateTime
  -- A `Uuid` is its 128-bit value.
  pub uuid_text : ℕ → String
  pub parse_uuid : String → Result String ℕ
  pub to_vec : Json F64 → Result String (List ℕ)
  pub sha256 : List ℕ → List ℕ
  pub hex_encode : List ℕ → String

abbrev pub Uuid : Type 0
Uuid = ℕ

-- What IEEE 754 says of the operations that the score uses, also for the infinities and where a value
-- is not a number: `f64_ge a a` says that `a` is one. A sum of values of zero or more is no less than
-- either, and is infinite where it is too large.
pub record FloatLaws ⦃p : Platform⦄ : Type 0 where
  pub ge_number : (a b : p.F64) → p.f64_ge a b ≡ true → p.f64_ge a a ≡ true
  pub ge_trans : (a b c : p.F64) → p.f64_ge a b ≡ true → p.f64_ge b c ≡ true → p.f64_ge a c ≡ true
  pub zero_number : p.f64_ge (p.f64 0) (p.f64 0) ≡ true
  pub add_grows :
      (a w : p.F64)
      → p.f64_ge a (p.f64 0) ≡ true
      → p.f64_ge w (p.f64 0) ≡ true
      → p.f64_ge (p.f64_add a w) a ≡ true
  pub min_mono :
      (a b m : p.F64) → p.f64_ge a b ≡ true → p.f64_ge (p.f64_min a m) (p.f64_min b m) ≡ true
  pub min_le : (a m : p.F64) → p.f64_ge m m ≡ true → p.f64_ge m (p.f64_min a m) ≡ true
