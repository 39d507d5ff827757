-- ===== src/Api/Query.antt =====
-- The query parameters that the handlers of crates/api/src/routes read: a map from names to texts.
use Prim.Native.Char.{code}
use stellar_risk.Common.{
  ℕ, zero, suc, String, Bool, false, Option, none, some, ltb, leb, nat_eq, if◌then◌else◌,
}
use stellar_risk.Common.Int.{ℤ, pos, negsuc}
use stellar_risk.Common.Text.{parse_usize}

abbrev pub i64_limit : ℕ
i64_limit = 9223372036854775808

abbrev begins_with_plus : String → Bool
begins_with_plus String.[] = false
begins_with_plus (String.◌∷◌ c s) = nat_eq (code c) 43

-- The value of a number behind a minus sign.
abbrev negated : ℕ → ℤ
negated zero = pos 0
negated (suc n) = negsuc n

abbrev checked_negative : Option ℕ → Option ℤ
checked_negative none = none
checked_negative (some n) = if leb n i64_limit then some (negated n) else none

abbrev checked_positive : Option ℕ → Option ℤ
checked_positive none = none
checked_positive (some n) = if ltb n i64_limit then some (pos n) else none

-- `i64::from_str`: one sign at most, then digits.
unfoldable pub parse_i64 : String → Option ℤ
parse_i64 String.[] = none
parse_i64 (String.◌∷◌ c s) =
    if nat_eq (code c) 45
    then (if begins_with_plus s then none else checked_negative (parse_usize s))
    else checked_positive (parse_usize (String.◌∷◌ c s))

abbrev pub Params : Type 0
Params = String → Option String

-- `params.get(key).and_then(|s| s.parse().ok()).unwrap_or(default)`
unfoldable pub number_or : String → ℤ → Params → ℤ
unfolding parse_i64
number_or key default params = elim (params key) [
  | none ↦ default
  | some s ↦ elim (parse_i64 s) [ none ↦ default | some n ↦ n ]
]
