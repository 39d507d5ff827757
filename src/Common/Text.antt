-- ===== src/Common/Text.antt =====
-- Text as the standard library handles it: concatenation for `format!`, decimal printing and
-- parsing of unsigned numbers, order, trimming, case and character filters.
use Prim.Native.Nat.{ℕ, zero, suc, ◌+◌, ◌-◌, ◌*◌, ◌/◌, ◌%◌, ◌<◌}
use Prim.Native.Nat.{Ordering}
use Prim.Native.Char.{code}
use Prim.Native.String.{String, compare, ◌++◌}
use mathlib.Core.Path.{◌≡◌, ◌∙◌, ap}
use mathlib.Core.Bool.{Bool, true, false, ◌&&◌, ◌||◌}
use mathlib.Core.Logic.{inl, inr}
use mathlib.Core.Option.{Option, none, some}
use mathlib.Core.List.{List, [], ◌∷◌}
use native.Mathlib.Omega.{arith}
use stellar_risk.Common.Int.{ℤ, pos, negsuc}
use stellar_risk.Common.Tests.{ltb, leb, nat_eq, if◌then◌else◌, Bool-cases}

-- The pieces of a `format!`.
unfoldable pub concat : List String → String
concat [] = ""
concat (s ∷ ss) = s ++ concat ss

-- Rust orders texts by their bytes, which for UTF-8 is the order of the code points.
abbrev pub le_text : String → String → Bool
le_text s t = elim (compare s t) [ Ordering.gt ↦ false | _ ↦ true ]

abbrev pub lt_text : String → String → Bool
lt_text s t = elim (compare s t) [ Ordering.lt ↦ true | _ ↦ false ]

-- The text of one decimal digit before what follows it.
abbrev digit : ℕ → String → String
digit d s =
    if nat_eq d 0
    then String.◌∷◌ "0" s
    else if nat_eq d 1
    then String.◌∷◌ "1" s
    else if nat_eq d 2
    then String.◌∷◌ "2" s
    else if nat_eq d 3
    then String.◌∷◌ "3" s
    else if nat_eq d 4
    then String.◌∷◌ "4" s
    else if nat_eq d 5
    then String.◌∷◌ "5" s
    else if nat_eq d 6
    then String.◌∷◌ "6" s
    else if nat_eq d 7
    then String.◌∷◌ "7" s
    else if nat_eq d 8
    then String.◌∷◌ "8" s
    else String.◌∷◌ "9" s

-- One digit a round; a number below `10 ^ f` needs `f` rounds, and `show` gives `n + 1`.
show_digits : ℕ → ℕ → String → String
show_digits zero n out = out
show_digits (suc f) n out =
    let rest = show_digits f (n / 10) (digit (n % 10) out) in if ltb n 10 then digit n out else rest

-- `to_string` of an unsigned number.
unfoldable pub show : ℕ → String
unfolding show_digits
show n = show_digits (suc n) n ""

abbrev pub usize_limit : ℕ
usize_limit = 18446744073709551616

abbrev is_digit : ℕ → Bool
is_digit c = leb 48 c && leb c 57

parse_digits : ℕ → String → Option ℕ
parse_digits n String.[] = some n
parse_digits n (String.◌∷◌ c s) =
    let next = n * 10 + (code c - 48) in
    let rest = parse_digits next s in
    if is_digit (code c) then (if ltb next usize_limit then rest else none) else none

-- One leading plus sign is accepted before the digits.
abbrev strip_plus : String → String
strip_plus String.[] = String.[]
strip_plus (String.◌∷◌ c s) = if nat_eq (code c) 43 then s else String.◌∷◌ c s

abbrev is_empty : String → Bool
is_empty String.[] = true
is_empty (String.◌∷◌ c s) = false

-- `usize::from_str`: at least one digit, nothing but digits, and no overflow of 64 bits.
unfoldable pub parse_usize : String → Option ℕ
unfolding parse_digits
parse_usize s = if is_empty (strip_plus s) then none else parse_digits 0 (strip_plus s)

parse_digits-digit :
    (n d : ℕ) (s : String)
    → d < 10
    → n * 10 + d < usize_limit
    → parse_digits n (digit d s) ≡ parse_digits (n * 10 + d) s
unfolding parse_digits
parse_digits-digit n d s small fits = ground arith

parse_digits-show_digits :
    (f n : ℕ) (out : String)
    → n < f
    → n < usize_limit
    → parse_digits 0 (show_digits f n out) ≡ parse_digits n out
unfolding show_digits
parse_digits-show_digits zero n out h fits = absurd (omega arith)
parse_digits-show_digits (suc f) n out h fits = elim (Bool-cases (ltb n 10)) [
  | inl small ↦ rw small (
      parse_digits-digit 0 n out (ground arith) (omega arith)
      ∙ ap (λ m. parse_digits m out) (omega arith))
  | inr large ↦ rw large (
      parse_digits-show_digits f (n / 10) (digit (n % 10) out) (ground arith) (omega arith)
      ∙ parse_digits-digit (n / 10) (n % 10) out (omega arith) (omega arith)
      ∙ ap (λ m. parse_digits m out) (omega arith))
]

-- A printed number begins with a digit, so nothing is stripped and it is not empty.
abbrev begins_with_digit : String → Bool
begins_with_digit String.[] = false
begins_with_digit (String.◌∷◌ c s) = is_digit (code c)

begins_with_digit-show_digits :
    (f n : ℕ) (out : String) → n < f → begins_with_digit (show_digits f n out) ≡ true
unfolding show_digits
begins_with_digit-show_digits zero n out h = absurd (omega arith)
begins_with_digit-show_digits (suc f) n out h = elim (Bool-cases (ltb n 10)) [
  | inl small ↦ rw small (ground arith)
  | inr large ↦
      rw large (begins_with_digit-show_digits f (n / 10) (digit (n % 10) out) (ground arith))
]

strip_plus-digit :
    (s : String) → begins_with_digit s ≡ true → (strip_plus s ≡ s) × (is_empty s ≡ false)
strip_plus-digit String.[] h = cc
strip_plus-digit (String.◌∷◌ c s) h = ground arith

-- What is printed is read back, for every number that fits 64 bits.
pub parse_usize-show : (n : ℕ) → n < usize_limit → parse_usize (show n) ≡ some n
unfolding show parse_usize
parse_usize-show n fits =
    let (kept, full) =
      strip_plus-digit (show_digits (suc n) n "")
        (begins_with_digit-show_digits (suc n) n "" (omega arith)) in
    rw kept (rw full (parse_digits-show_digits (suc n) n "" (omega arith) fits))

-- `to_string` of a signed number.
unfoldable pub show_int : ℤ → String
unfolding show
show_int (pos n) = show n
show_int (negsuc n) = concat ("-" ∷ show (suc n) ∷ [])

-- The property `White_Space` of Unicode, which `trim` strips.
abbrev pub is_white : ℕ → Bool
is_white c =
    leb 9 c && leb c 13
    || nat_eq c 32
    || nat_eq c 133
    || nat_eq c 160
    || nat_eq c 5760
    || leb 8192 c && leb c 8202
    || nat_eq c 8232
    || nat_eq c 8233
    || nat_eq c 8239
    || nat_eq c 8287
    || nat_eq c 12288

-- `trim().is_empty()`
unfoldable pub is_blank : String → Bool
is_blank String.[] = true
is_blank (String.◌∷◌ c s) = is_white (code c) && is_blank s

-- `trim`
unfoldable pub trim_start : String → String
trim_start String.[] = ""
trim_start (String.◌∷◌ c s) =
    let rest = trim_start s in if is_white (code c) then rest else String.◌∷◌ c s

unfoldable pub trim_end : String → String
trim_end String.[] = ""
trim_end (String.◌∷◌ c s) =
    let rest = trim_end s in if is_white (code c) && is_empty rest then "" else String.◌∷◌ c rest

unfoldable pub trim : String → String
unfolding trim_start trim_end
trim s = trim_end (trim_start s)

-- `chars().take(n).collect()` and `chars().count()`
unfoldable pub take_chars : ℕ → String → String
take_chars zero s = ""
take_chars (suc n) String.[] = ""
take_chars (suc n) (String.◌∷◌ c s) = String.◌∷◌ c (take_chars n s)

unfoldable pub count_chars : String → ℕ
count_chars String.[] = 0
count_chars (String.◌∷◌ c s) = 1 + count_chars s

-- The characters whose code a test accepts.
unfoldable pub filter_chars : (ℕ → Bool) → String → String
filter_chars f String.[] = ""
filter_chars f (String.◌∷◌ c s) =
    let rest = filter_chars f s in if f (code c) then String.◌∷◌ c rest else rest

unfoldable pub all_chars : (ℕ → Bool) → String → Bool
all_chars f String.[] = true
all_chars f (String.◌∷◌ c s) = f (code c) && all_chars f s

-- `to_ascii_lowercase` of one code.
abbrev pub lower : ℕ → ℕ
lower c = if leb 65 c && leb c 90 then c + 32 else c

-- The lowered text begins with the given codes.
unfoldable pub begins : List ℕ → String → Bool
begins [] s = true
begins (x ∷ xs) String.[] = false
begins (x ∷ xs) (String.◌∷◌ c s) = nat_eq x (lower (code c)) && begins xs s

-- The lowered text contains the given codes.
unfoldable pub contains : List ℕ → String → Bool
unfolding begins
contains xs String.[] = begins xs ""
contains xs (String.◌∷◌ c s) = begins xs (String.◌∷◌ c s) || contains xs s

-- The lowered text is the given one.
unfoldable pub lowers_to : String → String → Bool
lowers_to String.[] String.[] = true
lowers_to (String.◌∷◌ c s) (String.◌∷◌ d t) = nat_eq (lower (code c)) (code d) && lowers_to s t
lowers_to _ _ = false
