-- ===== src/Common/Split.antt =====
-- Text cut at a prefix or at a character: `strip_prefix` and `split` of the standard library.
use Prim.Native.Nat.{ℕ}
use Prim.Native.Char.{code}
use Prim.Native.String.{String, ◌++◌}
use mathlib.Core.Path.{◌≡◌, refl, ap}
use mathlib.Core.Bool.{Bool, true, not}
use mathlib.Core.Option.{Option, none, some}
use mathlib.Core.List.{List, [], ◌∷◌}
use text.Mathlib.TextLemmas.{nil-append, cons-append, append-nil, append_assoc}
use native.Mathlib.Omega.{arith}
use stellar_risk.Common.Tests.{nat_eq, nat_eq_refl, if◌then◌else◌}
use stellar_risk.Common.Text.{concat, trim, trim_start, trim_end, is_white, all_chars}

unfoldable pub strip_prefix : String → String → Option String
strip_prefix String.[] s = some s
strip_prefix (String.◌∷◌ c p) String.[] = none
strip_prefix (String.◌∷◌ c p) (String.◌∷◌ d s) =
    if nat_eq (code c) (code d) then strip_prefix p s else none

-- The text up to the first character of the code `x`, and the pieces behind it.
unfoldable pub split_first : ℕ → String → String × List String
split_first x String.[] = ("", [])
split_first x (String.◌∷◌ c s) =
    let (piece, rest) = split_first x s in
    if nat_eq (code c) x then ("", piece ∷ rest) else (String.◌∷◌ c piece, rest)

-- `split` at a character: one piece more than the character occurs.
unfoldable pub split : ℕ → String → List String
unfolding split_first
split x s = let (piece, rest) = split_first x s in piece ∷ rest

pub strip_prefix-append : (p s : String) → strip_prefix p (p ++ s) ≡ some s
unfolding strip_prefix
strip_prefix-append String.[] s = ap (λ t. some t) (nil-append s)
strip_prefix-append (String.◌∷◌ c p) s =
    rw (cons-append c p s, nat_eq_refl (code c)) (strip_prefix-append p s)

pub all_chars-append :
    (f : ℕ → Bool) (s t : String)
    → all_chars f s ≡ true
    → all_chars f t ≡ true
    → all_chars f (s ++ t) ≡ true
unfolding all_chars
all_chars-append f String.[] t h k = rw (nil-append t) k
all_chars-append f (String.◌∷◌ c s) t h k =
    rw (cons-append c s t) (ground (arith, h, all_chars-append f s t, k))

pub all_chars_weaker :
    (f g : ℕ → Bool) (s : String)
    → ((c : ℕ) → f c ≡ true → g c ≡ true)
    → all_chars f s ≡ true
    → all_chars g s ≡ true
unfolding all_chars
all_chars_weaker f g String.[] w h = refl
all_chars_weaker f g (String.◌∷◌ c s) w h = ground (arith, h, w (code c), all_chars_weaker f g s w)

-- The first piece of a text that begins without the character.
pub split_first-append :
    (x : ℕ) (s t : String)
    → all_chars (λ c. not (nat_eq c x)) s ≡ true
    → split_first x (s ++ t) ≡ (s ++ (split_first x t).0, (split_first x t).1)
unfolding split_first all_chars
split_first-append x String.[] t h = rw (nil-append t, nil-append (split_first x t).0) refl
split_first-append x (String.◌∷◌ c s) t h =
    rw (cons-append c s t, cons-append c s (split_first x t).0)
      (ground (arith, h, split_first-append x s t))

trim_start-black : (s : String) → all_chars (λ c. not (is_white c)) s ≡ true → trim_start s ≡ s
unfolding trim_start all_chars
trim_start-black String.[] h = refl
trim_start-black (String.◌∷◌ c s) h = ground (arith, h)

trim_end-black : (s : String) → all_chars (λ c. not (is_white c)) s ≡ true → trim_end s ≡ s
unfolding trim_end all_chars
trim_end-black String.[] h = refl
trim_end-black (String.◌∷◌ c s) h = ground (arith, h, trim_end-black s)

-- A text without white characters is trimmed already.
pub trim-black : (s : String) → all_chars (λ c. not (is_white c)) s ≡ true → trim s ≡ s
unfolding trim
trim-black s h = rw (trim_start-black s h) (trim_end-black s h)

pub concat_last_three :
    (a b c : String) → concat (a ∷ b ∷ c ∷ []) ≡ concat (concat (a ∷ b ∷ []) ∷ c ∷ [])
unfolding concat
concat_last_three a b c = rw (append-nil b, append-nil c, append_assoc a b c) refl

pub concat_last_four :
    (a b c d : String) → concat (a ∷ b ∷ c ∷ d ∷ []) ≡ concat (concat (a ∷ b ∷ c ∷ []) ∷ d ∷ [])
unfolding concat
concat_last_four a b c d =
    rw (append-nil c, append-nil d, append_assoc a (b ++ c) d, append_assoc b c d) refl

pub strip_prefix-concat : (p s : String) → strip_prefix p (concat (p ∷ s ∷ [])) ≡ some s
unfolding concat
strip_prefix-concat p s = rw (append-nil s) (strip_prefix-append p s)

pub all_chars-concat :
    (f : ℕ → Bool) (s t : String)
    → all_chars f s ≡ true
    → all_chars f t ≡ true
    → all_chars f (concat (s ∷ t ∷ [])) ≡ true
unfolding concat
all_chars-concat f s t h k = rw (append-nil t) (all_chars-append f s t h k)

pub split_first-concat :
    (x : ℕ) (s t : String)
    → all_chars (λ c. not (nat_eq c x)) s ≡ true
    → (split_first x t).0 ≡ ""
    → (split_first x (concat (s ∷ t ∷ []))).0 ≡ s
unfolding concat
split_first-concat x s t h k = rw (append-nil t, split_first-append x s t h, k) (append-nil s)

split_first-whole :
    (x : ℕ) (s : String) → all_chars (λ c. not (nat_eq c x)) s ≡ true → split_first x s ≡ (s, [])
unfolding split_first all_chars
split_first-whole x String.[] h = refl
split_first-whole x (String.◌∷◌ c s) h = ground (arith, h, split_first-whole x s)

-- A text without the character is its only piece.
pub split-whole :
    (x : ℕ) (s : String) → all_chars (λ c. not (nat_eq c x)) s ≡ true → split x s ≡ s ∷ []
unfolding split
split-whole x s h = rw (split_first-whole x s h) refl
