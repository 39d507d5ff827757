-- ===== src/Api/Shown.antt =====
-- How a browser shows what `esc` of crates/api/src/html.rs writes.
use Prim.Native.Char.{Char, code}
use Prim.Native.String.{◌++◌}
use Prim.Native.String.compare as cmp
use text.Mathlib.TextLemmas.{nil-append, cons-append}
use stellar_risk.Common.{
  ℕ, zero, suc, String, Bool, true, false, ◌≡◌, refl, sym, ◌∙◌, ap, none, some, nat_eq,
  if◌then◌else◌, arith, eq_iff, eq_refl, inl, inr,
}
use stellar_risk.Common.Text.{all_chars, count_chars}
use stellar_risk.Common.Split.{strip_prefix, strip_prefix-append}
use stellar_risk.Api.Html.{esc}
use stellar_risk.Api.Escape.{
  escaped, escaped-cases, one_pass, esc-one_pass, is_inert, one_pass-inert,
}

-- The character that a browser reads after `&`, and the rest of the text; `&` where no entity begins.
abbrev read_entity : String → String × String
read_entity s = elim (strip_prefix "amp;" s) [
  | some r ↦ ("&", r)
  | none ↦ elim (strip_prefix "lt;" s) [
    | some r ↦ ("<", r)
    | none ↦ elim (strip_prefix "gt;" s) [
      | some r ↦ (">", r)
      | none ↦ elim (strip_prefix "quot;" s) [
        | some r ↦ ("\"", r)
        | none ↦ elim (strip_prefix "#39;" s) [ some r ↦ ("'", r) | none ↦ ("&", s) ]
      ]
    ]
  ]
]

-- The text that a browser shows; a text of `n` characters needs `n` rounds.
pub shown : ℕ → String → String
shown zero s = ""
shown (suc n) String.[] = ""
shown (suc n) (String.◌∷◌ c s) = elim (nat_eq (code c) 38) [
  | true ↦ (read_entity s).0 ++ shown n (read_entity s).1
  | false ↦ String.◌∷◌ c (shown n s)
]

-- The texts differ before the end of either.
abbrev mismatch : String → String → Bool
mismatch String.[] q = false
mismatch (String.◌∷◌ c p) String.[] = false
mismatch (String.◌∷◌ c p) (String.◌∷◌ d q) = if nat_eq (code c) (code d) then mismatch p q else true

strip_prefix-mismatch : (p q s : String) → mismatch p q ≡ true → strip_prefix p (q ++ s) ≡ none
unfolding strip_prefix
strip_prefix-mismatch String.[] q s h = absurd cc
strip_prefix-mismatch (String.◌∷◌ c p) String.[] s h = absurd cc
strip_prefix-mismatch (String.◌∷◌ c p) (String.◌∷◌ d q) s h =
    rw (cons-append d q s) (ground (arith, h, strip_prefix-mismatch p q s))

read_amp : (t : String) → read_entity ("amp;" ++ t) ≡ ("&", t)
read_amp t = rw (read_entity, strip_prefix-append "amp;" t) refl

read_lt : (t : String) → read_entity ("lt;" ++ t) ≡ ("<", t)
read_lt t =
    rw (read_entity, strip_prefix-mismatch "amp;" "lt;" t refl, strip_prefix-append "lt;" t) refl

read_gt : (t : String) → read_entity ("gt;" ++ t) ≡ (">", t)
read_gt t =
    rw
      (
        read_entity,
        strip_prefix-mismatch "amp;" "gt;" t refl,
        strip_prefix-mismatch "lt;" "gt;" t refl,
        strip_prefix-append "gt;" t,
      )
      refl

read_quot : (t : String) → read_entity ("quot;" ++ t) ≡ ("\"", t)
read_quot t =
    rw
      (
        read_entity,
        strip_prefix-mismatch "amp;" "quot;" t refl,
        strip_prefix-mismatch "lt;" "quot;" t refl,
        strip_prefix-mismatch "gt;" "quot;" t refl,
        strip_prefix-append "quot;" t,
      )
      refl

read_apos : (t : String) → read_entity ("#39;" ++ t) ≡ ("'", t)
read_apos t =
    rw
      (
        read_entity,
        strip_prefix-mismatch "amp;" "#39;" t refl,
        strip_prefix-mismatch "lt;" "#39;" t refl,
        strip_prefix-mismatch "gt;" "#39;" t refl,
        strip_prefix-mismatch "quot;" "#39;" t refl,
        strip_prefix-append "#39;" t,
      )
      refl

-- A text is known by the code of its first character.
same_head :
    (c d : Char) (s : String) → nat_eq (code c) (code d) ≡ true → String.◌∷◌ d s ≡ String.◌∷◌ c s
same_head c d s h = sym (
    (eq_iff (String.◌∷◌ c s) (String.◌∷◌ d s)).0
      (ground (arith, h, cmp.cons-cons c d s s, eq_refl s)))

shown-entity :
    (c d : Char) (n : ℕ) (body t : String)
    → read_entity (body ++ t) ≡ (String.◌∷◌ d "", t)
    → nat_eq (code c) (code d) ≡ true
    → shown (suc n) (String.◌∷◌ "&" body ++ t) ≡ String.◌∷◌ c (shown n t)
unfolding shown
shown-entity c d n body t r h =
    rw (cons-append "&" body t, r, cons-append d "" (shown n t), nil-append (shown n t))
      (same_head c d (shown n t) h)

shown-plain :
    (c : Char) (n : ℕ) (t : String)
    → nat_eq (code c) 38 ≡ false
    → shown (suc n) (String.◌∷◌ c "" ++ t) ≡ String.◌∷◌ c (shown n t)
unfolding shown
shown-plain c n t h = rw (cons-append c "" t, nil-append t) (ground (arith, h))

shown-escaped :
    (c : Char) (n : ℕ) (t : String) → shown (suc n) (escaped c ++ t) ≡ String.◌∷◌ c (shown n t)
shown-escaped c n t = elim (escaped-cases c) [
  | inl (e, q) ↦ rw q (shown-entity c "&" n "amp;" t (read_amp t) e)
  | inr (inl (d, e, q)) ↦ rw q (shown-entity c "<" n "lt;" t (read_lt t) e)
  | inr (inr (inl (d, e, f, q))) ↦ rw q (shown-entity c ">" n "gt;" t (read_gt t) f)
  | inr (inr (inr (inl (d, e, f, g, q)))) ↦ rw q (shown-entity c "\"" n "quot;" t (read_quot t) g)
  | inr (inr (inr (inr (inl (d, e, f, g, h, q))))) ↦
      rw q (shown-entity c "'" n "#39;" t (read_apos t) h)
  | inr (inr (inr (inr (inr (d, e, f, g, h, q))))) ↦ rw q (shown-plain c n t d)
]

shown-one_pass : (s : String) → shown (count_chars s) (one_pass s) ≡ s
unfolding one_pass count_chars shown
shown-one_pass String.[] = refl
shown-one_pass (String.◌∷◌ c s) =
    ap (λ k. shown k (escaped c ++ one_pass s)) {y = suc (count_chars s)} (omega arith)
    ∙ shown-escaped c (count_chars s) (one_pass s)
    ∙ ap (λ t. String.◌∷◌ c t) (shown-one_pass s)

-- The five replacements, one after the other, do what one pass would: an escaped text has no
-- character that begins markup or ends a quoted attribute, and a browser shows it as the text that
-- was escaped.
pub esc_shows :
    (s : String)
    → (all_chars is_inert (esc s) ≡ true)
      × (esc s ≡ one_pass s)
      × (shown (count_chars s) (esc s) ≡ s)
esc_shows s = rw (esc-one_pass s) (one_pass-inert s, refl, shown-one_pass s)
