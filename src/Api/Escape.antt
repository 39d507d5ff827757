-- ===== src/Api/Escape.antt =====
-- `esc` of crates/api/src/html.rs against one pass over the text.
use Prim.Native.Char.{Char, code}
use Prim.Native.String.{◌++◌}
use text.Mathlib.TextLemmas.{nil-append, cons-append, append_assoc}
use stellar_risk.Common.{
  ℕ, String, Bool, true, false, not, ◌&&◌, ◌≡◌, refl, sym, ◌∙◌, ap, ◌⊎◌, nat_eq, if◌then◌else◌,
  arith, inl, inr, Bool-cases,
}
use stellar_risk.Common.Text.{all_chars}
use stellar_risk.Common.Split.{all_chars-append}
use stellar_risk.Api.Html.{replace, esc}

-- What one character becomes.
abbrev pub escaped : Char → String
escaped c =
    if nat_eq (code c) 38
    then "&amp;"
    else if nat_eq (code c) 60
    then "&lt;"
    else if nat_eq (code c) 62
    then "&gt;"
    else if nat_eq (code c) 34
    then "&quot;"
    else if nat_eq (code c) 39
    then "&#39;"
    else String.◌∷◌ c ""

-- The cases of `escaped`.
pub escaped-cases :
    (c : Char)
    → ((nat_eq (code c) 38 ≡ true) × (escaped c ≡ "&amp;"))
      ⊎ ((nat_eq (code c) 38 ≡ false) × (nat_eq (code c) 60 ≡ true) × (escaped c ≡ "&lt;"))
      ⊎ ((nat_eq (code c) 38 ≡ false)
          × (nat_eq (code c) 60 ≡ false)
          × (nat_eq (code c) 62 ≡ true)
          × (escaped c ≡ "&gt;"))
      ⊎ ((nat_eq (code c) 38 ≡ false)
          × (nat_eq (code c) 60 ≡ false)
          × (nat_eq (code c) 62 ≡ false)
          × (nat_eq (code c) 34 ≡ true)
          × (escaped c ≡ "&quot;"))
      ⊎ ((nat_eq (code c) 38 ≡ false)
          × (nat_eq (code c) 60 ≡ false)
          × (nat_eq (code c) 62 ≡ false)
          × (nat_eq (code c) 34 ≡ false)
          × (nat_eq (code c) 39 ≡ true)
          × (escaped c ≡ "&#39;"))
      ⊎ ((nat_eq (code c) 38 ≡ false)
          × (nat_eq (code c) 60 ≡ false)
          × (nat_eq (code c) 62 ≡ false)
          × (nat_eq (code c) 34 ≡ false)
          × (nat_eq (code c) 39 ≡ false)
          × (escaped c ≡ String.◌∷◌ c ""))
escaped-cases c = elim (Bool-cases (nat_eq (code c) 38)) [
  | inl d ↦ inl (d, rw d refl)
  | inr d ↦ inr (elim (Bool-cases (nat_eq (code c) 60)) [
    | inl e ↦ inl (d, e, rw (d, e) refl)
    | inr e ↦ inr (elim (Bool-cases (nat_eq (code c) 62)) [
      | inl f ↦ inl (d, e, f, rw (d, e, f) refl)
      | inr f ↦ inr (elim (Bool-cases (nat_eq (code c) 34)) [
        | inl g ↦ inl (d, e, f, g, rw (d, e, f, g) refl)
        | inr g ↦ inr (elim (Bool-cases (nat_eq (code c) 39)) [
          | inl h ↦ inl (d, e, f, g, h, rw (d, e, f, g, h) refl)
          | inr h ↦ inr (d, e, f, g, h, rw (d, e, f, g, h) refl)
        ])
      ])
    ])
  ])
]

unfoldable pub one_pass : String → String
one_pass String.[] = ""
one_pass (String.◌∷◌ c s) = escaped c ++ one_pass s

replace-append :
    (x : ℕ) (by s t : String) → replace x by (s ++ t) ≡ replace x by s ++ replace x by t
unfolding replace
replace-append x by String.[] t = rw (nil-append t, nil-append (replace x by t)) refl
replace-append x by (String.◌∷◌ c s) t = elim (Bool-cases (nat_eq (code c) x)) [
  | inl e ↦
      rw
        (
          cons-append c s t,
          e,
          replace-append x by s t,
          append_assoc by (replace x by s) (replace x by t),
        )
        refl
  | inr e ↦
      rw
        (
          cons-append c s t,
          e,
          replace-append x by s t,
          cons-append c (replace x by s) (replace x by t),
        )
        refl
]

esc-append : (s t : String) → esc (s ++ t) ≡ esc s ++ esc t
unfolding esc
esc-append s t =
    rw
      (
        replace-append 38 "&amp;" s t,
        replace-append 60 "&lt;" (replace 38 "&amp;" s) (replace 38 "&amp;" t),
        replace-append 62 "&gt;" (replace 60 "&lt;" (replace 38 "&amp;" s))
            (replace 60 "&lt;" (replace 38 "&amp;" t)),
        replace-append 34 "&quot;" (replace 62 "&gt;" (replace 60 "&lt;" (replace 38 "&amp;" s)))
            (replace 62 "&gt;" (replace 60 "&lt;" (replace 38 "&amp;" t))),
      )
      (replace-append 39 "&#39;"
        (replace 34 "&quot;" (replace 62 "&gt;" (replace 60 "&lt;" (replace 38 "&amp;" s))))
        (replace 34 "&quot;" (replace 62 "&gt;" (replace 60 "&lt;" (replace 38 "&amp;" t)))))

esc-single : (c : Char) → esc (String.◌∷◌ c "") ≡ escaped c
unfolding esc replace
esc-single c = elim (escaped-cases c) [
  | inl (e, q) ↦ rw e refl
  | inr (inl (d, e, q)) ↦ rw (d, e) refl
  | inr (inr (inl (d, e, f, q))) ↦ rw (d, e, f) refl
  | inr (inr (inr (inl (d, e, f, g, q)))) ↦ rw (d, e, f, g) refl
  | inr (inr (inr (inr (inl (d, e, f, g, h, q))))) ↦ rw (d, e, f, g, h) refl
  | inr (inr (inr (inr (inr (d, e, f, g, h, q))))) ↦ rw (d, e, f, g, h) refl
]

esc-cons : (c : Char) (s : String) → esc (String.◌∷◌ c s) ≡ escaped c ++ esc s
esc-cons c s =
    ap esc (sym (cons-append c "" s ∙ ap (λ t. String.◌∷◌ c t) (nil-append s)))
    ∙ esc-append (String.◌∷◌ c "") s
    ∙ ap (λ t. t ++ esc s) (esc-single c)

pub esc-one_pass : (s : String) → esc s ≡ one_pass s
unfolding one_pass esc replace
esc-one_pass String.[] = refl
esc-one_pass (String.◌∷◌ c s) = esc-cons c s ∙ ap (λ t. escaped c ++ t) (esc-one_pass s)

-- None of the characters with which markup begins or a quoted attribute ends.
abbrev pub is_inert : ℕ → Bool
is_inert c = not (nat_eq c 60) && not (nat_eq c 62) && not (nat_eq c 34) && not (nat_eq c 39)

escaped-inert : (c : Char) → all_chars is_inert (escaped c) ≡ true
unfolding all_chars
escaped-inert c = elim (escaped-cases c) [
  | inl (e, q) ↦ rw q refl
  | inr (inl (d, e, q)) ↦ rw q refl
  | inr (inr (inl (d, e, f, q))) ↦ rw q refl
  | inr (inr (inr (inl (d, e, f, g, q)))) ↦ rw q refl
  | inr (inr (inr (inr (inl (d, e, f, g, h, q))))) ↦ rw q refl
  | inr (inr (inr (inr (inr (d, e, f, g, h, q))))) ↦ rw q (ground (arith, e, f, g, h))
]

pub one_pass-inert : (s : String) → all_chars is_inert (one_pass s) ≡ true
unfolding one_pass all_chars
one_pass-inert String.[] = refl
one_pass-inert (String.◌∷◌ c s) =
    all_chars-append is_inert (escaped c) (one_pass s) (escaped-inert c) (one_pass-inert s)
