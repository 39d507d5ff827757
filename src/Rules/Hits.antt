-- ===== src/Rules/Hits.antt =====
-- What the triggers of crates/rules_engine/src/rules.rs name, and what a further rule adds.
use stellar_risk.Common.{
  ℕ, ◌+◌, String, ◌≡◌, refl, ◌∙◌, ap, Bool, true, false, not, ◌&&◌, ◌||◌, List, [], ◌∷◌, map,
  filter, any, arith, eq_iff, ◌==◌, if◌then◌else◌, nonempty,
}
use stellar_risk.Common.Sort.{has_key, IsAscending, has_key-dedup-sort, dedup-sort-IsAscending}
use stellar_risk.Platform.{Platform, Json, text, object, entry}
use stellar_risk.Domain.Transaction.{AssetMovement, key, itself, involved_accounts}
use stellar_risk.Domain.Rule.{RuleTrigger}
use stellar_risk.Domain.Accounts.{moves, carries, has_key-involved_accounts}
use stellar_risk.Rules.Context.{EvaluationContext}
use stellar_risk.Rules.BuiltIn.{
  flagged_trigger, flagged_account, first_unknown, no_texts, unusual_trigger, unusual_asset,
}

has_key-filter :
    (f : String → Bool) (a : String) (xs : List String)
    → has_key itself a (filter f xs) ≡ (f a && has_key itself a xs)
has_key-filter f a [] = ground arith
has_key-filter f a (x ∷ xs) = ground (arith, has_key-filter f a xs, eq_iff a x)

module _ ⦃p : Platform⦄ where
  open p use {F64}

  -- The text of the field of the evidence that has the given name.
  abbrev pub text_of : Json F64 → String
  text_of (text s) = s
  text_of _ = ""

  -- The account that a trigger of the flagged-account rule names: the first field of its evidence.
  abbrev pub named_account : RuleTrigger → String
  named_account t = elim t.evidence [
    | object fs ↦ elim fs [ entry k v rest ↦ text_of v | _ ↦ "" ]
    | _ ↦ ""
  ]

  map-named_account : (xs : List String) → map named_account (map flagged_trigger xs) ≡ xs
  unfolding flagged_trigger
  map-named_account [] = refl
  map-named_account (x ∷ xs) = ap (λ ys. x ∷ ys) (map-named_account xs)

  -- The flagged-account rule gives one trigger for each account that is listed and is the source or
  -- an end of a movement, in ascending order, and no other.
  pub flagged_account_exact :
      (ctx : EvaluationContext) (a : String)
      → IsAscending itself (map named_account (flagged_account ctx))
        × (has_key itself a (map named_account (flagged_account ctx)) ≡ (
            has_key itself a ctx.flagged_accounts
            && (a == ctx.tx.source_account || any (moves a) ctx.tx.movements)))
  unfolding flagged_account
  flagged_account_exact ctx a = rw map-named_account (
    dedup-sort-IsAscending itself hits,
    has_key-dedup-sort itself a hits
        ∙ has_key-filter listed a (involved_accounts ctx.tx)
        ∙ ap (λ b. listed a && b) (has_key-involved_accounts ctx.tx a),
  )
    where
      listed : String → Bool
      listed x = has_key itself x ctx.flagged_accounts

      hits : List String
      hits = filter listed (involved_accounts ctx.tx)

  -- The asset that a trigger of the unusual-asset rule names: the second field of its evidence.
  abbrev pub named_asset : RuleTrigger → String
  named_asset t = elim t.evidence [
    | object fs ↦ elim fs [
      | entry k v rest ↦ elim rest [ entry j w more ↦ text_of w | _ ↦ "" ]
      | _ ↦ ""
    ]
    | _ ↦ ""
  ]

  -- How many of the texts are the given one.
  abbrev pub occurrences : String → List String → ℕ
  occurrences k [] = 0
  occurrences k (s ∷ ss) = (if k == s then 1 else 0) + occurrences k ss

  no_texts_of_nonempty : (ss : List String) → nonempty ss ≡ true → no_texts ss ≡ false
  no_texts_of_nonempty [] h = cc
  no_texts_of_nonempty (s ∷ ss) h = refl

  map-named_asset :
      (source : String) (ms : List AssetMovement)
      → map named_asset (map (unusual_trigger source) ms)
        ≡ map (λ m. key (AssetMovement.asset m)) ms
  unfolding unusual_trigger
  map-named_asset source [] = refl
  map-named_asset source (m ∷ ms) = ap (λ ys. key m.asset ∷ ys) (map-named_asset source ms)

  occurrences-first_unknown :
      (k : String) (known seen : List String) (ms : List AssetMovement)
      → occurrences k (map (λ m. key (AssetMovement.asset m)) (first_unknown known seen ms)) ≡ (
          if not (has_key itself k seen) && not (has_key itself k known) && any (carries k) ms
          then 1
          else 0)
  unfolding first_unknown
  occurrences-first_unknown k known seen [] = ground arith
  occurrences-first_unknown k known seen (m ∷ ms) =
      ground
        (arith, eq_iff k (key m.asset), occurrences-first_unknown k known (key m.asset ∷ seen) ms)

  -- Where the source has known assets, the unusual-asset rule names an asset once if some movement
  -- carries it and it is not known, and never otherwise.
  pub unusual_asset_exact :
      (ctx : EvaluationContext) (k : String)
      → nonempty ctx.source_history.known_assets ≡ true
      → occurrences k (map named_asset (unusual_asset ctx)) ≡ (
          if not (has_key itself k ctx.source_history.known_assets)
            && any (carries k) ctx.tx.movements
          then 1
          else 0)
  unfolding unusual_asset
  unusual_asset_exact ctx k h = ground (
    arith,
    no_texts_of_nonempty ctx.source_history.known_assets h,
    map-named_asset ctx.tx.source_account
        (first_unknown ctx.source_history.known_assets [] ctx.tx.movements),
    occurrences-first_unknown k ctx.source_history.known_assets [] ctx.tx.movements,
  )
