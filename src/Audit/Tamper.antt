-- ===== src/Audit/Tamper.antt =====
-- What `verify_chain` of crates/audit/src/chain.rs detects: two logs that it accepts and that end in
-- one hash hold the same content, or else the digest has a collision, which can be pointed out.
use stellar_risk.Common.{
  String, ◌≡◌, refl, ◌∙◌, sym, ◌⊎◌, ◌↔◌, inl, inr, Bool, true, false, Option, none, some, List, [],
  ◌∷◌, ◌==◌, ◌&&◌, eq_iff, arith, length, Bool-cases, ok, nat_eq,
}
use mathlib.Core.Bool.{false≢true}
use stellar_risk.Common.Int.{ℤ, pos, negsuc}
use stellar_risk.Platform.{Platform, Uuid, Json}
use stellar_risk.Domain.AuditEvent.{AuditRecord}
use stellar_risk.Audit.Chain.{
  genesis_hash, canonical, digest, id_json, text_json, recompute, verify_chain,
}
use stellar_risk.Audit.Store.{last_hash}
use stellar_risk.Audit.Linked.{IsLinked, verify_chain_iff}
use stellar_risk.Audit.Growth.{final_hash, last_hash-final}

module _ ⦃p : Platform⦄ where
  open p use {F64, DateTime, uuid_text, to_rfc3339}

  -- The JSON value that is hashed for a record.
  abbrev pub content : AuditRecord → Json F64
  content r = canonical r.prev_hash r.sequence r.alert_id r.tx_id r.event_json r.created_at

  -- The records agree in everything that is hashed, and in the stored hash.
  abbrev pub SameContent : List AuditRecord → List AuditRecord → Type 0
  SameContent [] [] = Unit
  SameContent (r ∷ rs) (s ∷ ss) = (content r ≡ content s) × (r.hash ≡ s.hash) × SameContent rs ss
  SameContent _ _ = ⊥

  -- Different contents that both have the stored hash as their digest.
  abbrev pub Collides : AuditRecord → AuditRecord → Type 0
  Collides r s =
      ¬ (content r ≡ content s)
      × (r.hash ≡ s.hash)
      × (digest (content r) ≡ ok r.hash)
      × (digest (content s) ≡ ok s.hash)

  -- The records of some position collide, and those after it agree.
  abbrev pub Collision : List AuditRecord → List AuditRecord → Type 0
  Collision (r ∷ rs) (s ∷ ss) = (Collides r s × SameContent rs ss) ⊎ Collision rs ss
  Collision _ _ = ⊥

  abbrev same_id : Option Uuid → Option Uuid → Bool
  same_id none none = true
  same_id (some u) (some v) = uuid_text u == uuid_text v
  same_id _ _ = false

  abbrev same_text : Option String → Option String → Bool
  same_text none none = true
  same_text (some s) (some t) = s == t
  same_text _ _ = false

  abbrev same_int : ℤ → ℤ → Bool
  same_int (pos a) (pos b) = nat_eq a b
  same_int (negsuc a) (negsuc b) = nat_eq a b
  same_int _ _ = false

  same_id_iff : (a b : Option Uuid) → (same_id a b ≡ true) ↔ (id_json a ≡ id_json b)
  same_id_iff none none = (λ h. refl, λ h. refl)
  same_id_iff none (some v) = (λ h. cc, λ h. cc)
  same_id_iff (some u) none = (λ h. cc, λ h. cc)
  same_id_iff (some u) (some v) = ground (arith, eq_iff (uuid_text u) (uuid_text v))

  same_text_iff : (a b : Option String) → (same_text a b ≡ true) ↔ (text_json a ≡ text_json b)
  same_text_iff none none = (λ h. refl, λ h. refl)
  same_text_iff none (some v) = (λ h. cc, λ h. cc)
  same_text_iff (some u) none = (λ h. cc, λ h. cc)
  same_text_iff (some u) (some v) = ground (arith, eq_iff u v)

  same_int_iff : (a b : ℤ) → (same_int a b ≡ true) ↔ (a ≡ b)
  same_int_iff a b = ground arith

  -- Whether the hashed contents are equal.
  abbrev same : AuditRecord → AuditRecord → Bool
  same r s =
      r.prev_hash == s.prev_hash
      && same_int r.sequence s.sequence
      && same_id r.alert_id s.alert_id
      && same_text r.tx_id s.tx_id
      && r.event_json == s.event_json
      && to_rfc3339 r.created_at == to_rfc3339 s.created_at

  same_iff : (r s : AuditRecord) → (same r s ≡ true) ↔ (content r ≡ content s)
  unfolding canonical
  same_iff r s = ground (
    arith,
    eq_iff r.prev_hash s.prev_hash,
    same_int_iff r.sequence s.sequence,
    same_id_iff r.alert_id s.alert_id,
    same_text_iff r.tx_id s.tx_id,
    eq_iff r.event_json s.event_json,
    eq_iff (to_rfc3339 r.created_at) (to_rfc3339 s.created_at),
  )

  -- Records with one hash have one content, or they collide.
  same_or_Collides :
      (r s : AuditRecord)
      → recompute r ≡ ok r.hash
      → recompute s ≡ ok s.hash
      → r.hash ≡ s.hash
      → ((content r ≡ content s) × (r.prev_hash ≡ s.prev_hash)) ⊎ Collides r s
  unfolding recompute
  same_or_Collides r s hr hs e = elim (Bool-cases (same r s)) [
    | inl y ↦ inl ((same_iff r s).0 y, ground (arith, eq_iff r.prev_hash s.prev_hash))
    | inr n ↦ inr (λ q. false≢true (sym n ∙ (same_iff r s).1 q), e, hr, hs)
  ]

  agree :
      (before before' : String) (rs ss : List AuditRecord)
      → length rs ≡ length ss
      → IsLinked before rs
      → IsLinked before' ss
      → final_hash before rs ≡ final_hash before' ss
      → (SameContent rs ss × (before ≡ before')) ⊎ Collision rs ss
  agree before before' [] [] n hr hs e = inl (tt, e)
  agree before before' [] (s ∷ ss) n hr hs e = absurd (omega arith)
  agree before before' (r ∷ rs) [] n hr hs e = absurd (omega arith)
  agree before before' (r ∷ rs) (s ∷ ss) n hr hs e =
      elim (agree r.hash s.hash rs ss (omega arith) hr.2 hs.2 e) [
        | inr c ↦ inr (inr c)
        | inl (c, q) ↦ elim (same_or_Collides r s hr.1 hs.1 q) [
          | inr k ↦ inr (inl (k, c))
          | inl (k, b) ↦ inl ((k, q, c), sym hr.0 ∙ b ∙ hs.0)
        ]
      ]

  -- Two logs of one length that `verify_chain` accepts and whose last hashes are equal agree, record
  -- by record, in all that is hashed and in the hashes; or at some position they hold two different
  -- contents whose digests are one hash, the one that both records store, and agree after it.
  pub tampering_collides :
      (rs ss : List AuditRecord)
      → (verify_chain rs).valid ≡ true
      → (verify_chain ss).valid ≡ true
      → length rs ≡ length ss
      → last_hash rs ≡ last_hash ss
      → SameContent rs ss ⊎ Collision rs ss
  tampering_collides rs ss vr vs n e =
      elim (agree genesis_hash genesis_hash rs ss n ((verify_chain_iff rs).0.0 vr)
        ((verify_chain_iff ss).0.0 vs) (sym (last_hash-final rs) ∙ e ∙ last_hash-final ss)) [
          | inl (c, q) ↦ inl c
          | inr c ↦ inr c
        ]
