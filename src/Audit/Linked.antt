-- ===== src/Audit/Linked.antt =====
-- `verify_chain` of crates/audit/src/chain.rs decides a property of the log, and reports the first
-- record at which it fails.
use stellar_risk.Common.{
  ◌∙◌, ap, ◌⊎◌, inl, inr, Bool-cases, ℕ, suc, ◌+◌, String, ◌≡◌, refl, ◌↔◌, true, false, some, List,
  [], ◌∷◌, ◌++◌, ◌==◌, eq_iff, arith, length, ok, err,
}
use mathlib.Core.Bool.{false≢true}
use stellar_risk.Platform.{Platform}
use stellar_risk.Domain.AuditEvent.{AuditRecord}
use stellar_risk.Audit.Chain.{
  AuditResult, check_hash, ChainVerification, genesis_hash, recompute, broken, verified,
  verify_from, verify_chain,
}

module _ ⦃p : Platform⦄ where
  -- Each record names the hash of the one before it and stores the hash of its own content.
  abbrev pub IsLinked : String → List AuditRecord → Type 0
  IsLinked prev [] = Unit
  IsLinked prev (r ∷ rs) = (r.prev_hash ≡ prev) × (recompute r ≡ ok r.hash) × IsLinked r.hash rs

  -- The record names the given hash and stores the hash of its own content.
  abbrev IsNext : String → AuditRecord → Type 0
  IsNext prev r = (r.prev_hash ≡ prev) × (recompute r ≡ ok r.hash)

  -- What one round of the loop does: it goes on, or it reports the record that it is at.
  abbrev Goes : ChainVerification → ChainVerification → Type 0 → ℕ → AuditRecord → Type 0
  Goes v rest Good i r =
      (Good × (v ≡ rest)) ⊎ ((why : String) × (v ≡ broken i r.sequence why) × (¬ Good))

  check_hash-Goes :
      (i : ℕ) (r : AuditRecord) (answer : AuditResult String) (rest : ChainVerification)
      → Goes (check_hash i r answer rest) rest (answer ≡ ok r.hash) i r
  unfolding check_hash
  check_hash-Goes i r (err e) rest = inr (_, refl, λ g. cc)
  check_hash-Goes i r (ok h) rest = elim (Bool-cases (h == r.hash)) [
    | inl e ↦ inl (ap ok ((eq_iff h r.hash).0 e), rw e)
    | inr e ↦ rw e (inr (_, refl, λ g. ground (arith, eq_iff h r.hash)))
  ]

  round-Goes :
      (i : ℕ) (prev : String) (r : AuditRecord) (rs : List AuditRecord)
      → Goes (verify_from i prev (r ∷ rs)) (verify_from (suc i) r.hash rs) (IsNext prev r) i r
  unfolding verify_from
  round-Goes i prev r rs = elim (Bool-cases (r.prev_hash == prev)) [
    | inr e ↦ rw e (inr (_, refl, λ g. ground (arith, eq_iff r.prev_hash prev)))
    | inl e ↦ rw e (elim (check_hash-Goes i r (recompute r) (verify_from (suc i) r.hash rs)) [
      | inl (g, v) ↦ inl (((eq_iff r.prev_hash prev).0 e, g), v)
      | inr (why, v, g) ↦ inr (why, v, λ n. g n.1)
    ])
  ]

  pub verify_from_linked :
      (i : ℕ) (prev : String) (rs : List AuditRecord)
      → IsLinked prev rs
      → verify_from i prev rs ≡ verified (i + length rs)
  unfolding verify_from
  verify_from_linked i prev [] h = ground arith
  verify_from_linked i prev (r ∷ rs) h = elim (round-Goes i prev r rs) [
    | inl (g, v) ↦ v ∙ verify_from_linked (suc i) r.hash rs h.2 ∙ ap verified (omega arith)
    | inr (why, v, g) ↦ absurd (g (h.0, h.1))
  ]

  pub IsLinked-verify_from :
      (i : ℕ) (prev : String) (rs : List AuditRecord)
      → (verify_from i prev rs).valid ≡ true
      → IsLinked prev rs
  IsLinked-verify_from i prev [] h = tt
  IsLinked-verify_from i prev (r ∷ rs) h = elim (round-Goes i prev r rs) [
    | inl (g, v) ↦ (g.0, g.1, IsLinked-verify_from (suc i) r.hash rs (rw v at h))
    | inr (why, v, g) ↦ absurd (false≢true (rw v at h))
  ]

  -- `verify_chain` accepts exactly the logs that are linked from the genesis hash, and has then
  -- counted every record.
  pub verify_chain_iff :
      (rs : List AuditRecord)
      → (((verify_chain rs).valid ≡ true) ↔ IsLinked genesis_hash rs)
        × (((verify_chain rs).valid ≡ true) ↔ (verify_chain rs ≡ verified (length rs)))
  unfolding verify_chain
  verify_chain_iff rs = (
    (IsLinked-verify_from 0 genesis_hash rs, λ l. ap (λ v. ChainVerification.valid v) (counted l)),
    (
      λ h. counted (IsLinked-verify_from 0 genesis_hash rs h),
      λ e. ap (λ v. ChainVerification.valid v) e,
    ),
  )
    where
      counted : IsLinked genesis_hash rs → verify_from 0 genesis_hash rs ≡ verified (length rs)
      counted l = verify_from_linked 0 genesis_hash rs l ∙ ap verified (omega arith)

  -- Where a log is cut: the records before, the first bad one and those after it.
  pub record Break (i : ℕ) (prev : String) (rs : List AuditRecord) (v : ChainVerification)
      : Type 0 where
    pub before : List AuditRecord
    pub bad : AuditRecord
    pub after : List AuditRecord
    pub parts : rs ≡ before ++ bad ∷ after
    pub linked : IsLinked prev before
    pub not_linked : ¬ IsLinked prev (before ++ bad ∷ [])
    pub counted : v.records_checked ≡ i + length before
    pub reported : v.broken_at_sequence ≡ some bad.sequence

  Break-verify_from :
      (i : ℕ) (prev : String) (rs : List AuditRecord)
      → (verify_from i prev rs).valid ≡ false
      → Break i prev rs (verify_from i prev rs)
  unfolding verify_from
  Break-verify_from i prev [] h = cc
  Break-verify_from i prev (r ∷ rs) h = elim (round-Goes i prev r rs) [
    | inl (g, v) ↦
        let b : Break (suc i) r.hash rs (verify_from (suc i) r.hash rs) =
          Break-verify_from (suc i) r.hash rs (rw v at h) in
        record {
          before = r ∷ b.before;
          bad = b.bad;
          after = b.after;
          parts = ap (λ xs. r ∷ xs) b.parts;
          linked = (g.0, g.1, b.linked);
          not_linked = λ l. b.not_linked l.2;
          counted = ap (λ w. ChainVerification.records_checked w) v ∙ omega (arith, b.counted);
          reported = ap (λ w. ChainVerification.broken_at_sequence w) v ∙ b.reported;
        }
    | inr (why, v, g) ↦ record {
      before = [];
      bad = r;
      after = rs;
      parts = refl;
      linked = tt;
      not_linked = λ l. g (l.0, l.1);
      counted = ap (λ w. ChainVerification.records_checked w) v ∙ omega arith;
      reported = ap (λ w. ChainVerification.broken_at_sequence w) v;
    }
  ]

  -- A log that is rejected splits into records that are linked, the first one that does not follow
  -- them, and the rest; the answer counts the former and gives the sequence number of the bad one.
  pub verify_chain-Break :
      (rs : List AuditRecord)
      → (verify_chain rs).valid ≡ false
      → Break 0 genesis_hash rs (verify_chain rs)
  unfolding verify_chain
  verify_chain-Break rs h = Break-verify_from 0 genesis_hash rs h
