-- ===== src/Storage/Agree.antt =====
-- The two implementations of the trait `AlertStore` beside each other: crates/storage's over SQLite
-- and crates/alerts's in memory.
use stellar_risk.Common.{
  ℕ, ◌≡◌, ◌⊎◌, sym, ◌∙◌, ap, inl, inr, some, List, [], ◌∷◌, All, ok, err, if◌then◌else◌, nat_eq,
  arith,
}
use stellar_risk.Platform.{Platform, Uuid}
use stellar_risk.Codec.{Codec}
use stellar_risk.Domain.Error.{DomainError, DomainResult}
use stellar_risk.Domain.Decision
use stellar_risk.Domain.Alert.{Alert}
use stellar_risk.Alerts.Memory
use stellar_risk.Alerts.Memory.{AlertStore, map_option, lookup-put, lookup-adjust}
use stellar_risk.Storage.AlertTable.{AlertTables}
use stellar_risk.Storage.Readable.{HaveTexts}
use stellar_risk.Storage.Views.{set_at, Shows}
use stellar_risk.Storage.Mapped.{IsStorable, IsUnhindered, applied, advised, moved, outcome_refines}
use stellar_risk.Storage.Projection.{
  Write, inserting, advising, deciding, outcome, write, write_all,
}

module _ ⦃p : Platform⦄ ⦃c : Codec⦄ where
  -- The call on the store in memory.
  abbrev pub memory_write : Write → AlertStore → AlertStore
  memory_write (inserting a faults refusal) s = Memory.insert a s
  memory_write (advising id x faults) s = Memory.set_ai_status id x s
  memory_write (deciding r faults refusal) s =
      Memory.record_decision r (Decision.to_status r.decision) s

  -- For each identifier both stores answer the same alert, or none.
  abbrev pub Agrees : AlertTables → AlertStore → Type 0
  Agrees t s = Shows t (λ id. Memory.get id s)

  nat_eq-swap {ℓ} :
      {A : Type ℓ} (x y : ℕ) (a b : A)
      → (if nat_eq x y then a else b) ≡ (if nat_eq y x then a else b)
  nat_eq-swap x y a b = ground arith

  adjusted :
      (id : Uuid) (g : Alert → Alert) (s : AlertStore) (x : Uuid)
      → set_at id (map_option g) (λ y. Memory.get y s) x
        ≡ Memory.lookup x (Memory.adjust id g s.alerts)
  unfolding Memory.get
  adjusted id g s x =
      nat_eq-swap x id (map_option g (Memory.lookup x s.alerts)) (Memory.lookup x s.alerts)
      ∙ sym (lookup-adjust x id g s.alerts)

  applied-memory :
      (w : Write) (s : AlertStore) (x : Uuid)
      → applied w (λ y. Memory.get y s) x ≡ Memory.get x (memory_write w s)
  unfolding Memory.get Memory.insert Memory.set_ai_status Memory.record_decision
  applied-memory (inserting a faults refusal) s x =
      nat_eq-swap x a.id (some a) (Memory.lookup x s.alerts) ∙ sym (lookup-put x a.id a s.alerts)
  applied-memory (advising id v faults) s x = adjusted id (advised v) s x
  applied-memory (deciding r faults refusal) s x =
      adjusted r.alert_id (moved (Decision.to_status r.decision)) s x

  -- The call keeps the stores in agreement, or SQLite refuses it.
  abbrev pub Simulated : Write → AlertTables → AlertStore → Type 0
  Simulated w t s =
      (((outcome w t).0 ≡ ok tt) × Agrees (outcome w t).1 (memory_write w s))
      ⊎ ((e : DomainError) × (outcome w t ≡ (err e, t)) × ¬ IsUnhindered w t)

  -- Where the SQLite store answers `get` as the store in memory does, for every identifier, it does so
  -- after both have taken the same insertion, advisory status or decision with its status, which
  -- succeeds; or the SQLite call answers an error and leaves the tables, and then a statement failed,
  -- a value could not be written or a constraint was broken. The texts of identifiers are distinct, and
  -- what is written for the values of the call is read back.
  pub alert_store_refines :
      (w : Write) (t : AlertTables) (s : AlertStore)
      → HaveTexts
      → IsStorable w
      → Agrees t s
      → Simulated w t s
  alert_store_refines w t s laws back h =
      elim (outcome_refines w t (λ id. Memory.get id s) laws back h) [
        | inl (e, shows) ↦ inl (e, λ x. shows x ∙ ap ok (applied-memory w s x))
        | inr r ↦ inr r
      ]

  -- The calls on the store in memory, without those that SQLite refuses.
  abbrev pub taken : DomainResult (Unit {0}) → Write → AlertStore → AlertStore
  taken (ok u) w s = memory_write w s
  taken (err e) w s = s

  abbrev pub replayed : List Write → AlertTables → AlertStore → AlertStore
  replayed [] t s = s
  replayed (w ∷ ws) t s = replayed ws (write w t) (taken (outcome w t).0 w s)

  Agrees-write :
      (w : Write) (t : AlertTables) (s : AlertStore)
      → HaveTexts
      → IsStorable w
      → Agrees t s
      → Agrees (write w t) (taken (outcome w t).0 w s)
  unfolding write
  Agrees-write w t s laws back h = elim (alert_store_refines w t s laws back h) [
    | inl (e, agrees) ↦ rw (write, e) agrees
    | inr (x, e, n) ↦ rw (write, e) h
  ]

  -- After any calls on both, with any failures of the database, the SQLite store answers `get` as the
  -- store in memory does that took the calls that SQLite did not refuse, where they agreed before, so
  -- from empty ones. The texts of identifiers are distinct, and what is written
  -- for the values of the calls is read back.
  pub stores_agree :
      (ws : List Write) (t : AlertTables) (s : AlertStore)
      → HaveTexts
      → All IsStorable ws
      → Agrees t s
      → Agrees (write_all ws t) (replayed ws t s)
  unfolding write_all
  stores_agree [] t s laws back h = h
  stores_agree (w ∷ ws) t s laws back h =
      stores_agree ws (write w t) (taken (outcome w t).0 w s) laws back.1
        (Agrees-write w t s laws back.0 h)
