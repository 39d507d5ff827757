-- ===== src/Anchor/Calls.antt =====
-- What sequences of calls do to the contract of crates/soroban_anchor/contract/src/lib.rs.
use stellar_risk.Common.{
  ◌≡◌, refl, ◌∙◌, sym, ap, false, ◌&&◌, Option, some, List, [], ◌∷◌, if◌then◌else◌, nat_eq, arith,
  All, err, Bool-cases, inl, inr,
}
use stellar_risk.Alerts.Memory.{lookup-put}
use stellar_risk.Anchor.Contract.{
  Bytes32, Anchor, returned, trapped, already_initialized, Ledger, Env, initialize, anchor,
  get_anchor,
}

-- A call that writes, and the environment that it meets.
pub data Call (Address : Type 0) : Type 0 where
  initializing : Address → Call Address
  anchoring : Env Address → Bytes32 → Bytes32 → Call Address

module _ {Address : Type 0} where
  abbrev pub execute : Call Address → Ledger Address → Ledger Address
  execute (initializing a) l = (initialize a l).1
  execute (anchoring env k h) l = (anchor env k h l).1

  unfoldable pub run : List (Call Address) → Ledger Address → Ledger Address
  run [] l = l
  run (c ∷ cs) l = run cs (execute c l)

  -- The last commitment for a key that a call with the admin's authorisation made.
  unfoldable pub latest : Address → Bytes32 → List (Call Address) → Option Anchor → Option Anchor
  latest a k [] o = o
  latest a k (initializing b ∷ cs) o = latest a k cs o
  latest a k (anchoring env j h ∷ cs) o = latest a k cs (
      if env.authorized a && nat_eq j k
      then some (record { decision_hash = h; timestamp = env.time })
      else o)

  initialize_second :
      (a b : Address) (l : Ledger Address)
      → l.admin ≡ some a
      → initialize b l ≡ (returned (err already_initialized), l)
  unfolding initialize
  initialize_second a b l h = rw h refl

  execute_second :
      (a b : Address) (l : Ledger Address) → l.admin ≡ some a → execute (initializing b) l ≡ l
  execute_second a b l h = ap (λ r. r.1) (initialize_second a b l h)

  execute_unauthorized :
      (a : Address) (env : Env Address) (k d : Bytes32) (l : Ledger Address)
      → l.admin ≡ some a
      → env.authorized a ≡ false
      → anchor env k d l ≡ (trapped, l)
  unfolding anchor
  execute_unauthorized a env k d l h u = ground (arith, h, u)

  anchor-Anchored :
      (a : Address) (env : Env Address) (j k d : Bytes32) (l : Ledger Address)
      → l.admin ≡ some a
      → ((anchor env j d l).1.admin ≡ some a)
        × (get_anchor k (anchor env j d l).1 ≡ (
            if env.authorized a && nat_eq j k
            then some (record { decision_hash = d; timestamp = env.time })
            else get_anchor k l))
  unfolding anchor get_anchor
  anchor-Anchored a env j k d l h = rw h (elim (Bool-cases (env.authorized a)) [
    | inl e ↦
        rw e (refl, lookup-put k j (record { decision_hash = d; timestamp = env.time }) l.anchors)
    | inr e ↦ rw e (refl, refl)
  ])

  -- Once there is an admin, every sequence of calls keeps it, and what `get_anchor` then answers for
  -- a key is the last commitment that the admin authorised for it, or what it answered before.
  pub run-latest :
      (a : Address) (k : Bytes32) (cs : List (Call Address)) (l : Ledger Address)
      → l.admin ≡ some a
      → ((run cs l).admin ≡ some a) × (get_anchor k (run cs l) ≡ latest a k cs (get_anchor k l))
  unfolding run latest
  run-latest a k [] l h = (h, refl)
  run-latest a k (initializing b ∷ cs) l h =
      let q : run cs (execute (initializing b) l) ≡ run cs l =
        ap (run cs) (execute_second a b l h) in
      let (kept, got) = run-latest a k cs l h in
      (ap (λ m. Ledger.admin m) q ∙ kept, ap (get_anchor k) q ∙ got)
  run-latest a k (anchoring env j d ∷ cs) l h =
      let (kept, got) = anchor-Anchored a env j k d l h in
      rw (sym got) (run-latest a k cs (anchor env j d l).1 kept)

  -- A sequence of calls that the admin authorises none of leaves the contract as it was.
  pub run_unauthorized :
      (a : Address) (cs : List (Call Address)) (l : Ledger Address)
      → l.admin ≡ some a
      → All
          (λ c. elim c [ initializing b ↦ false | anchoring env k h ↦ env.authorized a ] ≡ false)
          cs
      → run cs l ≡ l
  unfolding run
  run_unauthorized a [] l h u = refl
  run_unauthorized a (initializing b ∷ cs) l h u =
      ap (run cs) (execute_second a b l h) ∙ run_unauthorized a cs l h u.1
  run_unauthorized a (anchoring env j d ∷ cs) l h u =
      ap (λ r. run cs r.1) (execute_unauthorized a env j d l h u.0) ∙ run_unauthorized a cs l h u.1
