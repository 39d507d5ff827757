-- ===== src/Anchor/Contract.antt =====
-- crates/soroban_anchor/contract/src/lib.rs. An `Address` is a parameter, and so is the answer of
-- `require_auth`, which traps where the address did not authorise the call. A key of 32 bytes is the
-- number that they write.
use stellar_risk.Common.{ℕ, Bool, Option, none, some, List, [], if◌then◌else◌, Result, ok, err}
use stellar_risk.Alerts.Memory.{lookup, put}

abbrev pub Bytes32 : Type 0
Bytes32 = ℕ

pub record Anchor : Type 0 where
  pub decision_hash : Bytes32
  pub timestamp : ℕ

pub data AnchorError : Type 0 where
  already_initialized not_initialized : AnchorError

-- How a call ends: with a result, or trapped, after which the ledger is as before the call.
pub data Outcome (A : Type 0) : Type 0 where
  returned : Result AnchorError A → Outcome A
  trapped : Outcome A

-- The two storages, each with the one `DataKey` that is used in it.
pub record Ledger (Address : Type 0) : Type 0 where
  pub admin : Option Address
  pub anchors : List (Bytes32 × Anchor)

-- `env`, as far as a call reads it: who authorised the call, and the ledger's time.
pub record Env (Address : Type 0) : Type 0 where
  pub authorized : Address → Bool
  pub time : ℕ

module _ {Address : Type 0} where
  -- Before `initialize`.
  abbrev pub deployed : Ledger Address
  deployed = record { admin = none; anchors = [] }

  unfoldable pub initialize : Address → Ledger Address → Outcome (Unit {0}) × Ledger Address
  initialize a l = elim l.admin [
    | some b ↦ (returned (err already_initialized), l)
    | none ↦ (returned (ok tt), record l { admin = some a })
  ]

  unfoldable pub anchor :
      Env Address → Bytes32 → Bytes32 → Ledger Address → Outcome ℕ × Ledger Address
  anchor env alert_id_hash decision_hash l = elim l.admin [
    | none ↦ (returned (err not_initialized), l)
    | some a ↦
        if env.authorized a
        then (
          returned (ok env.time),
          record l {
            anchors =
                put alert_id_hash (record { decision_hash = decision_hash; timestamp = env.time })
                  l.anchors;
          },
        )
        else (trapped, l)
  ]

  unfoldable pub get_anchor : Bytes32 → Ledger Address → Option Anchor
  get_anchor alert_id_hash l = lookup alert_id_hash l.anchors
