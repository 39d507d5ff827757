-- ===== src/Alerts/Memory.antt =====
-- crates/alerts/src/store.rs and memory.rs: the in-memory alert store. Its two mutexes guard the two
-- fields of the state; a method is one step.
use stellar_risk.Common.{
  ◌≡◌, refl, Bool, true, Option, none, some, List, [], ◌∷◌, ◌++◌, if◌then◌else◌, nat_eq, filter,
  take, map, arith,
}
use stellar_risk.Common.Int.{ℤ, pos, ltb_ℤ, clamp_nonneg}
use stellar_risk.Platform.{Platform, Uuid}
use stellar_risk.Domain.AlertStatus
use stellar_risk.Domain.AlertStatus.{AlertStatus}
use stellar_risk.Domain.Alert.{AiAdvisoryStatus, Alert, InvestigatorDecisionRecord}

pub record AlertFilter : Type 0 where
  pub status : Option AlertStatus
  pub limit : ℤ
  pub offset : ℤ

-- A `HashMap` keyed by `Uuid`, as the list of its entries.
module _ {V : Type 0} where
  unfoldable pub lookup : Uuid → List (Uuid × V) → Option V
  lookup k [] = none
  lookup k ((j, v) ∷ m) = if nat_eq j k then some v else lookup k m

  unfoldable pub put : Uuid → V → List (Uuid × V) → List (Uuid × V)
  put k v [] = (k, v) ∷ []
  put k v ((j, w) ∷ m) = let rest = put k v m in if nat_eq j k then (j, v) ∷ m else (j, w) ∷ rest

  -- A write through `get_mut`, which does nothing at a key that is absent.
  unfoldable pub adjust : Uuid → (V → V) → List (Uuid × V) → List (Uuid × V)
  adjust k f [] = []
  adjust k f ((j, w) ∷ m) =
      let rest = adjust k f m in if nat_eq j k then (j, f w) ∷ m else (j, w) ∷ rest

  abbrev pub map_option : (V → V) → Option V → Option V
  map_option f none = none
  map_option f (some v) = some (f v)

  pub lookup-put :
      (j k : Uuid) (v : V) (m : List (Uuid × V))
      → lookup j (put k v m) ≡ (if nat_eq k j then some v else lookup j m)
  unfolding lookup put
  lookup-put j k v [] = refl
  lookup-put j k v ((i, w) ∷ m) = ground (arith, lookup-put j k v m)

  pub lookup-adjust :
      (j k : Uuid) (f : V → V) (m : List (Uuid × V))
      → lookup j (adjust k f m) ≡ (if nat_eq k j then map_option f (lookup j m) else lookup j m)
  unfolding lookup adjust
  lookup-adjust j k f [] = ground arith
  lookup-adjust j k f ((i, w) ∷ m) = ground (arith, lookup-adjust j k f m)

module _ ⦃p : Platform⦄ where
  open p use {DateTime, le_time}

  pub record AlertStore : Type 0 where
    pub alerts : List (Uuid × Alert)
    pub decisions : List InvestigatorDecisionRecord

  -- `InMemoryAlertStore::new`
  abbrev pub empty : AlertStore
  empty = record { alerts = []; decisions = [] }

  unfoldable pub insert : Alert → AlertStore → AlertStore
  insert a s = record s { alerts = put a.id a s.alerts }

  unfoldable pub get : Uuid → AlertStore → Option Alert
  get id s = lookup id s.alerts

  abbrev matches : Option AlertStatus → Alert → Bool
  matches none a = true
  matches (some s) a = AlertStatus.is_same s a.status

  -- The stable sort by `Reverse(created_at)`: the newest first.
  unfoldable pub insert_newest : Alert → List Alert → List Alert
  insert_newest a [] = a ∷ []
  insert_newest a (b ∷ bs) =
      let rest = insert_newest a bs in
      if le_time b.created_at a.created_at then a ∷ b ∷ bs else b ∷ rest

  unfoldable pub sort_newest : List Alert → List Alert
  unfolding insert_newest
  sort_newest [] = []
  sort_newest (a ∷ as') = insert_newest a (sort_newest as')

  abbrev truncate : ℤ → List Alert → List Alert
  truncate limit out = if ltb_ℤ (pos 0) limit then take (clamp_nonneg limit) out else out

  -- The filter's `offset` is not read.
  unfoldable pub list : AlertFilter → AlertStore → List Alert
  unfolding sort_newest
  list f s = truncate f.limit (sort_newest (filter (matches f.status) (map (λ e. e.1) s.alerts)))

  unfoldable pub set_ai_status : Uuid → AiAdvisoryStatus → AlertStore → AlertStore
  set_ai_status id st s = record s {
    alerts = adjust id (λ a. record a { ai_status = st }) s.alerts;
  }

  unfoldable pub record_decision :
      InvestigatorDecisionRecord → AlertStatus → AlertStore → AlertStore
  record_decision r st s = record {
    alerts = adjust r.alert_id (λ a. record a { status = st }) s.alerts;
    decisions = s.decisions ++ r ∷ [];
  }

  abbrev pub decides : Uuid → InvestigatorDecisionRecord → Bool
  decides id d = nat_eq d.alert_id id

  unfoldable pub decision_history : Uuid → AlertStore → List InvestigatorDecisionRecord
  decision_history id s = filter (decides id) s.decisions
