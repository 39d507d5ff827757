-- ===== src/Storage/Views.antt =====
-- What a caller sees of the tables of crates/storage/src/alert_store.rs: the alert of each
-- identifier, which the writing methods change as operations on a map do.
use stellar_risk.Common.{
  String, Bool, false, ◌≡◌, refl, sym, ◌∙◌, ap, inl, inr, Option, none, some, List, [], ◌∷◌, ◌++◌,
  ◌==◌, any, find?, ok, ◌>>=◌, if◌then◌else◌, arith, eq_iff, nat_eq, nat_eq_iff, Bool-cases, ok_inj,
  bind_ok,
}
use stellar_risk.Platform.{Platform, Uuid}
use stellar_risk.Codec.{Codec}
use stellar_risk.Domain.Error.{DomainResult}
use stellar_risk.Domain.Alert.{Alert}
use stellar_risk.Alerts.Memory.{map_option}
use stellar_risk.Storage.Query.{Faults}
use stellar_risk.Storage.AlertTable.{AlertRow, AlertTables, has_id, update, row_to_alert, get}
use stellar_risk.Storage.Readable.{HaveTexts, IsRead, row_to_alert-read, IsRead-row_to_alert}

module _ {ℓ} {A : Type ℓ} where
  find-absent :
      (f : A → Bool) (xs : List A) (y : A)
      → any f xs ≡ false
      → find? f (xs ++ y ∷ []) ≡ (if f y then some y else none)
  find-absent f [] y h = refl
  find-absent f (x ∷ xs) y h = elim (Bool-cases (f x)) [
    | inl e ↦ absurd (cc (rw e at h))
    | inr e ↦ rw e (find-absent f xs y (rw e at h))
  ]

  find-skip :
      (f : A → Bool) (xs : List A) (y : A) → f y ≡ false → find? f (xs ++ y ∷ []) ≡ find? f xs
  find-skip f [] y h = rw h refl
  find-skip f (x ∷ xs) y h = elim (Bool-cases (f x)) [
    | inl e ↦ rw e refl
    | inr e ↦ rw e (find-skip f xs y h)
  ]

module _ ⦃p : Platform⦄ where
  open p use {uuid_text}

  find-update :
      (id : String) (f : AlertRow → AlertRow) (rows : List AlertRow)
      → ((r : AlertRow) → AlertRow.id (f r) ≡ r.id)
      → find? (has_id id) (update id f rows) ≡ map_option f (find? (has_id id) rows)
  unfolding update
  find-update id f [] h = refl
  find-update id f (r ∷ rs) h = elim (Bool-cases (r.id == id)) [
    | inl e ↦ rw (e, h r, e) refl
    | inr e ↦ rw (e, e) (find-update id f rs h)
  ]

  find-update-other :
      (x id : String) (f : AlertRow → AlertRow) (rows : List AlertRow)
      → ((r : AlertRow) → AlertRow.id (f r) ≡ r.id)
      → (x == id) ≡ false
      → find? (has_id x) (update id f rows) ≡ find? (has_id x) rows
  unfolding update
  find-update-other x id f [] h n = refl
  find-update-other x id f (r ∷ rs) h n = elim (Bool-cases (r.id == id)) [
    | inl e ↦
        let same = (eq_iff r.id id).0 e in
        let other : (r.id == x) ≡ false = ground (arith, same, n, eq_iff r.id x, eq_iff x id) in
        rw (e, h r, other) (find-update-other x id f rs h n)
    | inr e ↦
        rw e (ap (λ found. if r.id == x then some r else found) (find-update-other x id f rs h n))
  ]

  module _ ⦃c : Codec⦄ where
    open c use {ai_status_text}

    abbrev pub healthy : Faults
    healthy i = none

    -- What a reader is shown of a row.
    abbrev pub seen : Option AlertRow → DomainResult (Option Alert)
    seen row = elim row [ none ↦ ok none | some r ↦ row_to_alert r >>= λ a. ok (some a) ]

    -- For each identifier `get` answers what the map has.
    abbrev pub Shows : AlertTables → (Uuid → Option Alert) → Type 0
    Shows t m = (id : Uuid) → get id healthy t ≡ ok (m id)

    get-healthy :
        (id : Uuid) (t : AlertTables)
        → get id healthy t ≡ seen (find? (has_id (uuid_text id)) t.alerts)
    unfolding get
    get-healthy id t = refl

    -- A map with another alert under one identifier.
    abbrev pub set_at :
        Uuid → (Option Alert → Option Alert) → (Uuid → Option Alert) → Uuid → Option Alert
    set_at id f m x = if nat_eq x id then f (m x) else m x

    uuid_other :
        (x id : Uuid) → HaveTexts → nat_eq x id ≡ false → (uuid_text x == uuid_text id) ≡ false
    uuid_other x id laws n = elim (Bool-cases (uuid_text x == uuid_text id)) [
      | inr e ↦ e
      | inl e ↦
          let equal = laws x id ((eq_iff (uuid_text x) (uuid_text id)).0 e) in
          absurd (cc ((nat_eq_iff x id).1 equal, n))
    ]

    seen-map_option :
        (f : AlertRow → AlertRow) (g : Alert → Alert) (row : Option AlertRow) (m : Option Alert)
        → ((r : AlertRow) (a : Alert) → IsRead r a → IsRead (f r) (g a))
        → seen row ≡ ok m
        → seen (map_option f row) ≡ ok (map_option g m)
    seen-map_option f g none m h q = ap (λ o. ok (map_option g o)) (ok_inj q)
    seen-map_option f g (some r) m h q =
        let (a, e, q') = bind_ok _ _ m q in
        rw (row_to_alert-read (f r) (g a) (h r a (IsRead-row_to_alert r a e)))
          (ap (λ o. ok (map_option g o)) (ok_inj q'))

    pub Shows-update :
        (id : Uuid) (f : AlertRow → AlertRow) (g : Alert → Alert) (t u : AlertTables)
        (m : Uuid → Option Alert)
        → HaveTexts
        → ((r : AlertRow) → AlertRow.id (f r) ≡ r.id)
        → ((r : AlertRow) (a : Alert) → IsRead r a → IsRead (f r) (g a))
        → u.alerts ≡ update (uuid_text id) f t.alerts
        → Shows t m
        → Shows u (set_at id (map_option g) m)
    unfolding get
    Shows-update id f g t u m laws k h e s x =
        get-healthy x u
        ∙ ap (λ rows. seen (find? (has_id (uuid_text x)) rows)) e
        ∙ elim (Bool-cases (nat_eq x id)) [
          | inl n ↦
              let same = (nat_eq_iff x id).0 n in
              rw n (
                ap (λ y. seen (find? (has_id (uuid_text y)) (update (uuid_text id) f t.alerts)))
                  same
                ∙ ap seen (find-update (uuid_text id) f t.alerts k)
                ∙ seen-map_option f g (find? (has_id (uuid_text id)) t.alerts) (m id) h (s id)
                ∙ ap (λ y. ok (map_option g (m y))) (sym same))
          | inr n ↦ rw n (
              ap seen (
                find-update-other (uuid_text x) (uuid_text id) f t.alerts k
                  (uuid_other x id laws n))
              ∙ s x)
        ]

    pub Shows-append :
        (a : Alert) (r : AlertRow) (t u : AlertTables) (m : Uuid → Option Alert)
        → HaveTexts
        → r.id ≡ uuid_text a.id
        → IsRead r a
        → any (has_id r.id) t.alerts ≡ false
        → u.alerts ≡ t.alerts ++ r ∷ []
        → Shows t m
        → Shows u (set_at a.id (λ old. some a) m)
    unfolding get
    Shows-append a r t u m laws i h fresh e s x =
        get-healthy x u
        ∙ ap (λ rows. seen (find? (has_id (uuid_text x)) rows)) e
        ∙ elim (Bool-cases (nat_eq x a.id)) [
          | inl n ↦
              let same = (nat_eq_iff x a.id).0 n in
              let test = (eq_iff r.id (uuid_text a.id)).1 i in
              let own : (if r.id == uuid_text a.id then some r else none) ≡ some r = rw test refl in
              let shown : seen (some r) ≡ ok (some a) = rw (row_to_alert-read r a h) refl in
              rw n (
                ap (λ y. seen (find? (has_id (uuid_text y)) (t.alerts ++ r ∷ []))) same
                ∙ ap seen (find-absent (has_id (uuid_text a.id)) t.alerts r (rw i at fresh))
                ∙ ap seen own
                ∙ shown)
          | inr n ↦
              let differs = uuid_other x a.id laws n in
              let other : (r.id == uuid_text x) ≡ false = ground (
                arith,
                i,
                differs,
                eq_iff r.id (uuid_text x),
                eq_iff (uuid_text x) (uuid_text a.id),
              ) in
              rw n (ap seen (find-skip (has_id (uuid_text x)) t.alerts r other) ∙ s x)
        ]
