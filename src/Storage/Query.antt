-- ===== src/Storage/Query.antt =====
-- crates/storage/src/error.rs, and how a statement that the repositories execute may fail.
use stellar_risk.Common.{
  ℕ, String, Bool, Option, none, some, ok, err, List, [], ◌∷◌, if◌then◌else◌, take, drop,
}
use stellar_risk.Common.Int.{ℤ, pos, negsuc, clamp_nonneg}
use stellar_risk.Common.Text.{concat}
use stellar_risk.Domain.Error.{DomainError, DomainResult, storage, internal}

unfoldable pub map_sqlx : String → DomainError
map_sqlx e = storage e

unfoldable pub map_json : String → DomainError
map_json e = internal (concat ("json (de)serialization failed: " ∷ e ∷ []))

-- For each statement of a call, by its position, the error of the database, where there is one.
abbrev pub Faults : Type 0
Faults = ℕ → Option String

-- A statement that answers `a`, or fails before it has an effect.
abbrev pub answer {ℓ} : {A : Type ℓ} → Faults → ℕ → A → DomainResult A
answer faults i a = elim (faults i) [ none ↦ ok a | some e ↦ err (map_sqlx e) ]

-- A statement that answers nothing.
abbrev pub executed : Faults → ℕ → DomainResult (Unit {0})
executed faults i = answer faults i tt

-- `INSERT` of a row: refused, with a text of the database, where it breaks a constraint of the table.
abbrev pub inserted : Faults → ℕ → String → Bool → DomainResult (Unit {0})
inserted faults i refusal conflicts =
    if conflicts then err (map_sqlx refusal) else answer faults i tt

-- `ORDER BY`: `before r s` says that `r` may stand before `s`; equal rows keep their order.
module _ {ℓ} {A : Type ℓ} (before : A → A → Bool) where
  unfoldable pub insert_ordered : A → List A → List A
  insert_ordered r [] = r ∷ []
  insert_ordered r (s ∷ ss) =
      let rest = insert_ordered r ss in if before r s then r ∷ s ∷ ss else s ∷ rest

  unfoldable pub order_by : List A → List A
  unfolding insert_ordered
  order_by [] = []
  order_by (r ∷ rs) = insert_ordered r (order_by rs)

-- `LIMIT ?`: a negative limit is none, as SQLite documents.
abbrev pub limited {ℓ} : {A : Type ℓ} → ℤ → List A → List A
limited (pos n) rows = take n rows
limited (negsuc n) rows = rows

-- `OFFSET ?`: a negative offset is 0.
abbrev pub offset_by {ℓ} : {A : Type ℓ} → ℤ → List A → List A
offset_by k rows = drop (clamp_nonneg k) rows
