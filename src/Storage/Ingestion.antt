-- ===== src/Storage/Ingestion.antt =====
-- crates/storage/src/ingestion_repo.rs: the tables `ingestion_cursors` and `ingestion_dead_letter`.
use stellar_risk.Common.{
  ℕ, String, Bool, any, err, ◌≡◌, refl, Option, none, some, List, [], ◌∷◌, ◌++◌, ◌==◌,
  if◌then◌else◌, ok, arith, eq_iff, take, map,
}
use stellar_risk.Common.Int.{ℤ, pos, negsuc}
use stellar_risk.Common.Text.{le_text}
use stellar_risk.Platform.{Platform, Uuid}
use stellar_risk.Domain.Error.{DomainResult}
use stellar_risk.Storage.Query.{Faults, answer, inserted}

pub record CursorRow : Type 0 where
  pub source : String
  pub cursor : String
  pub updated_at : String

-- `WHERE source = ?`
unfoldable pub find_cursor : String → List CursorRow → Option String
find_cursor source [] = none
find_cursor source (r ∷ rs) = if r.source == source then some r.cursor else find_cursor source rs

-- `ON CONFLICT(source) DO UPDATE SET cursor = excluded.cursor, updated_at = excluded.updated_at`
unfoldable pub put_cursor : CursorRow → List CursorRow → List CursorRow
put_cursor r [] = r ∷ []
put_cursor r (s ∷ ss) =
    let rest = put_cursor r ss in
    if s.source == r.source
    then record s { cursor = r.cursor; updated_at = r.updated_at } ∷ ss
    else s ∷ rest

unfoldable pub get_cursor : String → Faults → List CursorRow → DomainResult (Option String)
unfolding find_cursor
get_cursor source faults rows = answer faults 0 (find_cursor source rows)

pub record DeadLetterRow : Type 0 where
  pub id : String
  pub source : String
  pub raw_payload : String
  pub error : String
  pub attempts : ℤ
  pub first_failed_at : String
  pub last_failed_at : String

pub record DeadLetter : Type 0 where
  pub id : String
  pub source : String
  pub raw_payload : String
  pub error : String
  pub attempts : ℤ

-- `ORDER BY last_failed_at DESC`; rows of one time stay in the order of the table.
unfoldable pub insert_letter : DeadLetterRow → List DeadLetterRow → List DeadLetterRow
insert_letter r [] = r ∷ []
insert_letter r (s ∷ ss) =
    let rest = insert_letter r ss in
    if le_text s.last_failed_at r.last_failed_at then r ∷ s ∷ ss else s ∷ rest

unfoldable pub latest_letters : List DeadLetterRow → List DeadLetterRow
unfolding insert_letter
latest_letters [] = []
latest_letters (r ∷ rs) = insert_letter r (latest_letters rs)

abbrev pub has_letter_id : String → DeadLetterRow → Bool
has_letter_id id r = r.id == id

abbrev pub letter_of : DeadLetterRow → DeadLetter
letter_of r = record {
  id = r.id;
  source = r.source;
  raw_payload = r.raw_payload;
  error = r.error;
  attempts = r.attempts;
}

-- A negative limit is none, as SQLite documents.
unfoldable pub list_dead_letters : ℤ → Faults → List DeadLetterRow → DomainResult (List DeadLetter)
unfolding latest_letters
list_dead_letters (pos n) faults rows =
    answer faults 0 (map letter_of (take n (latest_letters rows)))
list_dead_letters (negsuc n) faults rows = answer faults 0 (map letter_of (latest_letters rows))

module _ ⦃p : Platform⦄ where
  open p use {DateTime, to_rfc3339, uuid_text}

  unfoldable pub set_cursor :
      String
      → String
      → DateTime
      → Faults
      → List CursorRow
      → DomainResult (Unit {0}) × List CursorRow
  unfolding put_cursor
  set_cursor source cursor now faults rows = elim (faults 0) [
    | some e ↦ (answer faults 0 tt, rows)
    | none ↦ (
      answer faults 0 tt,
      put_cursor (record { source = source; cursor = cursor; updated_at = to_rfc3339 now }) rows,
    )
  ]

  -- A row whose identifier, the primary key, is taken is refused.
  unfoldable pub add_dead_letter :
      String
      → String
      → String
      → Uuid
      → DateTime
      → Faults
      → String
      → List DeadLetterRow
      → DomainResult (Unit {0}) × List DeadLetterRow
  add_dead_letter source raw_payload error id now faults refusal rows =
      elim (inserted faults 0 refusal (any (has_letter_id (uuid_text id)) rows)) [
        | err e ↦ (err e, rows)
        | ok u ↦ (
          ok tt,
          rows
              ++ record {
                id = uuid_text id;
                source = source;
                raw_payload = raw_payload;
                error = error;
                attempts = pos 1;
                first_failed_at = to_rfc3339 now;
                last_failed_at = to_rfc3339 now;
              }
                ∷ [],
        )
      ]

pub answered :
    {A : Type 0} {a : A} (faults : Faults) (i : ℕ) → faults i ≡ none → answer faults i a ≡ ok a
answered faults i h = ground (arith, h)

pub find_cursor-put_cursor :
    (source : String) (r : CursorRow) (rows : List CursorRow)
    → find_cursor source (put_cursor r rows)
      ≡ (if r.source == source then some r.cursor else find_cursor source rows)
unfolding find_cursor put_cursor
find_cursor-put_cursor source r [] = refl
find_cursor-put_cursor source r (s ∷ ss) = ground (
  arith,
  find_cursor-put_cursor source r ss,
  eq_iff s.source r.source,
  eq_iff r.source source,
  eq_iff s.source source,
)
