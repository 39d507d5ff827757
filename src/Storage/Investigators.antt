-- ===== src/Storage/Investigators.antt =====
-- crates/storage/src/investigator_repo.rs: the table `investigators`.
use stellar_risk.Common.{
  String, Bool, Option, none, some, List, [], ◌∷◌, ◌++◌, ◌==◌, ◌||◌, any, find?, length, ok, err,
  ◌>>=◌, map_err,
}
use stellar_risk.Common.Int.{ℤ, pos}
use stellar_risk.Platform.{Platform, Uuid}
use stellar_risk.Domain.Error.{DomainResult, internal}
use stellar_risk.Domain.Role
use stellar_risk.Domain.Role.{Role, Investigator}
use stellar_risk.Storage.Query.{Faults, answer, inserted}

pub record InvestigatorRow : Type 0 where
  pub id : String
  pub username : String
  pub password_hash : String
  pub role : String
  pub created_at : String

pub record InvestigatorWithHash : Type 0 where
  pub investigator : Investigator
  pub password_hash : String

-- The primary key, or the unique name, is taken.
abbrev pub is_taken : String → String → InvestigatorRow → Bool
is_taken id username r = r.id == id || r.username == username

abbrev pub is_named : String → InvestigatorRow → Bool
is_named username r = r.username == username

module _ ⦃p : Platform⦄ where
  open p use {DateTime, to_rfc3339, uuid_text}

  unfoldable pub create :
      String
      → String
      → Role
      → Uuid
      → DateTime
      → Faults
      → String
      → List InvestigatorRow
      → DomainResult Investigator × List InvestigatorRow
  create username password_hash role id now faults refusal rows =
      elim (inserted faults 0 refusal (any (is_taken (uuid_text id) username) rows)) [
        | err e ↦ (err e, rows)
        | ok u ↦ (
          ok (record { id = uuid_text id; username = username; role = role }),
          rows
              ++ record {
                id = uuid_text id;
                username = username;
                password_hash = password_hash;
                role = Role.as_str role;
                created_at = to_rfc3339 now;
              }
                ∷ [],
        )
      ]

unfoldable pub read_investigator : InvestigatorRow → DomainResult InvestigatorWithHash
read_investigator r = map_err internal (Role.from_str r.role) >>= λ role. ok (record {
  investigator = record { id = r.id; username = r.username; role = role };
  password_hash = r.password_hash;
})

unfoldable pub find_by_username :
    String → Faults → List InvestigatorRow → DomainResult (Option InvestigatorWithHash)
unfolding read_investigator
find_by_username username faults rows = answer faults 0 (find? (is_named username) rows) >>= λ row.
    elim row [ none ↦ ok none | some r ↦ read_investigator r >>= λ w. ok (some w) ]

unfoldable pub count : Faults → List InvestigatorRow → DomainResult ℤ
count faults rows = answer faults 0 (pos (length rows))
