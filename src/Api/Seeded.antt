-- ===== src/Api/Seeded.antt =====
-- The first administrator that `bootstrap` of crates/api/src/lib.rs creates.
use stellar_risk.Common.{
  String, ◌≡◌, refl, sym, ◌∙◌, ap, true, none, some, List, [], ◌∷◌, Result, ok, err, eq_refl,
  Option-cases, inl, inr,
}
use stellar_risk.Platform.{Platform}
use stellar_risk.Domain.Role
use stellar_risk.Domain.Role.{Role, admin}
use stellar_risk.Storage.Query.{Faults, answer, inserted}
use stellar_risk.Storage.Flagged.{FlaggedRow}
use stellar_risk.Storage.Investigators.{
  InvestigatorRow, InvestigatorWithHash, create, count, find_by_username, read_investigator,
}
use stellar_risk.Api.Auth.{Credentials, hash_password, verify_password}
use stellar_risk.Api.Config.{Config}
use stellar_risk.Api.Login.{LoginRequest, signed_in}
use stellar_risk.Api.Bootstrap.{StartError, Database, Start, seed_admin, finish, bootstrap}

module _ ⦃p : Platform⦄ ⦃k : Credentials⦄ where
  open p use {to_rfc3339, uuid_text}
  open k use {argon2_hash, parse_hash, argon2_verify}

  finish-investigators :
      (config : Config) (s : Start) (flagged : List FlaggedRow)
      (out : Result StartError (Unit {0}) × List InvestigatorRow)
      → (finish config s flagged out).1.investigators ≡ out.1
  unfolding finish
  finish-investigators config s flagged (ok u, rows) = refl
  finish-investigators config s flagged (err e, rows) = refl

  bootstrap-investigators :
      (config : Config) (s : Start) (db : Database)
      → (bootstrap config s db).1.investigators ≡ (seed_admin config s db.investigators).1
  unfolding bootstrap
  bootstrap-investigators config s db =
      finish-investigators config s db.flagged_accounts (seed_admin config s db.investigators)

  -- Nobody is created where somebody is there.
  seed_admin-nonempty :
      (config : Config) (s : Start) (r : InvestigatorRow) (rows : List InvestigatorRow)
      → (seed_admin config s (r ∷ rows)).1 ≡ r ∷ rows
  unfolding seed_admin count
  seed_admin-nonempty config s r rows = elim (Option-cases (s.counting 0)) [
    | inl e ↦ rw (seed_admin, count, e) refl
    | inr (m, e) ↦ rw (seed_admin, count, e) refl
  ]

  abbrev pub admin_row : Config → Start → String → InvestigatorRow
  admin_row config s hash = record {
    id = uuid_text s.id;
    username = config.admin_username;
    password_hash = hash;
    role = "admin";
    created_at = to_rfc3339 s.now;
  }

  seed_admin-empty :
      (config : Config) (s : Start) (hash : String)
      → s.counting 0 ≡ none
      → s.creating 0 ≡ none
      → argon2_hash config.admin_password s.salt ≡ ok hash
      → (seed_admin config s []).1 ≡ admin_row config s hash ∷ []
  unfolding seed_admin count hash_password create Role.as_str
  seed_admin-empty config s hash a b h =
      rw (seed_admin, count, answer, hash_password, create, inserted, a, h, b) refl

  abbrev pub admin_of : Config → Start → String → InvestigatorWithHash
  admin_of config s hash = record {
    investigator = record { id = uuid_text s.id; username = config.admin_username; role = admin };
    password_hash = hash;
  }

  abbrev pub admin_request : Config → LoginRequest
  admin_request config = record {
    username = config.admin_username;
    password = config.admin_password;
  }

  signed_in-admin :
      (config : Config) (s : Start) (hash : String) (h : k.ParsedHash) (faults : Faults)
      → faults 0 ≡ none
      → parse_hash hash ≡ some h
      → argon2_verify config.admin_password h ≡ true
      → signed_in (admin_request config) faults (admin_row config s hash ∷ [])
        ≡ ok (admin_of config s hash)
  unfolding signed_in find_by_username read_investigator verify_password Role.from_str
  signed_in-admin config s hash h faults f a v =
      rw
        (
          signed_in,
          find_by_username,
          answer,
          f,
          eq_refl config.admin_username,
          verify_password,
          a,
          v,
        )
        refl

  -- A second start on rows that are not empty leaves them.
  bootstrap-again :
      (config : Config) (s : Start) (db : Database) (r : InvestigatorRow)
      → db.investigators ≡ r ∷ []
      → (bootstrap config s db).1.investigators ≡ db.investigators
  bootstrap-again config s db r e =
      bootstrap-investigators config s db
      ∙ ap (λ rows. (seed_admin config s rows).1) e
      ∙ seed_admin-nonempty config s r []
      ∙ sym e

  bootstrap-seeds :
      (config : Config) (s : Start) (db : Database) (hash : String)
      → db.investigators ≡ []
      → s.counting 0 ≡ none
      → s.creating 0 ≡ none
      → argon2_hash config.admin_password s.salt ≡ ok hash
      → (bootstrap config s db).1.investigators ≡ admin_row config s hash ∷ []
  bootstrap-seeds config s db hash e a b h =
      bootstrap-investigators config s db
      ∙ ap (λ rows. (seed_admin config s rows).1) e
      ∙ seed_admin-empty config s hash a b h

  -- A start on a database without investigators, where neither statement on their table fails and
  -- the configured password is hashed to what is read and verified for that password, leaves rows on
  -- which the configured name and password sign in as the administrator, whatever else of the start
  -- fails; and a next start, of any configuration, leaves these rows.
  pub bootstrap_signs_in :
      (config : Config) (s : Start) (db : Database) (hash : String) (h : k.ParsedHash)
      (faults : Faults) (config' : Config) (s' : Start)
      → db.investigators ≡ []
      → s.counting 0 ≡ none
      → s.creating 0 ≡ none
      → argon2_hash config.admin_password s.salt ≡ ok hash
      → parse_hash hash ≡ some h
      → argon2_verify config.admin_password h ≡ true
      → faults 0 ≡ none
      → (signed_in (admin_request config) faults (bootstrap config s db).1.investigators
          ≡ ok (admin_of config s hash))
        × ((bootstrap config' s' (bootstrap config s db).1).1.investigators
            ≡ (bootstrap config s db).1.investigators)
  bootstrap_signs_in config s db hash h faults config' s' e a b m n v f =
      let seeded = bootstrap-seeds config s db hash e a b m in
      (
        ap (signed_in (admin_request config) faults) seeded
            ∙ signed_in-admin config s hash h faults f n v,
        bootstrap-again config' s' (bootstrap config s db).1 (admin_row config s hash) seeded,
      )
