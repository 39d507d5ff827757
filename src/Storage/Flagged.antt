-- ===== src/Storage/Flagged.antt =====
-- crates/storage/src/flagged_accounts_repo.rs: the table `flagged_accounts`.
use stellar_risk.Common.{
  String, ◌≡◌, ◌||◌, Option, List, [], ◌∷◌, ◌==◌, if◌then◌else◌, ok, err, map, arith, eq_iff,
}
use stellar_risk.Common.Sort.{has_key}
use stellar_risk.Platform.{Platform}
use stellar_risk.Domain.Error.{DomainResult}
use stellar_risk.Domain.Transaction.{itself}
use stellar_risk.Storage.Query.{Faults, answer}

pub record FlaggedRow : Type 0 where
  pub account_id : String
  pub reason : String
  pub added_by : Option String
  pub created_at : String

-- `ON CONFLICT(account_id) DO UPDATE SET reason = excluded.reason`
unfoldable pub upsert : FlaggedRow → List FlaggedRow → List FlaggedRow
upsert r [] = r ∷ []
upsert r (s ∷ ss) =
    let rest = upsert r ss in
    if r.account_id == s.account_id then record s { reason = r.reason } ∷ ss else s ∷ rest

abbrev pub account_ids : List FlaggedRow → List String
account_ids rows = map (λ r. FlaggedRow.account_id r) rows

module _ ⦃p : Platform⦄ where
  open p use {DateTime, to_rfc3339}

  unfoldable pub add :
      String
      → String
      → Option String
      → DateTime
      → Faults
      → List FlaggedRow
      → DomainResult (Unit {0}) × List FlaggedRow
  unfolding upsert
  add account_id reason added_by now faults rows = elim (answer faults 0 tt) [
    | err e ↦ (err e, rows)
    | ok u ↦ (
      ok u,
      upsert
          (record {
            account_id = account_id;
            reason = reason;
            added_by = added_by;
            created_at = to_rfc3339 now;
          })
          rows,
    )
  ]

-- The set of identifiers, as the list of its elements.
unfoldable pub all : Faults → List FlaggedRow → DomainResult (List String)
all faults rows = answer faults 0 (account_ids rows)

has_key-upsert :
    (a : String) (r : FlaggedRow) (rows : List FlaggedRow)
    → has_key itself a (account_ids (upsert r rows))
      ≡ (a == r.account_id || has_key itself a (account_ids rows))
unfolding upsert
has_key-upsert a r [] = ground arith
has_key-upsert a r (s ∷ ss) = ground (
  arith,
  has_key-upsert a r ss,
  eq_iff r.account_id s.account_id,
  eq_iff a s.account_id,
  eq_iff a r.account_id,
)
