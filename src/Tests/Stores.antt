-- ===== src/Tests/Stores.antt =====
-- The SQLite stores of crates/storage on concrete calls, failing ones among them.
use stellar_risk.Common.{◌≡◌, ◌⊎◌, refl, String, none, some, [], ◌∷◌, ok, err, length}
use stellar_risk.Domain.AuditEvent.{ai_advisory_unavailable}
use stellar_risk.Domain.Decision.{escalated}
use stellar_risk.Domain.Alert.{pending, InvestigatorDecisionRecord}
use stellar_risk.Audit.Chain.{storage, verified}
use stellar_risk.Audit.Store
use stellar_risk.Storage.Query.{Faults}
use stellar_risk.Storage.AuditLog.{append, verify_rows}
use stellar_risk.Storage.AuditRefines.{rows_of, as_rows, IsStopped, conflicts_with, append_refines}
use stellar_risk.Storage.AuditRuns.{Call, append_rows, append_rows_verifies}
use stellar_risk.Storage.Projected.{IsProjected}
use stellar_risk.Storage.Projection.{
  inserting, advising, deciding, write_all, write_all-IsProjected,
}
use stellar_risk.Tests.Audit.{event, first}
use stellar_risk.Tests.Alerts.{alert}
use stellar_risk.Common.Text.{show, parse_usize}
use stellar_risk.Alerts.Service.{make_alert}
use stellar_risk.Storage.AlertTable.{AlertTables}
use stellar_risk.Toy.{toy, toy_codec}

-- No statement fails, or the insertion does.
abbrev healthy : Faults
healthy i = none

abbrev broken : Faults
broken i = some "disk full"

append_refines_example :
    (append event 6 2 healthy "taken" (rows_of (first ∷ []))
      ≡ as_rows (Store.append event 6 2 (first ∷ [])))
    ⊎ ((m : String) × (append event 6 2 healthy "taken" (rows_of (first ∷ []))
          ≡ (err (storage m), rows_of (first ∷ [])))
        × IsStopped healthy "taken" (conflicts_with 2 (first ∷ [])) m)
append_refines_example = append_refines event 6 2 healthy "taken" (first ∷ []) (refl, tt)

abbrev good : Call
good = record { new = event; now = 5; id = 1; faults = healthy; refusal = "taken" }

abbrev bad : Call
bad = record { new = event; now = 6; id = 2; faults = broken; refusal = "taken" }

-- The third call takes the identifier of the first.
append_rows_verifies_example :
    verify_rows healthy (append_rows (good ∷ bad ∷ good ∷ []) [])
    ≡ ok (verified (length (append_rows (good ∷ bad ∷ good ∷ []) [])))
unfolding show parse_usize
append_rows_verifies_example =
    append_rows_verifies (good ∷ bad ∷ good ∷ []) healthy
      (
        ((refl, refl, refl), λ s h. (ai_advisory_unavailable s, refl)),
        (
          ((refl, refl, refl), λ s h. (ai_advisory_unavailable s, refl)),
          (((refl, refl, refl), λ s h. (ai_advisory_unavailable s, refl)), tt),
        ),
      )
      refl

abbrev empty : AlertTables
empty = record { alerts = []; decisions = [] }

-- A decision on the alert, and one on an alert that is not there.
abbrev decided : InvestigatorDecisionRecord
decided = record {
  id = 3;
  alert_id = 9;
  investigator_id = "i1";
  decision = escalated;
  rationale = "odd";
  created_at = 60;
}

abbrev stray : InvestigatorDecisionRecord
stray = record decided { id = 4; alert_id = 8 }

write_all-IsProjected_example : IsProjected (
    write_all
      (inserting alert healthy "taken"
        ∷ deciding decided healthy "taken"
        ∷ deciding stray healthy "no such alert"
        ∷ advising 9 pending broken
        ∷ [])
      empty)
unfolding make_alert
write_all-IsProjected_example =
    write_all-IsProjected
      (inserting alert healthy "taken"
        ∷ deciding decided healthy "taken"
        ∷ deciding stray healthy "no such alert"
        ∷ advising 9 pending broken
        ∷ [])
      empty (refl, (tt, (tt, (tt, tt)))) (record { projected = tt; referring = tt })
