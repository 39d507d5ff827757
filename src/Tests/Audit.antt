-- ===== src/Tests/Audit.antt =====
-- The hash chain of crates/audit on concrete logs.
use stellar_risk.Common.{◌≡◌, refl, ◌↔◌, ◌⊎◌, true, none, [], ◌∷◌, length}
use stellar_risk.Common.Int.{pos}
use stellar_risk.Domain.AuditEvent.{AuditRecord, ai_advisory_unavailable}
use stellar_risk.Audit.Chain.{genesis_hash, recompute, verified, verify_chain}
use stellar_risk.Audit.Store.{NewAuditEvent, new_event, last_hash}
use stellar_risk.Audit.Linked.{IsLinked, verify_chain_iff, Break, verify_chain-Break}
use stellar_risk.Audit.Growth.{IsNumbered, append_all, append_all_verifies}
use stellar_risk.Audit.Tamper.{SameContent, Collision, tampering_collides}
use stellar_risk.Toy.{toy, toy_codec}

abbrev pub event : NewAuditEvent
event = new_event (ai_advisory_unavailable "offline")

abbrev pub first : AuditRecord
first = record {
  id = 1;
  alert_id = none;
  tx_id = none;
  event = ai_advisory_unavailable "offline";
  event_json = "event";
  created_at = 5;
  sequence = pos 0;
  prev_hash = genesis_hash;
  hash = "digest";
}

abbrev second : AuditRecord
second = record first { sequence = pos 1; prev_hash = "digest" }

-- The same log with its second record reworded.
abbrev reworded : AuditRecord
reworded = record second { event_json = "other" }

abbrev forged : AuditRecord
forged = record second { hash = "other" }

verify_chain_iff_example :
    (((verify_chain (first ∷ second ∷ [])).valid ≡ true)
      ↔ IsLinked genesis_hash (first ∷ second ∷ []))
    × (((verify_chain (first ∷ second ∷ [])).valid ≡ true)
        ↔ (verify_chain (first ∷ second ∷ []) ≡ verified 2))
verify_chain_iff_example = verify_chain_iff (first ∷ second ∷ [])

verify_chain-Break_example :
    Break 0 genesis_hash (first ∷ forged ∷ []) (verify_chain (first ∷ forged ∷ []))
unfolding verify_chain recompute
verify_chain-Break_example = verify_chain-Break (first ∷ forged ∷ []) refl

append_all_verifies_example :
    (verify_chain (append_all ((event, 5, 1) ∷ (event, 6, 2) ∷ []) [])
      ≡ verified (length (append_all ((event, 5, 1) ∷ (event, 6, 2) ∷ []) [])))
    × IsNumbered 0 (append_all ((event, 5, 1) ∷ (event, 6, 2) ∷ []) [])
append_all_verifies_example = append_all_verifies ((event, 5, 1) ∷ (event, 6, 2) ∷ [])

tampering_collides_example :
    SameContent (first ∷ second ∷ []) (first ∷ reworded ∷ [])
    ⊎ Collision (first ∷ second ∷ []) (first ∷ reworded ∷ [])
unfolding verify_chain recompute last_hash
tampering_collides_example =
    tampering_collides (first ∷ second ∷ []) (first ∷ reworded ∷ []) refl refl refl refl
