-- ===== src/Api/Gate.antt =====
-- Who changes an alert through crates/api/src/routes/alerts_api.rs.
use stellar_risk.Common.{◌≡◌, refl, ◌⊎◌, inl, inr, true, false, none, arith, ok, err}
use stellar_risk.Platform.{Platform, Uuid}
use stellar_risk.Codec.{Codec}
use stellar_risk.Domain.Decision
use stellar_risk.Domain.Decision.{Decision}
use stellar_risk.Domain.Role.{can_decide, Investigator}
use stellar_risk.Domain.Error.{DomainResult}
use stellar_risk.Domain.Alert.{InvestigatorDecisionRecord}
use stellar_risk.Alerts.Service
use stellar_risk.Alerts.Service.{World, Ambient}
use stellar_risk.Api.Error.{ApiError}
use stellar_risk.Common.Text.{is_blank}
use stellar_risk.Api.Decisions.{
  ApiResult, DecisionRequest, responded, require_decision_role, checked, commit, handle,
  submit_decision,
}

module _ ⦃p : Platform⦄ ⦃c : Codec⦄ where
  -- The request was allowed: the role may decide, the decision is a word for one, and the rationale
  -- has a character that is not white.
  pub record IsAllowed (i : Investigator) (req : DecisionRequest) (d : Decision) : Type 0 where
    pub may : can_decide i.role ≡ true
    pub named : Decision.from_str req.decision ≡ ok d
    pub reasoned : is_blank req.rationale ≡ false

  checked-IsAllowed :
      (i : Investigator) (req : DecisionRequest) (d : Decision)
      → checked i req ≡ ok d
      → IsAllowed i req d
  unfolding checked require_decision_role
  checked-IsAllowed i req d h = ground (arith, h)

  commit-world :
      (id : Uuid) (i : Investigator) (d : Decision)
      (o : DomainResult InvestigatorDecisionRecord × World)
      → (commit id i d o).1 ≡ o.1
  unfolding commit
  commit-world id i d (err e, w) = refl
  commit-world id i d (ok r, w) = ground arith

  -- The decision handler either refuses a request, and then nothing is stored or sent to the anchor,
  -- or the request was allowed and the stores are as the alert service leaves them after that
  -- decision of that investigator; nothing that happens to the anchor changes them.
  pub submit_decision_gate :
      (i : Investigator) (id : Uuid) (req : DecisionRequest) (env : Ambient) (w : World)
      → ((e : ApiError) × (submit_decision i id req env w ≡ (responded (err e), w, none)))
        ⊎ ((d : Decision) × IsAllowed i req d
            × ((submit_decision i id req env w).1
                ≡ (Service.submit_decision id i.id d req.rationale env w).1))
  unfolding submit_decision handle
  submit_decision_gate i id req env w = go (checked i req) refl
    where
      go :
          (o : ApiResult Decision)
          → checked i req ≡ o
          → ((e : ApiError) × (handle id i req env w o ≡ (responded (err e), w, none)))
            ⊎ ((d : Decision) × IsAllowed i req d
                × ((handle id i req env w o).1
                    ≡ (Service.submit_decision id i.id d req.rationale env w).1))
      go (err e) h = inl (e, refl)
      go (ok d) h = inr (
        d,
        checked-IsAllowed i req d h,
        commit-world id i d (Service.submit_decision id i.id d req.rationale env w),
      )
