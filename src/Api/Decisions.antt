-- ===== src/Api/Decisions.antt =====
-- `require_decision_role` and `require_admin` of crates/api/src/auth.rs, and the handlers of
-- crates/api/src/routes/alerts_api.rs for an investigator who is signed in.
use stellar_risk.Common.{
  ℕ, String, Option, none, some, List, [], ◌∷◌, if◌then◌else◌, Result, ok, err, ◌>>=◌, map_err,
  ok_or,
}
use stellar_risk.Common.Text.{concat, is_blank}
use stellar_risk.Platform.{Platform, Uuid}
use stellar_risk.Codec.{Codec}
use stellar_risk.Domain.Decision
use stellar_risk.Domain.Decision.{Decision}
use stellar_risk.Domain.Role.{can_decide, can_administer, Investigator}
use stellar_risk.Domain.Error.{DomainResult}
use stellar_risk.Domain.Alert.{Alert, AiAdvisoryStatus, InvestigatorDecisionRecord}
use stellar_risk.Audit.Chain.{ChainVerification, display}
use stellar_risk.Audit.Store.{verify_store}
use stellar_risk.Alerts.Service
use stellar_risk.Alerts.Service.{World, Ambient}
use stellar_risk.Api.Error.{ApiError, missing, bad_request, forbidden, failed, from}
use stellar_risk.Api.Commitment.{hash_decision}

abbrev pub ApiResult {ℓ} : Type ℓ → Type ℓ
ApiResult A = Result ApiError A

unfoldable pub require_decision_role : Investigator → ApiResult (Unit {0})
require_decision_role i =
    if can_decide i.role
    then ok tt
    else err (forbidden "only investigator or admin roles may record a decision")

unfoldable pub require_admin : Investigator → ApiResult (Unit {0})
require_admin i = if can_administer i.role then ok tt else err (forbidden "admin role required")

pub record DecisionRequest : Type 0 where
  pub decision : String
  pub rationale : String

-- A handler responds, or it panics.
pub data Handled (A : Type 0) : Type 0 where
  responded : ApiResult A → Handled A
  panicked : Handled A

module _ ⦃p : Platform⦄ where
  open p use {uuid_text}

  abbrev missing_alert : Uuid → ApiError
  missing_alert id = missing (concat ("alert " ∷ uuid_text id ∷ " not found" ∷ []))

  unfoldable pub get_alert : Uuid → World → ApiResult Alert
  get_alert id w = ok_or (Service.get id w) (missing_alert id)

  unfoldable pub get_alert_ai : Uuid → World → ApiResult AiAdvisoryStatus
  get_alert_ai id w =
      ok_or (Service.get id w) (missing_alert id) >>= λ alert. ok (Alert.ai_status alert)

  unfoldable pub verify_audit_chain : Investigator → World → ApiResult ChainVerification
  unfolding require_admin
  verify_audit_chain investigator w =
      require_admin investigator >>= λ u. map_err (λ e. failed (display e)) (verify_store w.log)

  -- The commitment that the handler sends to the anchor, whose answer is only logged.
  abbrev pub Sent : Type 0
  Sent = Option (Uuid × List ℕ)

  module _ ⦃c : Codec⦄ where
    -- After `require_decision_role`, `from_str` and the test of the rationale.
    unfoldable pub checked : Investigator → DecisionRequest → ApiResult Decision
    unfolding require_decision_role is_blank
    checked investigator req = require_decision_role investigator >>= λ u.
        map_err bad_request (Decision.from_str req.decision) >>= λ decision.
        if is_blank req.rationale then err (bad_request "rationale is required") else ok decision

    -- After `submit_decision` of the service.
    unfoldable pub commit :
        Uuid
        → Investigator
        → Decision
        → DomainResult InvestigatorDecisionRecord × World
        → Handled InvestigatorDecisionRecord × World × Sent
    unfolding hash_decision
    commit id investigator decision (err e, w) = (responded (err (from e)), w, none)
    commit id investigator decision (ok r, w) =
        elim (hash_decision id investigator.id (Decision.as_str decision) r.rationale
          r.created_at) [
            | none ↦ (panicked, w, none)
            | some commitment ↦ (responded (ok r), w, some (id, commitment))
          ]

    unfoldable pub handle :
        Uuid
        → Investigator
        → DecisionRequest
        → Ambient
        → World
        → ApiResult Decision
        → Handled InvestigatorDecisionRecord × World × Sent
    unfolding commit
    handle id investigator req env w (err e) = (responded (err e), w, none)
    handle id investigator req env w (ok decision) =
        commit id investigator decision
          (Service.submit_decision id investigator.id decision req.rationale env w)

    unfoldable pub submit_decision :
        Investigator
        → Uuid
        → DecisionRequest
        → Ambient
        → World
        → Handled InvestigatorDecisionRecord × World × Sent
    unfolding checked handle
    submit_decision investigator id req env w =
        handle id investigator req env w (checked investigator req)
