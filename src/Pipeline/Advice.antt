-- ===== src/Pipeline/Advice.antt =====
-- What the AI advisor can change of what `process_transaction` of crates/api/src/pipeline.rs does.
use stellar_risk.Common.{◌≡◌, refl, sym, ◌∙◌, Option, none, some, List, Result, ok, err, String}
use stellar_risk.Platform.{Platform, Uuid}
use stellar_risk.Codec.{Codec}
use stellar_risk.Domain.Severity.{Severity}
use stellar_risk.Domain.Error.{DomainResult}
use stellar_risk.Domain.Transaction.{NormalizedTransaction}
use stellar_risk.Domain.Rule.{EvaluationResult}
use stellar_risk.Domain.Alert.{Alert, AiAdvisory}
use stellar_risk.Rules.Context.{AccountHistory}
use stellar_risk.Rules.Registry.{evaluate}
use stellar_risk.Alerts.Collect.{accounts_and_assets}
use stellar_risk.Alerts.Service.{Ambient, World, create_alert, record_ai_advisory_requested}
use stellar_risk.Alerts.Review.{
  SameReview, record_ai_advisory_requested-SameReview, record_ai_advisory-SameReview,
  record_ai_unavailable-SameReview,
}
use stellar_risk.Advisor.Request.{AiAdvisor, to_payload}
use stellar_risk.Pipeline.Process.{
  Settings, State, Surroundings, request_of, record_answer, request_ai_advisory, context_of, advise,
  open_alert, gather, evaluated, process_transaction,
}

module _ ⦃p : Platform⦄ ⦃c : Codec⦄ where
  SameReview-trans :
      (j : Uuid) (u v w : World) → SameReview j u v → SameReview j v w → SameReview j u w
  SameReview-trans j u v w h k = (k.0 ∙ h.0, k.1 ∙ h.1)

  record_answer-SameReview :
      (j id : Uuid) (tx : NormalizedTransaction) (env : Ambient) (w : World)
      (o : Result String AiAdvisory)
      → SameReview j w (record_answer id tx env w o)
  unfolding record_answer
  record_answer-SameReview j id tx env w (ok advisory) =
      record_ai_advisory-SameReview j id tx.tx_id advisory env w
  record_answer-SameReview j id tx env w (err e) =
      record_ai_unavailable-SameReview j id tx.tx_id e env w

  request-SameReview :
      (j : Uuid) (a : AiAdvisor) (alert : Alert) (tx : NormalizedTransaction) (h : AccountHistory)
      (env : Surroundings) (w : World)
      → SameReview j w (request_ai_advisory a alert tx h env w)
  unfolding request_ai_advisory
  request-SameReview j a alert tx h env w =
      SameReview-trans j w asked (request_ai_advisory a alert tx h env w)
        (record_ai_advisory_requested-SameReview j alert.id tx.tx_id
          (to_payload a (request_of alert tx h)) env.requesting w)
        (record_answer-SameReview j alert.id tx env.advising asked
          (a.investigate (request_of alert tx h)))
    where
      asked : World
      asked =
          (record_ai_advisory_requested alert.id tx.tx_id (to_payload a (request_of alert tx h))
            env.requesting w).1

  -- What two calls that differ in the advisor have in common.
  abbrev pub Alike :
      Uuid → Result String (Option Uuid) × World → Result String (Option Uuid) × World → Type 0
  Alike j x y = (x.0 ≡ y.0) × SameReview j x.1 y.1

  advise-Alike :
      (j : Uuid) (a b : AiAdvisor) (tx : NormalizedTransaction) (h : AccountHistory)
      (env : Surroundings) (o : DomainResult Alert × World)
      → Alike j (advise a tx h env o) (advise b tx h env o)
  unfolding advise
  advise-Alike j a b tx h env (err e, w) = (refl, (refl, refl))
  advise-Alike j a b tx h env (ok alert, w) =
      let x : SameReview j w (request_ai_advisory a alert tx h env w) =
        request-SameReview j a alert tx h env w in
      let y : SameReview j w (request_ai_advisory b alert tx h env w) =
        request-SameReview j b alert tx h env w in
      (refl, (y.0 ∙ sym x.0, y.1 ∙ sym x.1))

  open_alert-Alike :
      (j : Uuid) (a b : AiAdvisor) (tx : NormalizedTransaction) (h : AccountHistory)
      (env : Surroundings) (w : World) (e : EvaluationResult) (o : Option Severity)
      → Alike j (open_alert a tx h env w e o) (open_alert b tx h env w e o)
  unfolding open_alert
  open_alert-Alike j a b tx h env w e none = (refl, (refl, refl))
  open_alert-Alike j a b tx h env w e (some severity) = advise-Alike j a b tx h env (
      create_alert
        (record {
          tx_id = tx.tx_id;
          accounts = (accounts_and_assets tx.source_account tx.movements).0;
          assets = (accounts_and_assets tx.source_account tx.movements).1;
          triggered_rules = e.triggers;
          score = e.score;
          severity = severity;
        })
        env.creating w)

  evaluated-Alike :
      (j : Uuid) (a b : AiAdvisor) (settings : Settings) (tx : NormalizedTransaction)
      (env : Surroundings) (w : World) (o : DomainResult (AccountHistory × List String))
      → Alike j (evaluated a settings tx env w o) (evaluated b settings tx env w o)
  unfolding evaluated
  evaluated-Alike j a b settings tx env w (err e) = (refl, (refl, refl))
  evaluated-Alike j a b settings tx env w (ok (h, flagged)) =
      let r : EvaluationResult =
        evaluate settings.rule_registry (context_of settings tx h flagged)
          settings.scoring_config in
      open_alert-Alike j a b tx h env w r r.severity

  -- The advisor has no say: with any two advisors, `process_transaction` gives one answer, stores the
  -- same transactions and flagged accounts, and leaves every alert the same but for its advisory, with
  -- the same history of decisions.
  pub process_transaction-Alike :
      (j : Uuid) (a b : AiAdvisor) (settings : Settings) (tx : NormalizedTransaction)
      (env : Surroundings) (s : State)
      → ((process_transaction a settings tx env s).0 ≡ (process_transaction b settings tx env s).0)
        × ((process_transaction a settings tx env s).1.transactions
            ≡ (process_transaction b settings tx env s).1.transactions)
        × ((process_transaction a settings tx env s).1.flagged_accounts
            ≡ (process_transaction b settings tx env s).1.flagged_accounts)
        × SameReview j
            (process_transaction a settings tx env s).1.world
            (process_transaction b settings tx env s).1.world
  unfolding process_transaction
  process_transaction-Alike j a b settings tx env s =
      let (answers, review) =
        evaluated-Alike j a b settings tx env s.world (gather settings tx env s).0 in
      (answers, refl, refl, review)
