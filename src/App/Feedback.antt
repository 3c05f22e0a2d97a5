-- ===== src/App/Feedback.antt =====
-- app/main.py and observability/feedback.py: what analysts say of verdicts.
mod Tests
pub mod Tally
use cyber_security_alert_tri.Common.{
  ℕ, suc, String, Bool, true, false, Option, none, some, List, [], ◌∷◌, ◌++◌, ◌==◌, not,
  if◌then◌else◌,
}
use cyber_security_alert_tri.Schema.{
  TriageVerdict, EscalationDecision, escalate_ir, false_positive, monitor, close,
}
use cyber_security_alert_tri.Effects.{
  Exec, Result, ok, raised, http_error, pure, raise, continue, ◌>>=◌, ◌>>◌,
}
use cyber_security_alert_tri.Storage.Alerts
use cyber_security_alert_tri.Storage.Alerts.{Store}
use cyber_security_alert_tri.Security.Guard.{Headers}
use cyber_security_alert_tri.App.{AppEnv, require_key}

-- `EscalationDecision.value`
abbrev pub decision_value : EscalationDecision → String
decision_value escalate_ir = "ESCALATE_IR"
decision_value false_positive = "FALSE_POSITIVE"
decision_value monitor = "MONITOR"
decision_value close = "CLOSE"

-- `FeedbackRecord`, without its time.
pub record FeedbackRecord : Type 0 where
  pub alert_id : String
  pub original_verdict : String
  pub analyst_decision : String
  pub agree : Bool
  pub comment : String
  pub analyst_id : String

-- `FeedbackStore.record`; `upper` is `str.upper`.
pub record_feedback :
    (String → String)
    → String
    → String
    → String
    → String
    → String
    → List FeedbackRecord
    → List FeedbackRecord
record_feedback upper id original_verdict analyst_decision comment analyst_id records =
    records
    ++ (record {
      alert_id = id;
      original_verdict = original_verdict;
      analyst_decision = analyst_decision;
      agree = upper original_verdict == upper analyst_decision;
      comment = comment;
      analyst_id = analyst_id;
    }
        ∷ [])

-- The numerator of `agreement_rate`.
pub agreed : List FeedbackRecord → ℕ
agreed [] = 0
agreed (r ∷ rs) = let rest = agreed rs in if r.agree then suc rest else rest

-- The records that `disagreements` lists.
pub disagreements : List FeedbackRecord → List FeedbackRecord
disagreements [] = []
disagreements (r ∷ rs) = let rest = disagreements rs in if r.agree then rest else r ∷ rest

-- `VerdictFeedbackBody`
pub record FeedbackBody : Type 0 where
  pub alert_id : String
  pub analyst_decision : EscalationDecision
  pub original_verdict : Option EscalationDecision
  pub comment : String
  pub analyst_id : String

-- The store of alerts and the feedback of the process.
pub record Desk (S : Type 0) : Type 0 where
  pub store : Store S
  pub feedback : List FeedbackRecord

abbrev pub on_store : {S A : Type 0} → Exec (Store S) A → Exec (Desk S) A
on_store m w = ((m w.store).0, record w { store = (m w.store).1 })

module _ {S T : Type 0} (env : AppEnv S T) (upper : String → String) where
  abbrev pub stored_decision : Option TriageVerdict → Exec (Store S) EscalationDecision
  stored_decision none = raise (http_error 404)
  stored_decision (some verdict) = pure verdict.escalation

  abbrev pub original : String → Option EscalationDecision → Exec (Store S) EscalationDecision
  original id (some decision) = pure decision
  original id none = do verdict ← Alerts.get_verdict env.stores id; stored_decision verdict

  -- `post_verdict_feedback`
  pub post_verdict_feedback : FeedbackBody → Headers → Exec (Desk S) (Unit {0})
  post_verdict_feedback body headers = do
    on_store (require_key env headers)
    orig ← on_store (original body.alert_id body.original_verdict)
    λ w. (
      ok tt,
      record w {
        feedback =
            record_feedback upper body.alert_id (decision_value orig)
              (decision_value body.analyst_decision) body.comment body.analyst_id w.feedback;
      },
    )
