-- ===== src/App/Feedback/Tests.antt =====
-- app/main.py and observability/feedback.py: feedback on a stored verdict, and the theorem about it.
use cyber_security_alert_tri.Common.{true, none, [], ◌∷◌, ◌≡◌, refl, assoc, length}
use cyber_security_alert_tri.Schema.{close}
use cyber_security_alert_tri.Storage.Alerts
use cyber_security_alert_tri.Security.Guard.{validate_api_key, provided_key, after_prefix}
use cyber_security_alert_tri.Runtime.Reconciler.Sample as Sample
use cyber_security_alert_tri.App.Sample.{app, verdict_of, empty_store, request}
use cyber_security_alert_tri.App.Feedback.{
  FeedbackBody, Desk, record_feedback, agreed, disagreements, original, post_verdict_feedback,
}
use cyber_security_alert_tri.App.Feedback.Tally.{Tallied, post_verdict_feedback-tallies}

abbrev desk : Desk Sample.Store
desk = record {
  store = record empty_store { verdicts = ("a-1", verdict_of none) ∷ [] };
  feedback = [];
}

abbrev body : FeedbackBody
body = record {
  alert_id = "a-1";
  analyst_decision = close;
  original_verdict = none;
  comment = "";
  analyst_id = "anonymous";
}

one_disagreement :
    length (disagreements (post_verdict_feedback (app true) (λ t. t) body request desk).1.feedback)
    ≡ 1
unfolding post_verdict_feedback record_feedback disagreements validate_api_key provided_key
    after_prefix Alerts.get_verdict assoc
one_disagreement = refl

no_agreement : agreed (post_verdict_feedback (app true) (λ t. t) body request desk).1.feedback ≡ 0
unfolding post_verdict_feedback record_feedback agreed validate_api_key provided_key after_prefix
    Alerts.get_verdict assoc
no_agreement = refl

post_verdict_feedback-tallies_example :
    Tallied
      (app true)
      (λ t. t)
      body
      []
      (original (app true) (λ t. t) "a-1" none desk.store).0
      (post_verdict_feedback (app true) (λ t. t) body request desk)
post_verdict_feedback-tallies_example =
    post_verdict_feedback-tallies (app true) (λ t. t) body request desk
