-- ===== src/Runtime/Subjects/Tests.antt =====
-- services/_runtime/nats_broker.py: the subjects of one alert, and the number of the streams.
use cyber_security_alert_tri.Common.{◌≡◌, refl, length}
use cyber_security_alert_tri.Runtime.Subjects.{
  subj_alert, subj_triage_event, subj_triage_cancel, subj_auth_revocation, subj_feedback, subj_dlq,
  stream_specs,
}

alert_subject : subj_alert "acme" "splunk" "a1" ≡ "alerts.v1.acme.splunk.a1"
unfolding subj_alert
alert_subject = refl

event_subject : subj_triage_event "acme" "a1" "done" ≡ "triage.events.v1.acme.a1.done"
unfolding subj_triage_event
event_subject = refl

cancel_subject : subj_triage_cancel "acme" "a1" ≡ "triage.cancel.v1.acme.a1"
unfolding subj_triage_cancel
cancel_subject = refl

revocation_subject : subj_auth_revocation "acme" "u" ≡ "auth.revocations.v1.acme.u"
unfolding subj_auth_revocation
revocation_subject = refl

feedback_subject : subj_feedback "acme" "a1" ≡ "feedback.v1.acme.a1"
unfolding subj_feedback
feedback_subject = refl

dlq_subject : subj_dlq "acme" "ALERTS" "a1" ≡ "dlq.v1.acme.ALERTS.a1"
unfolding subj_dlq
dlq_subject = refl

five_streams : length stream_specs ≡ 5
unfolding stream_specs
five_streams = refl
