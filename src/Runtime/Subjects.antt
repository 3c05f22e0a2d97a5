-- ===== src/Runtime/Subjects.antt =====
-- services/_runtime/nats_broker.py: the subjects of the messages, and the streams that hold them.
mod Tests
use Prim.Native.String.{◌++◌ as ◌+s◌}
use cyber_security_alert_tri.Common.{ℕ, ◌*◌, String, List, [], ◌∷◌}

-- `SCHEMA_VERSION_TAG`
abbrev pub schema_version_tag : String
schema_version_tag = "v1"

abbrev dotted : List String → String
dotted [] = ""
dotted (s ∷ []) = s
dotted (s ∷ t ∷ ts) = s +s "." +s dotted (t ∷ ts)

-- `subj_alert`
unfoldable pub subj_alert : String → String → String → String
subj_alert tenant_id source alert_id =
    "alerts." +s dotted (schema_version_tag ∷ tenant_id ∷ source ∷ alert_id ∷ [])

-- `subj_triage_event`
pub subj_triage_event : String → String → String → String
subj_triage_event tenant_id alert_id phase =
    "triage.events." +s dotted (schema_version_tag ∷ tenant_id ∷ alert_id ∷ phase ∷ [])

-- `subj_triage_cancel`
unfoldable pub subj_triage_cancel : String → String → String
subj_triage_cancel tenant_id alert_id =
    "triage.cancel." +s dotted (schema_version_tag ∷ tenant_id ∷ alert_id ∷ [])

-- `subj_auth_revocation`
pub subj_auth_revocation : String → String → String
subj_auth_revocation tenant_id user_id =
    "auth.revocations." +s dotted (schema_version_tag ∷ tenant_id ∷ user_id ∷ [])

-- `subj_feedback`
pub subj_feedback : String → String → String
subj_feedback tenant_id alert_id =
    "feedback." +s dotted (schema_version_tag ∷ tenant_id ∷ alert_id ∷ [])

-- `subj_dlq`
pub subj_dlq : String → String → String → String
subj_dlq tenant_id origin_stream alert_id =
    "dlq." +s dotted (schema_version_tag ∷ tenant_id ∷ origin_stream ∷ alert_id ∷ [])

-- The values of `StreamSpec.retention`.
pub data Retention : Type 0 where
  limits interest workqueue : Retention

-- `StreamSpec`
pub record StreamSpec : Type 0 where
  pub name : String
  pub subjects : List String
  pub retention : Retention
  pub max_age_seconds : ℕ

-- `STREAM_SPECS`
pub stream_specs : List StreamSpec
stream_specs =
    record {
      name = "ALERTS";
      subjects = "alerts.v1.>" ∷ [];
      retention = workqueue;
      max_age_seconds = 24 * 60 * 60;
    }
    ∷ record {
      name = "TRIAGE_EVENTS";
      subjects = "triage.events.v1.>" ∷ [];
      retention = interest;
      max_age_seconds = 10 * 60;
    }
    ∷ record {
      name = "CONTROL";
      subjects = "triage.cancel.v1.>" ∷ "auth.revocations.v1.>" ∷ [];
      retention = interest;
      max_age_seconds = 5 * 60;
    }
    ∷ record {
      name = "FEEDBACK";
      subjects = "feedback.v1.>" ∷ [];
      retention = limits;
      max_age_seconds = 90 * 24 * 60 * 60;
    }
    ∷ record {
      name = "DLQ";
      subjects = "dlq.v1.>" ∷ [];
      retention = limits;
      max_age_seconds = 7 * 24 * 60 * 60;
    }
    ∷ []
