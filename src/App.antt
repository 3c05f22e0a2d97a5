-- ===== src/App.antt =====
-- app/main.py: the endpoints of the HTTP application, over the store of alerts and the ingest path.
pub mod Verdict
pub mod Stream
pub mod Feedback
pub mod Intake
pub mod Sample
mod Tests
use cyber_security_alert_tri.Common.{
  ℕ, String, Bool, true, false, Option, none, some, ◌==◌, ◌&&◌, not, if◌then◌else◌,
}
use cyber_security_alert_tri.Json.{Json, Fields, null, str, obj, end, field, opt_str}
use cyber_security_alert_tri.Schema.{NormalizedAlert, TriageVerdict, EscalationDecision}
use cyber_security_alert_tri.Effects.{
  Exec, Result, ok, raised, http_error, pure, raise, continue, ◌>>=◌, ◌>>◌,
}
use cyber_security_alert_tri.Storage.Alerts
use cyber_security_alert_tri.Storage.Alerts.{
  JobStatus, queued, running, complete, failed, Job, StoreEnv, Store, call,
}
use cyber_security_alert_tri.Security.Guard.{Headers, Patterns, validate_api_key}
use cyber_security_alert_tri.Security.Output.{Scrubbing}
use cyber_security_alert_tri.Runtime.Glue.{GlueEnv}

-- What the endpoints are given: the settings, the store, the ingest path, the dumps of records, and what
-- time does to the outside between two polls of a stream.
pub record AppEnv (S T : Type 0) : Type 0 where
  pub stores : StoreEnv S T
  pub glue : GlueEnv S
  pub api_key : String
  pub verdict_auth_required : Bool
  pub ingest_via_nats : Bool
  pub auto_ingest_coerce_llm : Bool
  pub patterns : Patterns
  pub scrubbing : Scrubbing
  pub dump_verdict : TriageVerdict → Fields
  pub dump_alert : NormalizedAlert → Fields

-- `JobStatus` as the text of the record.
abbrev pub status_text : JobStatus → String
status_text queued = "queued"
status_text running = "running"
status_text complete = "complete"
status_text failed = "failed"

-- A reply: its content, and whether it has the Deprecation and Sunset headers.
pub record Response : Type 0 where
  pub content : Json
  pub deprecated : Bool

abbrev pub has {ℓ} : {A : Type ℓ} → Option A → Bool
has none = false
has (some a) = true

module _ {S T : Type 0} (env : AppEnv S T) where
  -- `validate_api_key(request)`
  abbrev pub require_key : Headers → Exec (Store S) (Unit {0})
  require_key headers w = (validate_api_key env.api_key headers, w)

  -- The dictionary of a job in a reply.
  abbrev job_fields : String → Job → Fields
  job_fields id job =
      field "alert_id" (str id)
        (field "status" (str (status_text job.status)) (field "error" (opt_str job.error) end))

  abbrev pub unknown_or_404 : String → Bool → Exec (Store S) Json
  unknown_or_404 id true =
      pure (obj (field "alert_id" (str id) (field "status" (str "unknown") end)))
  unknown_or_404 id false = raise (http_error 404)

  -- `a or b`, the second only where the first is not there.
  abbrev pub known : String → Exec (Store S) Bool
  known id = do
    alert ← Alerts.get_alert env.stores id
    if has alert
        then pure true
        else (do verdict ← Alerts.get_verdict env.stores id; pure (has verdict))

  abbrev status_or_known : String → Option Job → Exec (Store S) Json
  status_or_known id (some job) = pure (obj (job_fields id job))
  status_or_known id none = do k ← known id; unknown_or_404 id k

  -- `get_job_status`
  pub get_job_status : String → Headers → Exec (Store S) Json
  get_job_status id headers = do
    require_key headers
    job ← Alerts.get_job env.stores id
    status_or_known id job

  abbrev dumped_or_404 : Option NormalizedAlert → Exec (Store S) Json
  dumped_or_404 none = raise (http_error 404)
  dumped_or_404 (some alert) = pure (obj (env.dump_alert alert))

  -- `get_alert`
  pub get_alert : String → Headers → Exec (Store S) Json
  get_alert id headers = do
    require_key headers
    alert ← Alerts.get_alert env.stores id
    dumped_or_404 alert
