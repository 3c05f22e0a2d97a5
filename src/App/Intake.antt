-- ===== src/App/Intake.antt =====
-- app/main.py: the endpoints that accept alerts, and the triage that runs after the reply.
pub mod Routes
pub mod Batch
pub mod Background
mod Tests
use cyber_security_alert_tri.Common.{
  ℕ, suc, ◌-◌, String, Bool, true, false, Option, none, some, List, [], ◌∷◌, ◌++◌, ◌==◌, length,
  if◌then◌else◌,
}
use cyber_security_alert_tri.Json.{Json, Fields, str, obj, end, field}
use cyber_security_alert_tri.Schema.{
  NormalizedAlert, TriageVerdict, AlertSource, splunk, crowdstrike, aws_guardduty, sentinel,
  generic, source_value,
}
use cyber_security_alert_tri.Effects.{
  Exec, Result, ok, raised, Exception, http_error, pure, raise, continue, ◌>>=◌, ◌>>◌, catch,
  handle, quietly,
}
use cyber_security_alert_tri.Storage.Alerts
use cyber_security_alert_tri.Storage.Alerts.{
  JobStatus, queued, running, complete, failed, Store, call,
}
use cyber_security_alert_tri.Security.Guard.{Headers, check_payload_size, sanitise_payload}
use cyber_security_alert_tri.Security.Output.{scrub_verdict_for_log}
use cyber_security_alert_tri.Runtime.Glue.{enqueue_via_nats, record_raw_payload}
use cyber_security_alert_tri.Ingest.Parsers.{Python, as_fields}
use cyber_security_alert_tri.Ingest.Parsers.Normalize.{normalize_alert}
use cyber_security_alert_tri.Ingest.Auto.{Models, resolve_alert_for_auto_ingest}
use cyber_security_alert_tri.App.{AppEnv, require_key}

-- `_pipeline_metrics`, with a latency of type `L`.
pub record Metrics (L : Type 0) : Type 0 where
  pub alerts_received : ℕ
  pub verdicts_generated : ℕ
  pub errors : ℕ
  pub avg_latency_ms : L

-- The store, the background tasks that were added, and the metrics.
pub record Intake (S L : Type 0) : Type 0 where
  pub store : Store S
  pub tasks : List NormalizedAlert
  pub metrics : Metrics L

-- What the intake is given beside the application: Python's library, the models of the auto ingest, the
-- pipeline's `run_triage`, the clock in milliseconds, the new average of the latencies from the old one, the
-- number of verdicts and the time of this one, the cost tracker, the webhook where its URL is set, and `str`
-- of an exception.
pub record IntakeEnv (S T L : Type 0) : Type 0 where
  pub app : AppEnv S T
  pub python : Python
  pub models : Models S
  pub triage : NormalizedAlert → Exec S TriageVerdict
  pub clock : S → ℕ
  pub average : L → ℕ → ℕ → L
  pub record_cost : NormalizedAlert → TriageVerdict → ℕ → Exec S (Unit {0})
  pub webhook : Option (Json → Exec S (Unit {0}))
  pub describe : Exception → String

-- A request to ingest: its headers, the size of its body, and its JSON.
pub record IngestRequest : Type 0 where
  pub headers : Headers
  pub body_bytes : ℕ
  pub json : Result Json

-- `AlertSource(text)`
unfoldable pub parse_source : String → Option AlertSource
parse_source t =
    if t == source_value splunk
    then some splunk
    else if t == source_value crowdstrike
    then some crowdstrike
    else if t == source_value aws_guardduty
    then some aws_guardduty
    else if t == source_value sentinel
    then some sentinel
    else if t == source_value generic
    then some generic
    else none

abbrev pub on_store {ℓ} : {S L : Type 0} {A : Type ℓ} → Exec (Store S) A → Exec (Intake S L) A
on_store m w = ((m w.store).0, record w { store = (m w.store).1 })

abbrev pub outside {ℓ} : {S L : Type 0} {A : Type ℓ} → Exec S A → Exec (Intake S L) A
outside m = on_store (call m)

abbrev pub lift {ℓ} : {S : Type 0} {A : Type ℓ} → Result A → Exec S A
lift r s = (r, s)

module _ {S T L : Type 0} (env : IntakeEnv S T L) where
  -- `background_tasks.add_task(_run_triage_background, ...)`
  abbrev pub add_task : NormalizedAlert → Exec (Intake S L) (Unit {0})
  add_task alert w = (ok tt, record w { tasks = w.tasks ++ (alert ∷ []) })

  abbrev pub unless_enqueued : NormalizedAlert → Bool → Exec (Intake S L) (Unit {0})
  unless_enqueued alert true = pure tt
  unless_enqueued alert false = add_task alert

  -- `_dispatch_triage`
  pub dispatch_triage : NormalizedAlert → Exec (Intake S L) (Unit {0})
  dispatch_triage alert =
      if env.app.ingest_via_nats
      then (do
        enqueued ← catch (outside (enqueue_via_nats env.app.glue alert)) (λ _. pure false)
        unless_enqueued alert enqueued)
      else add_task alert

  -- What the three endpoints do with an alert.
  pub accept : NormalizedAlert → Json → Exec (Intake S L) (Unit {0})
  accept alert raw = do
    on_store (Alerts.put_alert env.app.stores alert)
    on_store (Alerts.set_job env.app.stores alert.alert_id queued none)
    outside (record_raw_payload env.app.glue alert raw)
    dispatch_triage alert

  abbrev or_422 : Result NormalizedAlert → Exec (Intake S L) NormalizedAlert
  or_422 (ok alert) = pure alert
  or_422 (raised e) = raise (http_error 422)

  abbrev or_400 : Option AlertSource → Exec (Intake S L) AlertSource
  or_400 none = raise (http_error 400)
  or_400 (some source) = pure source

  -- The payload of a request, cleaned.
  abbrev pub clean : Fields → Fields
  clean = sanitise_payload env.app.patterns 0

  -- `ingest_alert`; the reply is the id.
  pub ingest_alert : String → IngestRequest → Exec (Intake S L) String
  ingest_alert source request = do
    on_store (require_key env.app request.headers)
    lift (check_payload_size request.body_bytes)
    alert_source ← or_400 (parse_source (env.python.lower source))
    json ← lift request.json
    payload ← lift (as_fields json)
    alert ← or_422 (normalize_alert env.python alert_source (clean payload))
    accept alert (obj (clean payload))
    pure alert.alert_id

  -- `ingest_alert_auto`; the reply is the id and the source.
  pub ingest_alert_auto : IngestRequest → Exec (Intake S L) (String × AlertSource)
  ingest_alert_auto request = do
    on_store (require_key env.app request.headers)
    lift (check_payload_size request.body_bytes)
    json ← lift request.json
    payload ← lift (as_fields json)
    alert ←
        catch
          (outside (
            resolve_alert_for_auto_ingest env.python env.models env.app.auto_ingest_coerce_llm
              (clean payload)))
          (λ _. raise (http_error 422))
    accept alert (obj (clean payload))
    pure (alert.alert_id, alert.source)
