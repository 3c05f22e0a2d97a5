-- ===== src/App/Intake/Tests.antt =====
-- app/main.py: batches and background triages, and the theorems about them.
use cyber_security_alert_tri.Common.{
  ℕ, ◌+◌, ◌≤◌, true, false, none, List, [], ◌∷◌, ◌≡◌, refl, length,
}
use cyber_security_alert_tri.Json.{str, obj, end, field, get_field}
use cyber_security_alert_tri.Schema.{generic}
use cyber_security_alert_tri.Effects.{ok, raised, http_error, value_error}
use cyber_security_alert_tri.Samples.{sample_alert}
use cyber_security_alert_tri.Pipeline.Finish.{dict_set}
use cyber_security_alert_tri.Storage.Alerts
use cyber_security_alert_tri.Storage.Alerts.{failed}
use cyber_security_alert_tri.Security.Guard.{
  validate_api_key, provided_key, after_prefix, check_payload_size, sanitise_payload,
  sanitise_string,
}
use cyber_security_alert_tri.Runtime.Reconciler.Sample as Sample
use cyber_security_alert_tri.Runtime.Glue.{record_raw_payload}
use cyber_security_alert_tri.Ingest.Detect.{is_detection_finding_payload}
use cyber_security_alert_tri.Ingest.Parsers.{◌>>=◌}
use cyber_security_alert_tri.Ingest.Parsers.Generic.{parse_generic, generic_arguments}
use cyber_security_alert_tri.Ingest.Finding.{attach_detection_finding}
use cyber_security_alert_tri.Ingest.Parsers.Normalize.{normalize_alert}
use cyber_security_alert_tri.Ingest.Sample.{python, built}
use cyber_security_alert_tri.App.Sample.{app, empty_store, request}
use cyber_security_alert_tri.App.Intake.{
  Intake, IntakeEnv, IngestRequest, parse_source, dispatch_triage, accept, ingest_alert,
  ingest_alert_auto,
}
use cyber_security_alert_tri.App.Intake.Batch.{
  BatchIngestItem, BatchReply, unknown, accepted, count_accepted, ingest_row, ingest_rows,
  ingest_batch,
}
use cyber_security_alert_tri.App.Intake.Batch.Counts.{ingest_batch-counts}
use cyber_security_alert_tri.App.Intake.Background.{run_triage_background}
use cyber_security_alert_tri.App.Intake.Background.Settles.{Settled, run_triage_background-settles}

-- Alerts are triaged in the process, and the pipeline raises.
abbrev env : IntakeEnv Sample.Store (Unit {0}) ℕ
env = record {
  app = record (app true) { ingest_via_nats = false };
  python = python;
  models = record { ollama = none; openai = none };
  triage = λ alert s. (raised value_error, s);
  clock = λ s. 0;
  average = λ old n elapsed. elapsed;
  record_cost = λ alert verdict elapsed s. (ok tt, s);
  webhook = none;
  describe = λ e. "error";
}

abbrev idle : Intake Sample.Store ℕ
idle = record {
  store = empty_store;
  tasks = [];
  metrics = record { alerts_received = 0; verdicts_generated = 0; errors = 0; avg_latency_ms = 0 };
}

abbrev items : List BatchIngestItem
items =
    record { source = "generic"; payload = field "title" (str "Odd login") end }
    ∷ record { source = "nagios"; payload = end }
    ∷ []

-- One item is accepted, and the other has no known source.
abbrev answer : BatchReply
answer = record {
  accepted = 1;
  total = 2;
  results = accepted "a-0" generic ∷ unknown "nagios" ∷ [];
}

answered : (ingest_batch env items request idle).0 ≡ ok answer
unfolding ingest_batch ingest_rows ingest_row count_accepted accept dispatch_triage
    record_raw_payload parse_source validate_api_key provided_key after_prefix sanitise_payload
    sanitise_string normalize_alert is_detection_finding_payload get_field parse_generic ◌>>=◌
    Alerts.put_alert Alerts.set_job dict_set attach_detection_finding built generic_arguments
answered = refl

ingest_batch-counts_example :
    (validate_api_key "k-1" request ≡ ok tt)
    × (answer.total ≡ length items)
    × (length answer.results ≡ length items)
    × (answer.accepted ≤ length items)
    × (length (ingest_batch env items request idle).1.tasks ≡ length idle.tasks + 1)
ingest_batch-counts_example = ingest_batch-counts env items request idle answer answered

run_triage_background-settles_example :
    Settled env refl sample_alert 0 (run_triage_background env sample_alert idle)
run_triage_background-settles_example = run_triage_background-settles env refl sample_alert idle

-- A request with a large body.
abbrev large : IngestRequest
large = record { headers = request; body_bytes = 1000001; json = ok (obj end) }

too_large : ingest_alert env "splunk" large idle ≡ (raised (http_error 413), idle)
unfolding ingest_alert validate_api_key provided_key after_prefix check_payload_size
too_large = refl

-- The pipeline's failure is counted, and the job failed.
one_failure : (run_triage_background env sample_alert idle).1.metrics.errors ≡ 1
unfolding run_triage_background Alerts.set_job
one_failure = refl

auto_too_large : ingest_alert_auto env large idle ≡ (raised (http_error 413), idle)
unfolding ingest_alert_auto validate_api_key provided_key after_prefix check_payload_size
auto_too_large = refl
