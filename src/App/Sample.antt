-- ===== src/App/Sample.antt =====
-- app/main.py: settings, a store in the process and requests for the tests.
use cyber_security_alert_tri.Common.{
  String, Bool, true, false, Option, none, some, [], ◌==◌, if◌then◌else◌,
}
use cyber_security_alert_tri.Json.{end}
use cyber_security_alert_tri.Schema.{TriageVerdict, high, escalate_ir}
use cyber_security_alert_tri.Effects.{ok, raised, value_error}
use cyber_security_alert_tri.Storage.Alerts.{StoreEnv, Store}
use cyber_security_alert_tri.Security.Guard.{Headers}
use cyber_security_alert_tri.Runtime.Tenant.{AuthContext}
use cyber_security_alert_tri.Runtime.Reconciler.Sample as Sample
use cyber_security_alert_tri.Runtime.Glue.{GlueEnv, wal_subject_resolver}
use cyber_security_alert_tri.App.{AppEnv}

-- A process without Redis.
abbrev pub stores : StoreEnv Sample.Store (Unit {0})
stores = record {
  enabled = false;
  set = λ k v s. (ok tt, s);
  get = λ k s. (ok none, s);
  blank = λ t. true;
  print_alert = λ a. tt;
  read_alert = λ t. raised value_error;
  print_verdict = λ v. tt;
  read_verdict = λ t. raised value_error;
  print_job = λ j. tt;
  read_job = λ t. raised value_error;
}

abbrev pub analyst : AuthContext
analyst = record {
  user_id = some "u-1";
  tenant_id = some "acme";
  audience = "ingest";
  role = none;
  jti = none;
}

-- Every token is the analyst's.
abbrev pub glue : GlueEnv Sample.Store
glue = record {
  wired = true;
  reconciler = Sample.redis wal_subject_resolver (λ text. none) (λ p. "{}");
  model_dump = λ a. end;
  model_dump_json = λ a. "{}";
  verify = some (λ token s. (ok analyst, s));
  record_raw = none;
  lower = λ t. if t == "Bearer k-1" then "bearer k-1" else t;
  strip = λ t. t;
}

abbrev pub app : Bool → AppEnv Sample.Store (Unit {0})
app required = record {
  stores = stores;
  glue = glue;
  api_key = "k-1";
  verdict_auth_required = required;
  ingest_via_nats = true;
  auto_ingest_coerce_llm = false;
  patterns = record { strip_scripts = λ s. s; injection = λ s. false };
  scrubbing = record { redact_password = λ s. s; redact_card = λ s. s; to_text = λ v. "" };
  dump_verdict = λ v. end;
  dump_alert = λ a. end;
}

abbrev pub verdict_of : Option String → TriageVerdict
verdict_of tenant = record {
  alert_id = "a-1";
  tenant_id = tenant;
  status = none;
  severity = high;
  mitre_assessments = [];
  immediate_actions = [];
  escalation = escalate_ir;
  total_tool_calls = 0;
  tools_called = [];
  analyst_confidence = 50;
  false_positive_probability = 50;
}

abbrev pub quiet : Sample.Store
quiet = record {
  entry = none;
  due = false;
  ended = false;
  count = 0;
  broker = true;
  acknowledged = false;
}

abbrev pub empty_store : Store Sample.Store
empty_store = record { alerts = []; verdicts = []; jobs = []; outside = quiet }

abbrev pub request : Headers
request = record { x_api_key = none; authorization = some "Bearer k-1" }
