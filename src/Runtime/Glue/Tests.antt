-- ===== src/Runtime/Glue/Tests.antt =====
-- app/_runtime_glue.py: alerts on their way to the broker, and the theorems about them.
use cyber_security_alert_tri.Common.{Bool, true, false, none, some, ◌≡◌, refl}
use cyber_security_alert_tri.Effects.{ok, raised, jwt_error}
use cyber_security_alert_tri.Json.{Json, obj, str, end, field}
use cyber_security_alert_tri.Samples.{sample_alert}
use cyber_security_alert_tri.Runtime.Subjects.{subj_alert}
use cyber_security_alert_tri.Runtime.Reconciler.{
  ReconcilerEnv, write_ahead, mark_published, clean_up,
}
use cyber_security_alert_tri.Runtime.Reconciler.Sample
use cyber_security_alert_tri.Runtime.Reconciler.Sample.{Store, observe, redis-Documented}
use cyber_security_alert_tri.Runtime.Reconciler.Laws.{Documented}
use cyber_security_alert_tri.Runtime.Glue.{
  GlueEnv, subject_for_alert, set_field, wal_subject_resolver, wal_payload, enqueue_via_nats,
  record_raw_payload, attach_verified_service_token, after_space,
}
use cyber_security_alert_tri.Runtime.Glue.Durable.{
  InLog, rounds, enqueue_via_nats-reply, enqueue_via_nats-Accounted,
}

-- The payload that is logged.
abbrev logged : Json
logged = obj (field "__subject__" (str "alerts.v1.acme.splunk.a-1") end)

abbrev redis : ReconcilerEnv Store Json
redis = Sample.redis wal_subject_resolver (λ text. some logged) (λ p. "{}")

redis_documented : Documented redis observe "a-1"
redis_documented = redis-Documented wal_subject_resolver (λ text. some logged) (λ p. "{}")

-- The audit store and the ingest token fail.
abbrev glue : GlueEnv Store
glue = record {
  wired = true;
  reconciler = redis;
  model_dump = λ a. end;
  model_dump_json = λ a. "{}";
  verify = some (λ token s. (raised jwt_error, s));
  record_raw = some (λ id tenant raw s. (raised jwt_error, s));
  lower = λ t. t;
  strip = λ t. t;
}

abbrev before : Bool → Store
before up = record {
  entry = none;
  due = false;
  ended = false;
  count = 0;
  broker = up;
  acknowledged = false;
}

-- A publish that the broker acknowledges takes the entry out of the log again.
enqueued : enqueue_via_nats glue sample_alert (before true) ≡ (
  ok true,
  record {
    entry = none;
    due = false;
    ended = false;
    count = 0;
    broker = true;
    acknowledged = true;
  },
)
unfolding enqueue_via_nats write_ahead mark_published clean_up
enqueued = refl

-- One that fails leaves it.
deferred : enqueue_via_nats glue sample_alert (before false) ≡ (
  ok true,
  record {
    entry = some "{}";
    due = false;
    ended = false;
    count = 0;
    broker = false;
    acknowledged = false;
  },
)
unfolding enqueue_via_nats write_ahead mark_published clean_up
deferred = refl

token_text : after_space "Bearer e30.e30.x" ≡ "e30.e30.x"
unfolding after_space
token_text = refl

bad_token :
    attach_verified_service_token glue (λ h. true) "Bearer x" (before true) ≡ (ok none, before true)
unfolding attach_verified_service_token after_space
bad_token = refl

audit_down : record_raw_payload glue sample_alert logged (before true) ≡ (ok tt, before true)
unfolding record_raw_payload
audit_down = refl

enqueue_via_nats-reply_example :
    ((enqueue_via_nats glue sample_alert (before false)).0 ≡ ok true)
    × (true ≡ false → (enqueue_via_nats glue sample_alert (before false)).1 ≡ before false)
enqueue_via_nats-reply_example = enqueue_via_nats-reply glue sample_alert (before false)

readable : some logged ≡ some (wal_payload glue sample_alert)
unfolding wal_payload set_field subject_for_alert subj_alert
readable = refl

enqueue_via_nats-Accounted_example :
    ((enqueue_via_nats glue sample_alert (before false)).0 ≡ ok true)
    × InLog glue observe sample_alert redis_documented
        (rounds redis "a-1" 2 (enqueue_via_nats glue sample_alert (before false)).1)
enqueue_via_nats-Accounted_example =
    enqueue_via_nats-Accounted glue observe sample_alert redis_documented (before false) 2 refl refl
      readable refl refl
