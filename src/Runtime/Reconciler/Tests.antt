-- ===== src/Runtime/Reconciler/Tests.antt =====
-- services/_runtime/ingest_reconciler.py: rounds of the reconciler over a small store, and the theorem
-- about them.
use cyber_security_alert_tri.Common.{String, Bool, true, false, none, some, ◌≡◌, inl, refl}
use cyber_security_alert_tri.Effects.{ok}
use cyber_security_alert_tri.Runtime.Reconciler.{
  ReconcilerEnv, clean_up, write_ahead, process_one, run_once, run_ids, process_leased,
  acquire_lease, release_lease, process_payload, publish_pending, publish_failed, mark_published,
  increment_attempts, move_to_dlq,
}
use cyber_security_alert_tri.Runtime.Reconciler.Sample
use cyber_security_alert_tri.Runtime.Reconciler.Sample.{Store, observe, redis-Documented}
use cyber_security_alert_tri.Runtime.Reconciler.Laws.{Documented}
use cyber_security_alert_tri.Runtime.Reconciler.Durability.{Accounted, process_one-Accounted}

-- A payload is its own text.
abbrev redis : ReconcilerEnv Store String
redis = Sample.redis (λ p. ok "ingest.alerts.acme.splunk") (λ text. some text) (λ p. p)

redis_documented : Documented redis observe "a-1"
redis_documented =
    redis-Documented (λ p. ok "ingest.alerts.acme.splunk") (λ text. some text) (λ p. p)

abbrev waiting : Bool → Store
waiting up = record {
  entry = some "{}";
  due = false;
  ended = false;
  count = 0;
  broker = up;
  acknowledged = false;
}

-- What `write_ahead` stores is published by the next round, and its entry goes.
published_round :
    run_once redis (write_ahead redis "a-1" "{}" (record (waiting true) { entry = none })).1 ≡ (
      ok 1,
      record {
        entry = none;
        due = false;
        ended = false;
        count = 1;
        broker = true;
        acknowledged = true;
      },
    )
unfolding run_once run_ids process_leased acquire_lease release_lease process_one process_payload
    publish_pending mark_published clean_up increment_attempts write_ahead
published_round = refl

-- While the broker is down the entry stays.
failed_round : run_once redis (waiting false) ≡ (
  ok 1,
  record {
    entry = some "{}";
    due = false;
    ended = false;
    count = 1;
    broker = false;
    acknowledged = false;
  },
)
unfolding run_once run_ids process_leased acquire_lease release_lease process_one process_payload
    publish_pending publish_failed increment_attempts
failed_round = refl

-- The seventh failure removes it, with no dead-letter publisher to take it.
seventh_failure : (process_one redis "a-1" (record (waiting false) { count = 6 })).1 ≡ record {
  entry = none;
  due = false;
  ended = false;
  count = 7;
  broker = false;
  acknowledged = false;
}
unfolding process_one process_payload publish_pending publish_failed increment_attempts move_to_dlq
    clean_up
seventh_failure = refl

-- An entry whose time is up is gone before it is published.
expired_round : (process_one redis "a-1" (record (waiting true) { due = true })).1 ≡ record {
  entry = none;
  due = true;
  ended = true;
  count = 0;
  broker = true;
  acknowledged = false;
}
unfolding process_one
expired_round = refl

process_one-Accounted_example :
    Accounted redis observe "a-1" "{}" redis_documented (process_one redis "a-1" (waiting false)).1
process_one-Accounted_example =
    process_one-Accounted redis observe "a-1" "{}" redis_documented "{}" (waiting false) refl
      (inl refl)
