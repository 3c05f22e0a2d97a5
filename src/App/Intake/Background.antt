-- ===== src/App/Intake/Background.antt =====
-- app/main.py: the triage of an alert in the process, after its request was answered.
pub mod Settles
use cyber_security_alert_tri.Common.{ℕ, suc, ◌-◌, String, Option, none, some, List, [], ◌∷◌}
use cyber_security_alert_tri.Json.{Json, str, obj, end, field}
use cyber_security_alert_tri.Schema.{NormalizedAlert, TriageVerdict}
use cyber_security_alert_tri.Effects.{
  Exec, Result, ok, raised, Exception, pure, continue, ◌>>=◌, ◌>>◌, catch, handle, quietly,
}
use cyber_security_alert_tri.Storage.Alerts
use cyber_security_alert_tri.Storage.Alerts.{running, complete, failed, Store}
use cyber_security_alert_tri.Security.Output.{scrub_verdict_for_log}
use cyber_security_alert_tri.App.Intake.{Metrics, Intake, IntakeEnv, on_store, outside}

module _ {S T L : Type 0} (env : IntakeEnv S T L) where
  -- `_pipeline_metrics[...] += 1`, for the three counters.
  abbrev pub received : Exec (Intake S L) (Unit {0})
  received w = (
    ok tt,
    record w { metrics = record w.metrics { alerts_received = suc w.metrics.alerts_received } },
  )

  abbrev pub one_error : Exec (Intake S L) (Unit {0})
  one_error w = (ok tt, record w { metrics = record w.metrics { errors = suc w.metrics.errors } })

  -- One more verdict, and the new average of the latencies.
  abbrev pub generated : ℕ → Exec (Intake S L) (Unit {0})
  generated elapsed_ms w =
      let n = suc w.metrics.verdicts_generated in
      (
        ok tt,
        record w {
          metrics = record w.metrics {
            verdicts_generated = n;
            avg_latency_ms = env.average w.metrics.avg_latency_ms n elapsed_ms;
          };
        },
      )

  -- `time.time()` in milliseconds.
  abbrev pub clock_now : Exec (Intake S L) ℕ
  clock_now w = (ok (env.clock w.store.outside), w)

  abbrev posted : Option (Json → Exec S (Unit {0})) → Json → Exec S (Unit {0})
  posted none payload = pure tt
  posted (some post) payload = quietly (post payload)

  -- `_notify_triage_webhook`
  unfoldable pub notify_triage_webhook : String → TriageVerdict → Exec S (Unit {0})
  notify_triage_webhook id verdict = posted env.webhook (
      obj (
        field "alert_id" (str id) (
          field "verdict"
            (obj (scrub_verdict_for_log env.app.scrubbing (env.app.dump_verdict verdict))) end)))

  -- The part of the `try` after the verdict.
  unfoldable pub complete_triage :
      NormalizedAlert → ℕ → TriageVerdict → Exec (Intake S L) (Unit {0})
  complete_triage alert start verdict = do
    stop ← clock_now
    on_store (Alerts.put_verdict env.app.stores alert.alert_id verdict)
    on_store (Alerts.set_job env.app.stores alert.alert_id complete none)
    generated (stop - start)
    outside (env.record_cost alert verdict (stop - start))
    outside (notify_triage_webhook alert.alert_id verdict)

  abbrev pub fail_triage : NormalizedAlert → Exception → Exec (Intake S L) (Unit {0})
  fail_triage alert e = do
    one_error
    on_store (Alerts.set_job env.app.stores alert.alert_id failed (some (env.describe e)))

  -- `_run_triage_background`
  unfoldable pub run_triage_background : NormalizedAlert → Exec (Intake S L) (Unit {0})
  run_triage_background alert = do
    start ← clock_now
    received
    on_store (Alerts.set_job env.app.stores alert.alert_id running none)
    catch (do verdict ← outside (env.triage alert); complete_triage alert start verdict)
        (fail_triage alert)
