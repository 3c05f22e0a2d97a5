-- ===== src/App/Stream.antt =====
-- app/main.py: the events of a stream, which polls the store until a verdict, a failure or its end.
pub mod Ending
mod Tests
use cyber_security_alert_tri.Common.{
  ℕ, zero, suc, String, Bool, true, false, Option, none, some, List, [], ◌∷◌, ◌==◌, if◌then◌else◌,
}
use cyber_security_alert_tri.Json.{Fields}
use cyber_security_alert_tri.Schema.{TriageVerdict}
use cyber_security_alert_tri.Effects.{
  Exec, Result, ok, raised, Exception, continue, pure, ◌>>=◌, ◌>>◌,
}
use cyber_security_alert_tri.Storage.Alerts
use cyber_security_alert_tri.Storage.Alerts.{Job, Store}
use cyber_security_alert_tri.Security.Output.{scrub_verdict_for_log}
use cyber_security_alert_tri.Security.Guard.{Headers}
use cyber_security_alert_tri.App.{AppEnv, status_text, require_key}

-- The events: the phases "open", "complete", "failed", "timeout" and "error", and the status of a job.
pub data Event : Type 0 where
  opened timeout : Event
  done : Fields → Event
  failed : Option String → Event
  progress : String → Event
  errored : Exception → Event

-- What one poll gives: the last event of the stream, or one of its progress.
pub data Poll : Type 0 where
  last next : Event → Poll

-- The stream from a poll on; an exception ends it with an event.
abbrev pub after_poll : {W : Type 0} → Result Poll → W → List Event × W → List Event × W
after_poll (raised e) w rest = (errored e ∷ [], w)
after_poll (ok (last e)) w rest = (e ∷ [], w)
after_poll (ok (next e)) w rest = (e ∷ rest.0, rest.1)

-- `_STREAM_MAX_TICKS`
abbrev pub max_ticks : ℕ
max_ticks = 1200

module _ {S T : Type 0} (env : AppEnv S T) where
  -- The event of a verdict.
  abbrev pub verdict_event : TriageVerdict → Event
  verdict_event verdict = done (scrub_verdict_for_log env.scrubbing (env.dump_verdict verdict))

  abbrev pub of_job : Option Job → Poll
  of_job none = next (progress "unknown")
  of_job (some job) =
      if status_text job.status == "failed"
      then last (failed job.error)
      else next (progress (status_text job.status))

  abbrev pub of_verdict : String → Option TriageVerdict → Exec (Store S) Poll
  of_verdict id (some verdict) = pure (last (verdict_event verdict))
  of_verdict id none = do job ← Alerts.get_job env.stores id; pure (of_job job)

  -- The body of the loop, up to the sleep.
  pub poll : String → Exec (Store S) Poll
  poll id = do verdict ← Alerts.get_verdict env.stores id; of_verdict id verdict

module _ {S T : Type 0} (env : AppEnv S T) (sleep : Store S → Store S) where
  -- The rest of the loop where `n` ticks are left.
  pub events : String → ℕ → Store S → List Event × Store S
  events id zero w = (timeout ∷ [], w)
  events id (suc n) w =
      let v = (poll env id w).1 in after_poll (poll env id w).0 v (events id n (sleep v))

  -- `event_gen`
  pub event_gen : String → Store S → List Event × Store S
  event_gen id w = let rest = events id max_ticks w in (opened ∷ rest.0, rest.1)

  -- `stream_triage_events`, with the events that are sent after the reply.
  pub stream_triage_events : String → Headers → Exec (Store S) (List Event)
  stream_triage_events id headers = do
    require_key env headers
    λ w. let (es, v) = event_gen id w in (ok es, v)
