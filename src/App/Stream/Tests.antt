-- ===== src/App/Stream/Tests.antt =====
-- app/main.py: a stream that waits for its verdict, and the theorems about streams.
use cyber_security_alert_tri.Common.{
  ◌≤◌, true, none, some, [], ◌∷◌, ◌≡◌, refl, assoc, length, arith,
}
use cyber_security_alert_tri.Effects.{ok, raised, http_error}
use cyber_security_alert_tri.Storage.Alerts
use cyber_security_alert_tri.Storage.Alerts.{Store}
use cyber_security_alert_tri.Security.Guard.{validate_api_key, provided_key}
use cyber_security_alert_tri.Runtime.Reconciler.Sample as Sample
use cyber_security_alert_tri.App.Sample.{app, verdict_of, empty_store}
use cyber_security_alert_tri.App.Stream.{
  opened, timeout, progress, next, verdict_event, poll, events, event_gen, stream_triage_events,
}
use cyber_security_alert_tri.App.Stream.Ending.{
  Ended, here, polled, event_gen-Ended, event_gen-delivers,
}

abbrev finished : Store Sample.Store
finished = record empty_store { verdicts = ("a-1", verdict_of none) ∷ [] }

-- The verdict comes during the first sleep.
abbrev sleep : Store Sample.Store → Store Sample.Store
sleep w = finished

no_ticks : (events (app true) sleep "a-1" 0 empty_store).0 ≡ timeout ∷ []
unfolding events
no_ticks = refl

no_key :
    (stream_triage_events
      (app true)
      sleep
      "a-1"
      (record { x_api_key = some "k-2"; authorization = none })
      empty_store).0
    ≡ raised (http_error 401)
unfolding stream_triage_events validate_api_key provided_key
no_key = refl

event_gen-Ended_example :
    Ended (event_gen (app true) sleep "a-1" empty_store).0
    × (length (event_gen (app true) sleep "a-1" empty_store).0 ≤ 1202)
event_gen-Ended_example = event_gen-Ended (app true) sleep "a-1" empty_store

first_poll : (poll (app true) "a-1" empty_store).0 ≡ ok (next (progress "unknown"))
unfolding poll Alerts.get_verdict Alerts.get_job assoc
first_poll = refl

then_there : (Alerts.get_verdict (app true).stores "a-1" finished).0 ≡ ok (some (verdict_of none))
unfolding Alerts.get_verdict assoc
then_there = refl

event_gen-delivers_example :
    (event_gen (app true) sleep "a-1" empty_store).0
    ≡ opened ∷ progress "unknown" ∷ verdict_event (app true) (verdict_of none) ∷ []
event_gen-delivers_example =
    event_gen-delivers (app true) sleep "a-1" 1 empty_store finished (progress "unknown" ∷ [])
      (verdict_of none) (polled (progress "unknown") first_poll here) (omega arith) then_there
