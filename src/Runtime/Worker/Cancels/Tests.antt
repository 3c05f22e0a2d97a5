-- ===== src/Runtime/Worker/Cancels/Tests.antt =====
-- services/_runtime/triage_worker.py: two requests to cancel, to a registry that raises.
use cyber_security_alert_tri.Common.{
  ℕ, suc, ◌+◌, none, some, List, [], ◌∷◌, ◌++◌, map, length, ◌≡◌, refl, inl, inr,
}
use cyber_security_alert_tri.Json.{Json, str, obj, end, field, get_field}
use cyber_security_alert_tri.Effects.{ok, raised, other}
use cyber_security_alert_tri.Runtime.Worker.Cancels.{
  CancelEnv, alert_id_from_subject, split_dots, cancel_batch,
}
use cyber_security_alert_tri.Runtime.Worker.Cancels.Handled.{
  Seen, CancelRequest, AllAddressed, is_token, published, alert_ids, cancel_batch-published,
}

-- The acknowledgements, and the ids of the requests.
record Log : Type 0 where
  acks : ℕ
  requests : List Json

abbrev control : CancelEnv Log Json
control = record {
  loads = ok;
  request_cancel =
      λ id w. (raised (other "ConnectionError"), record w { requests = w.requests ++ id ∷ [] });
  ack = λ w. (ok tt, record w { acks = suc w.acks });
}

control-Seen : Seen control (λ w. w.acks) (λ w. w.requests)
control-Seen = record {
  acks-ack = λ w. refl;
  requests-ack = λ w. refl;
  acks-request = λ id w. refl;
  requests-request = λ id w. refl;
}

-- Only the last part of an alert's id with a dot is found.
dotted_id : alert_id_from_subject "triage.cancel.v1.acme.a.1" ≡ some "1"
unfolding alert_id_from_subject split_dots
dotted_id = refl

other_subject : alert_id_from_subject "alerts.v1.acme.splunk.a-1" ≡ none
unfolding alert_id_from_subject split_dots
other_subject = refl

-- The body that the frontend sends names an alert whose id has a dot; the other request has no body.
abbrev frontend_body : Json
frontend_body = obj (
    field "alert_id" (str "a.1") (
      field "tenant_id" (str "acme")
        (field "user_id" (str "u-1") (field "reason" (str "ws_closed") end))))

abbrev cancelled : List (CancelRequest Json)
cancelled =
    record { tenant = "acme"; alert_id = "a.1"; body = some frontend_body }
    ∷ record { tenant = "globex"; alert_id = "a-2"; body = none }
    ∷ []

cancelled-AllAddressed : AllAddressed control cancelled
unfolding is_token get_field
cancelled-AllAddressed =
    ((refl, inl (frontend_body, _, refl, refl, refl)), ((refl, inr (refl, refl, refl)), tt))

abbrev nothing_done : Log
nothing_done = record { acks = 0; requests = [] }

cancel_batch-published_example :
    ((cancel_batch control (map published cancelled) nothing_done).acks ≡ 0 + length cancelled)
    × ((cancel_batch control (map published cancelled) nothing_done).requests
        ≡ [] ++ alert_ids cancelled)
cancel_batch-published_example =
    cancel_batch-published control control-Seen cancelled nothing_done cancelled-AllAddressed
