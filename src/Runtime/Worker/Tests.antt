-- ===== src/Runtime/Worker/Tests.antt =====
-- services/_runtime/triage_worker.py: a worker whose pipeline fails, and the theorems about it.
use cyber_security_alert_tri.Common.{
  ℕ, suc, String, true, false, none, some, List, [], ◌∷◌, ◌++◌, ◌≡◌, refl, ◌==◌, arith,
  if◌then◌else◌,
}
use cyber_security_alert_tri.Effects.{Exec, ok, raised, jwt_error, value_error, other}
use cyber_security_alert_tri.Json.{Json, obj, end}
use cyber_security_alert_tri.Runtime.Tenant.{AuthContext}
use cyber_security_alert_tri.Runtime.Worker.{
  WorkerEnv, Message, PhaseEvent, handle_message, dispatch_one, token_of, parse_alert,
  publish_phase, triage, process_alert, strip_body,
}
use cyber_security_alert_tri.Runtime.Worker.Settlement.{
  Settlement, acked, nacked, terminated, Observe, Documented,
}
use cyber_security_alert_tri.Runtime.Worker.Guarantees.{
  due, all_for, dispatch_one-settles, handle_message-tenant,
}
use cyber_security_alert_tri.Samples.{sample_alert}

-- What the worker has done, newest last.
record World : Type 0 where
  settlements : List Settlement
  events : List PhaseEvent
  permits : ℕ

abbrev settled_with : Settlement → Exec World (Unit {0})
settled_with x w = (ok tt, record w { settlements = w.settlements ++ x ∷ [] })

abbrev acme : AuthContext
acme = record {
  user_id = some "u";
  tenant_id = some "acme";
  audience = "worker";
  role = none;
  jti = some "j";
}

abbrev verify_token : String → Exec World AuthContext
verify_token token w = (if token == "good" then ok acme else raised jwt_error, w)

-- The body's own tenant is not the token's, and the pipeline raises.
abbrev worker : WorkerEnv World Json
worker = record {
  verify = verify_token;
  loads = λ body. ok body;
  validate = λ body. ok (record sample_alert { tenant_id = some "evil" });
  next_seq = λ id w. (1, w);
  publish = λ e w. record w { events = w.events ++ e ∷ [] };
  is_cancelled = λ id w. (false, w);
  get_checkpointer = λ t w. (ok tt, w);
  run_triage = λ alert w. (raised value_error, w);
  ack = settled_with acked;
  nak = settled_with nacked;
  term = settled_with terminated;
  release = λ w. record w { permits = suc w.permits };
}

abbrev observe : Observe World
observe = record {
  settlements = λ w. w.settlements;
  events = λ w. w.events;
  permits = λ w. w.permits;
}

worker_documented : Documented worker observe
worker_documented = record {
  verify_only = λ token s. (refl, refl);
  next_seq_only = λ id s. (refl, refl);
  is_cancelled_only = λ id s. (refl, refl);
  get_checkpointer_only = λ t s. (refl, refl);
  run_triage_only = λ alert s. (refl, refl);
  publish_event = λ e s. refl;
  publish_settlements = λ e s. refl;
  ack_lem = λ s. refl;
  nak_lem = λ s. refl;
  term_lem = λ s. refl;
  release_lem = λ s. (refl, refl);
}

abbrev idle : World
idle = record { settlements = []; events = []; permits = 0 }

abbrev message : Message Json
message = record { body = obj end; service_token = some "good"; msg_id = some "a-1" }

-- The failed run is published for the token's tenant, and the message is handed back.
failed_run : dispatch_one worker message idle ≡ record {
  settlements = nacked ∷ [];
  events =
      record { alert_id = "a-1"; tenant_id = "acme"; event_seq = 1; phase = "queued" }
      ∷ record { alert_id = "a-1"; tenant_id = "acme"; event_seq = 1; phase = "failed" }
      ∷ [];
  permits = 1;
}
unfolding dispatch_one handle_message parse_alert publish_phase process_alert triage strip_body
failed_run = refl

-- A body that is no JSON is terminated, a body that is no text is handed back.
not_json :
    (dispatch_one (record worker { loads = λ body. raised value_error }) message idle).settlements
    ≡ terminated ∷ []
unfolding dispatch_one handle_message parse_alert
not_json = refl

not_text :
    (dispatch_one
      (record worker { loads = λ body. raised (other "UnicodeDecodeError") })
      message
      idle).settlements
    ≡ nacked ∷ []
unfolding dispatch_one handle_message parse_alert
not_text = refl

dispatch_one-settles_example :
    (dispatch_one worker message idle).settlements
    ≡ due worker (token_of message.service_token) message.body idle ∷ []
dispatch_one-settles_example = dispatch_one-settles worker observe worker_documented message idle

verified_for_acme :
    (auth : AuthContext) (t : World)
    → (worker.verify "good" t).0 ≡ ok auth
    → auth.tenant_id ≡ some "acme"
verified_for_acme auth t h = ground arith

handle_message-tenant_example :
    all_for "acme" (handle_message worker (obj end) "good" idle).1.events ≡ true
handle_message-tenant_example =
    handle_message-tenant worker observe worker_documented (obj end) "good" "acme" idle
      verified_for_acme refl
