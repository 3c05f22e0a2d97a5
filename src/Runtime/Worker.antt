-- ===== src/Runtime/Worker.antt =====
-- services/_runtime/triage_worker.py: one message of the ALERTS stream, from its service token to its
-- acknowledgement.
pub mod Settlement
pub mod Guarantees
pub mod Cancels
mod Tests
use cyber_security_alert_tri.Common.{
  ℕ, String, Bool, true, false, Option, none, some, List, [], ◌∷◌, ◌++◌, ◌==◌, if◌then◌else◌,
}
use cyber_security_alert_tri.Effects.{
  Exec, Result, ok, raised, Exception, jwt_error, poison_pill, value_error, pure, raise, continue,
  ◌>>=◌, ◌>>◌, catch, handle,
}
use cyber_security_alert_tri.Json.{Json, Fields, obj, end, field}
use cyber_security_alert_tri.Schema.{NormalizedAlert, TriageVerdict}
use cyber_security_alert_tri.Runtime.Tenant.{AuthContext}

-- `PhaseEvent` with the subject that it goes to.
pub record PhaseEvent : Type 0 where
  pub alert_id : String
  pub tenant_id : String
  pub event_seq : ℕ
  pub phase : String

-- What the worker is given, over the state `S` of the broker, Redis and the pipeline: `verify` and
-- `run_triage` may raise; `next_seq`, `publish` and `is_cancelled` catch their own exceptions. `B` is
-- the type of a message body; `loads` and `validate` are `json.loads` and pydantic's validation, with
-- the exception that they raise: `loads` raises `value_error` for a `JSONDecodeError`.
pub record WorkerEnv (S B : Type 0) : Type 0 where
  pub verify : String → Exec S AuthContext
  pub loads : B → Result Json
  pub validate : Json → Result NormalizedAlert
  pub next_seq : String → S → ℕ × S
  pub publish : PhaseEvent → S → S
  pub is_cancelled : String → S → Bool × S
  pub get_checkpointer : Option String → Exec S (Unit {0})
  pub run_triage : NormalizedAlert → Exec S TriageVerdict
  pub ack : Exec S (Unit {0})
  pub nak : Exec S (Unit {0})
  pub term : Exec S (Unit {0})
  pub release : S → S

-- A message of the stream: its body, and the two headers that are read.
pub record Message (B : Type 0) : Type 0 where
  pub body : B
  pub service_token : Option String
  pub msg_id : Option String

-- `raw.pop(k, None)`
pub pop_field : String → Fields → Fields
pop_field k end = end
pop_field k (field j v fs) = let rest = pop_field k fs in if j == k then rest else field j v rest

-- The keys that a client may not set.
unfoldable pub strip_body : Json → Json
unfolding pop_field
strip_body (obj fs) = obj (pop_field "__subject__" (pop_field "tenant_id" fs))
strip_body v = v

-- A `JSONDecodeError` of `json.loads`, here `value_error`, is a poison pill; its other exceptions, such
-- as the `UnicodeDecodeError` of a body that is no text (an `other`), pass.
abbrev pub decoded : Result Json → Result Json
decoded (raised value_error) = raised poison_pill
decoded r = r

-- Every exception of the validation is a poison pill.
abbrev pub or_poison {ℓ} : {A : Type ℓ} → Result A → Result A
or_poison (ok a) = ok a
or_poison (raised e) = raised poison_pill

abbrev pub with_tenant : Option String → Result NormalizedAlert → Result NormalizedAlert
with_tenant t (ok alert) = ok (record alert { tenant_id = t })
with_tenant t (raised e) = raised e

abbrev pub validated :
    (Json → Result NormalizedAlert) → Option String → Result Json → Result NormalizedAlert
validated validate t (raised e) = raised e
validated validate t (ok v) = with_tenant t (or_poison (validate (strip_body v)))

-- `status` after a cancel that landed while the graph ran.
abbrev pub note_cancel : Option String → Bool → Option String
note_cancel none true = some "cancelled"
note_cancel status _ = status

-- The first header that is there and not empty.
abbrev pub token_of : Option String → Option String
token_of none = none
token_of (some t) = if t == "" then none else some t

module _ {S B : Type 0} (env : WorkerEnv S B) where
  -- `_parse_alert`
  unfoldable pub parse_alert : B → AuthContext → Result NormalizedAlert
  parse_alert body auth = validated env.validate auth.tenant_id (decoded (env.loads body))

  abbrev pub publish_for : Option String → NormalizedAlert → String → S → S
  publish_for none alert phase s = s
  publish_for (some t) alert phase s =
      if t == ""
      then s
      else (let (seq, s1) = env.next_seq alert.alert_id s in
          env.publish
            (record { alert_id = alert.alert_id; tenant_id = t; event_seq = seq; phase = phase })
            s1)

  -- `_publish_phase`; an alert with no tenant is not routed.
  unfoldable pub publish_phase : NormalizedAlert → String → Exec S (Unit {0})
  publish_phase alert phase s = (ok tt, publish_for alert.tenant_id alert phase s)

  -- The run of the pipeline, whose failure is published and raised again.
  unfoldable pub triage : NormalizedAlert → Exec S TriageVerdict
  triage alert = catch (env.run_triage alert) (λ e. publish_phase alert "failed" >> raise e)

  -- The part of `handle_message` after the first cancellation check.
  unfoldable pub process_alert : AuthContext → NormalizedAlert → Exec S TriageVerdict
  process_alert auth alert = do
    env.get_checkpointer auth.tenant_id
    verdict ← triage alert
    late ← λ s. (ok (env.is_cancelled alert.alert_id s).0, (env.is_cancelled alert.alert_id s).1)
    publish_phase alert "done"
    pure (record verdict { status = note_cancel verdict.status late })

  abbrev pub unless_cancelled : Bool → AuthContext → NormalizedAlert → Exec S (Option TriageVerdict)
  unless_cancelled true auth alert = publish_phase alert "cancelled" >> pure none
  unless_cancelled false auth alert = do v ← process_alert auth alert; pure (some v)

  -- `handle_message`, with the verdict that its last lines leave in the local variable; `none` where
  -- the alert was cancelled before the pipeline ran.
  unfoldable pub handle_message : B → String → Exec S (Option TriageVerdict)
  handle_message body token = do
    auth ← env.verify token
    alert ← λ s. (parse_alert body auth, s)
    publish_phase alert "queued"
    early ← λ s. (ok (env.is_cancelled alert.alert_id s).0, (env.is_cancelled alert.alert_id s).1)
    unless_cancelled early auth alert

  -- `_safe_ack`, `_safe_nak`, `_safe_term`: a failure of the acknowledgement itself is dropped.
  abbrev pub safe : Exec S (Unit {0}) → S → S
  safe m s = (m s).1

  -- The `except` clauses of `_dispatch_one`, and the acknowledgement after them.
  abbrev pub settle {ℓ} : {A : Type ℓ} → Result A → S → S
  settle (ok a) s = safe env.ack s
  settle (raised jwt_error) s = safe env.term s
  settle (raised poison_pill) s = safe env.term s
  settle (raised e) s = safe env.nak s

  abbrev pub dispatch_token : Option String → B → S → S
  dispatch_token none body s = safe env.term s
  dispatch_token (some token) body s = let (r, s1) = handle_message body token s in settle r s1

  -- `_dispatch_one`; the semaphore is released whatever happened.
  unfoldable pub dispatch_one : Message B → S → S
  dispatch_one msg s = env.release (dispatch_token (token_of msg.service_token) msg.body s)
