-- ===== src/Runtime/Glue.antt =====
-- app/_runtime_glue.py: the ingest path to NATS, through the write-ahead log, and the service token of a
-- request.
pub mod Durable
mod Tests
use Prim.Native.Char.{code}
use cyber_security_alert_tri.Common.{
  ℕ, String, Bool, true, false, Option, none, some, ◌==◌, nat_eq, if◌then◌else◌,
}
use cyber_security_alert_tri.Json.{Json, Fields, obj, str, end, field, get, get_field, is_truthy}
use cyber_security_alert_tri.Schema.{NormalizedAlert, source_value}
use cyber_security_alert_tri.Effects.{
  Exec, Result, ok, raised, key_error, other, pure, raise, continue, ◌>>=◌, ◌>>◌, catch, handle,
  quietly,
}
use cyber_security_alert_tri.Runtime.Tenant.{AuthContext}
use cyber_security_alert_tri.Runtime.Subjects.{subj_alert}
use cyber_security_alert_tri.Runtime.Reconciler.{ReconcilerEnv, write_ahead, mark_published}

abbrev or_text : Option String → String → String
or_text none d = d
or_text (some t) d = if t == "" then d else t

-- `_subject_for_alert`; the source of an alert is never missing.
pub subject_for_alert : NormalizedAlert → String
subject_for_alert alert =
    subj_alert (or_text alert.tenant_id "default") (source_value alert.source) alert.alert_id

-- `payload[k] = v`
pub set_field : String → Json → Fields → Fields
set_field k v end = field k v end
set_field k v (field j u fs) =
    let rest = set_field k v fs in if j == k then field k v fs else field j u rest

-- The subject of a log entry; the program writes texts only.
abbrev subject_text : Option Json → Result String
subject_text none = raised key_error
subject_text (some (str t)) = if t == "" then raised key_error else ok t
subject_text (some v) =
    if is_truthy (some v) then raised (other "subject is not a text") else raised key_error

-- `_wal_subject_resolver`
pub wal_subject_resolver : Json → Result String
wal_subject_resolver payload = subject_text (get "__subject__" payload)

-- What the glue is given over the state `S`: whether the runtime is wired, the reconciler's own
-- environment with the broker in it, the two dumps of an alert, the verification of an ingest token, the
-- audit store, and `str.lower` and `str.strip`.
pub record GlueEnv (S : Type 0) : Type 0 where
  pub wired : Bool
  pub reconciler : ReconcilerEnv S Json
  pub model_dump : NormalizedAlert → Fields
  pub model_dump_json : NormalizedAlert → String
  pub verify : Option (String → Exec S AuthContext)
  pub record_raw : Option (String → Option String → Json → Exec S (Unit {0}))
  pub lower : String → String
  pub strip : String → String

-- `s.split(" ", 1)[1]`, where there is a space.
unfoldable pub after_space : String → String
after_space String.[] = ""
after_space (String.◌∷◌ c s) = let rest = after_space s in if nat_eq (code c) 32 then s else rest

module _ {S : Type 0} (env : GlueEnv S) where
  -- The payload that is logged: the dump with the subject in it.
  unfoldable pub wal_payload : NormalizedAlert → Json
  wal_payload alert =
      obj (set_field "__subject__" (str (subject_for_alert alert)) (env.model_dump alert))

  abbrev pub after_inline : String → Bool → Exec S (Unit {0})
  after_inline id true = mark_published env.reconciler id
  after_inline id false = pure tt

  -- The publish, awaited.
  abbrev pub publish_inline : NormalizedAlert → Exec S Bool
  publish_inline alert s =
      let (b, t) =
        env.reconciler.publish (subject_for_alert alert) (env.model_dump_json alert) alert.alert_id
          s in
      (ok b, t)

  -- `enqueue_via_nats`
  unfoldable pub enqueue_via_nats : NormalizedAlert → Exec S Bool
  enqueue_via_nats alert =
      if env.wired
      then (do
        logged ← write_ahead env.reconciler alert.alert_id (wal_payload alert)
        acked ← publish_inline alert
        after_inline alert.alert_id acked
        pure true)
      else pure false

  abbrev record_with :
      Option (String → Option String → Json → Exec S (Unit {0}))
      → NormalizedAlert
      → Json
      → Exec S (Unit {0})
  record_with none alert raw = pure tt
  record_with (some f) alert raw = quietly (f alert.alert_id alert.tenant_id raw)

  -- `record_raw_payload`
  unfoldable pub record_raw_payload : NormalizedAlert → Json → Exec S (Unit {0})
  record_raw_payload = record_with env.record_raw

  abbrev pub none_on_error : Exec S AuthContext → Exec S (Option AuthContext)
  none_on_error m = catch (do a ← m; pure (some a)) (λ _. pure none)

  abbrev pub verified_with :
      Option (String → Exec S AuthContext) → String → Exec S (Option AuthContext)
  verified_with none token = pure none
  verified_with (some verify) token =
      if token == "" then pure none else none_on_error (verify token)

  -- `attach_verified_service_token`, with the context that it leaves in `request.state.auth`; the argument
  -- is the authorization header, empty where there is none. `starts` tells whether it starts with
  -- `"bearer "` in lower case.
  unfoldable pub attach_verified_service_token :
      (String → Bool) → String → Exec S (Option AuthContext)
  attach_verified_service_token starts header =
      if starts (env.lower header)
      then verified_with env.verify (env.strip (after_space header))
      else pure none
