-- ===== src/App/Verdict.antt =====
-- app/main.py: who may read the verdict of an alert, and how its job stands.
pub mod Isolation
mod Tests
use text.Mathlib.Text.{starts_with}
use cyber_security_alert_tri.Common.{
  ℕ, String, Bool, true, false, Option, none, some, ◌==◌, ◌&&◌, not, if◌then◌else◌,
}
use cyber_security_alert_tri.Json.{Json, Fields, null, str, int, obj, end, field, opt_str}
use cyber_security_alert_tri.Schema.{TriageVerdict}
use cyber_security_alert_tri.Effects.{
  Exec, Result, ok, raised, http_error, pure, raise, continue, ◌>>=◌, ◌>>◌,
}
use cyber_security_alert_tri.Storage.Alerts
use cyber_security_alert_tri.Storage.Alerts.{failed, Job, Store, call}
use cyber_security_alert_tri.Security.Guard.{Headers, text_of}
use cyber_security_alert_tri.Security.Output.{scrub_verdict_for_log}
use cyber_security_alert_tri.Runtime.Tenant.{AuthContext}
use cyber_security_alert_tri.Runtime.Glue.{attach_verified_service_token}
use cyber_security_alert_tri.App.{AppEnv, Response, status_text, require_key, has}

-- `_verified_tenant_id`
pub verified_tenant_id : Option AuthContext → Option String
verified_tenant_id none = none
verified_tenant_id (some auth) = auth.tenant_id

-- `a is not None and b is not None and a != b`
abbrev pub different : Option String → Option String → Bool
different (some a) (some b) = not (a == b)
different _ _ = false

module _ {S T : Type 0} (env : AppEnv S T) where
  -- The context that the request carries.
  abbrev pub attached : Headers → Exec (Store S) (Option AuthContext)
  attached headers = call (
      attach_verified_service_token env.glue (λ h. starts_with h "bearer ")
        (text_of headers.authorization))

  abbrev replied : Json → Response
  replied content = record { content = content; deprecated = not env.verdict_auth_required }

  -- The reply with a verdict.
  abbrev pub complete_reply : String → TriageVerdict → Response
  complete_reply id verdict = replied (
      obj (
        field "alert_id" (str id) (
          field "status" (str "complete") (
            field "verdict" (obj (scrub_verdict_for_log env.scrubbing (env.dump_verdict verdict)))
              end))))

  abbrev failed_reply : String → Job → Response
  failed_reply id job = replied (
      obj (
        field "alert_id" (str id)
          (field "status" (str "failed") (field "error" (opt_str job.error) end))))

  abbrev pub processing_or_404 : String → Bool → Exec (Store S) Response
  processing_or_404 id true =
      pure (replied (obj (field "alert_id" (str id) (field "status" (str "processing") end))))
  processing_or_404 id false = raise (http_error 404)

  abbrev pub is_failed : Option Job → Bool
  is_failed none = false
  is_failed (some job) = status_text job.status == status_text failed

  abbrev pub unless_failed : String → Option Job → Exec (Store S) Response → Exec (Store S) Response
  unless_failed id none rest = rest
  unless_failed id (some job) rest =
      if is_failed (some job) then pure (failed_reply id job) else rest

  -- The reply where there is no verdict.
  pub without_verdict : String → Exec (Store S) Response
  without_verdict id = do
    job ← Alerts.get_job env.stores id
    unless_failed id job
        (do alert ← Alerts.get_alert env.stores id; processing_or_404 id (has alert))

  -- The reply to a request with the given tenant.
  abbrev pub reply_to : String → Option String → Option TriageVerdict → Exec (Store S) Response
  reply_to id tenant none = without_verdict id
  reply_to id tenant (some verdict) =
      if env.verdict_auth_required && different tenant verdict.tenant_id
      then raise (http_error 403)
      else pure (complete_reply id verdict)

  -- `get_verdict`
  pub get_verdict : String → Headers → Exec (Store S) Response
  get_verdict id headers = do
    auth ← attached headers
    if env.verdict_auth_required then require_key env headers else pure tt
    verdict ← Alerts.get_verdict env.stores id
    reply_to id (verified_tenant_id auth) verdict

  -- The event sequencer of `get_alert_snapshot` is `last_seq`; its failure is logged and reads as 0.
  abbrev seq_or_zero : Result ℕ → ℕ
  seq_or_zero (ok n) = n
  seq_or_zero (raised e) = 0

  abbrev pub current_phase : Option TriageVerdict → Option Job → Option String
  current_phase (some verdict) job = some "done"
  current_phase none (some job) = some (status_text job.status)
  current_phase none none = none

  -- `get_alert_snapshot`
  pub get_alert_snapshot : (String → Exec S ℕ) → String → Headers → Exec (Store S) Json
  get_alert_snapshot last_seq id headers = do
    require_key env headers
    verdict ← Alerts.get_verdict env.stores id
    job ← Alerts.get_job env.stores id
    seq ← λ w. let (r, t) = call (last_seq id) w in (ok (seq_or_zero r), t)
    pure (
        obj (
          field "alert_id" (str id) (
            field "last_seq" (int seq)
              (field "current_phase" (opt_str (current_phase verdict job)) end))))
