-- ===== src/App/Tests.antt =====
-- app/main.py: requests for jobs and alerts.
use cyber_security_alert_tri.Common.{none, [], ◌∷◌, ◌≡◌, refl, assoc, true}
use cyber_security_alert_tri.Json.{str, null, obj, end, field}
use cyber_security_alert_tri.Effects.{ok, raised, http_error}
use cyber_security_alert_tri.Storage.Alerts
use cyber_security_alert_tri.Storage.Alerts.{running}
use cyber_security_alert_tri.Security.Guard.{validate_api_key, provided_key, after_prefix}
use cyber_security_alert_tri.App.{get_job_status, get_alert}
use cyber_security_alert_tri.App.Sample.{app, empty_store, request}

running_job :
    (get_job_status
      (app true)
      "a-1"
      request
      (record empty_store { jobs = ("a-1", record { status = running; error = none }) ∷ [] })).0
    ≡ ok (
        obj
          (field "alert_id" (str "a-1") (field "status" (str "running") (field "error" null end))))
unfolding get_job_status validate_api_key provided_key after_prefix Alerts.get_job assoc
running_job = refl

no_alert : (get_alert (app true) "a-1" request empty_store).0 ≡ raised (http_error 404)
unfolding get_alert validate_api_key provided_key after_prefix Alerts.get_alert assoc
no_alert = refl
