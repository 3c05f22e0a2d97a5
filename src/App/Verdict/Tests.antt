-- ===== src/App/Verdict/Tests.antt =====
-- app/main.py: requests for verdicts, and the theorem about them.
use cyber_security_alert_tri.Common.{
  String, Option, true, false, none, some, [], ◌∷◌, ◌≡◌, refl, assoc,
}
use cyber_security_alert_tri.Json.{str, int, obj, end, field}
use cyber_security_alert_tri.Effects.{ok, raised, http_error}
use cyber_security_alert_tri.Storage.Alerts
use cyber_security_alert_tri.Storage.Alerts.{Store, failed, running}
use cyber_security_alert_tri.Security.Guard.{validate_api_key, provided_key, after_prefix}
use cyber_security_alert_tri.Runtime.Glue.{attach_verified_service_token, after_space}
use cyber_security_alert_tri.Runtime.Reconciler.Sample as Sample
use cyber_security_alert_tri.App.Sample.{app, analyst, verdict_of, empty_store, request}
use cyber_security_alert_tri.App.Verdict.{
  verified_tenant_id, attached, complete_reply, without_verdict, get_verdict, get_alert_snapshot,
}
use cyber_security_alert_tri.App.Verdict.Isolation.{get_verdict-isolated}

abbrev holding : Option String → Store Sample.Store
holding tenant = record empty_store { verdicts = ("a-1", verdict_of tenant) ∷ [] }

-- A verdict of another tenant is refused.
cross_tenant :
    (get_verdict (app true) "a-1" request (holding (some "globex"))).0 ≡ raised (http_error 403)
unfolding get_verdict verified_tenant_id validate_api_key provided_key after_prefix
    attach_verified_service_token after_space Alerts.get_verdict assoc
cross_tenant = refl

-- While authentication is not required it is not.
before_cutover :
    (get_verdict (app false) "a-1" request (holding (some "globex"))).0
    ≡ ok (complete_reply (app false) "a-1" (verdict_of (some "globex")))
unfolding get_verdict verified_tenant_id attach_verified_service_token after_space
    Alerts.get_verdict assoc
before_cutover = refl

-- No verdict, no job and no alert.
missing : (get_verdict (app false) "a-1" request empty_store).0 ≡ raised (http_error 404)
unfolding get_verdict without_verdict verified_tenant_id attach_verified_service_token after_space
    Alerts.get_verdict Alerts.get_job Alerts.get_alert assoc
missing = refl

snapshot :
    (get_alert_snapshot (app true) (λ id s. (ok 7, s)) "a-1" request (holding none)).0
    ≡ ok (
        obj (
          field "alert_id"
            (str "a-1")
            (field "last_seq" (int 7) (field "current_phase" (str "done") end))))
unfolding get_alert_snapshot validate_api_key provided_key after_prefix Alerts.get_verdict
    Alerts.get_job assoc
snapshot = refl

token : (attached (app true) request (holding (some "acme"))).0 ≡ ok (some analyst)
unfolding attach_verified_service_token after_space
token = refl

stored :
    (Alerts.get_verdict
      (app true).stores
      "a-1"
      (attached (app true) request (holding (some "acme"))).1).0
    ≡ ok (some (verdict_of (some "acme")))
unfolding Alerts.get_verdict assoc attach_verified_service_token after_space
stored = refl

handed_out :
    (get_verdict (app true) "a-1" request (holding (some "acme"))).0
    ≡ ok (complete_reply (app true) "a-1" (verdict_of (some "acme")))
unfolding get_verdict verified_tenant_id validate_api_key provided_key after_prefix
    attach_verified_service_token after_space Alerts.get_verdict assoc
handed_out = refl

get_verdict-isolated_example :
    (◌≡◌ {A = String} "acme" "acme")
    × (validate_api_key "k-1" request ≡ ok tt)
    × (complete_reply (app true) "a-1" (verdict_of (some "acme"))
        ≡ complete_reply (app true) "a-1" (verdict_of (some "acme")))
get_verdict-isolated_example =
    get_verdict-isolated (app true) "a-1" request (holding (some "acme")) analyst "acme" "acme"
      (verdict_of (some "acme")) (complete_reply (app true) "a-1" (verdict_of (some "acme"))) refl
      token refl stored refl handed_out

-- A verdict that is stored without a tenant is handed out to any tenant.
untenanted :
    (get_verdict (app true) "a-1" request (holding none)).0
    ≡ ok (complete_reply (app true) "a-1" (verdict_of none))
unfolding get_verdict verified_tenant_id validate_api_key provided_key after_prefix
    attach_verified_service_token after_space Alerts.get_verdict assoc
untenanted = refl
