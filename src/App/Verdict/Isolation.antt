-- ===== src/App/Verdict/Isolation.antt =====
-- app/main.py: the tenants whose verdicts get_verdict hands out.
use cyber_security_alert_tri.Common.{
  String, Bool, true, false, Option, some, ◌≡◌, ap, sym, ◌∙◌, arith, eq_iff, if◌then◌else◌,
}
use cyber_security_alert_tri.Schema.{TriageVerdict}
use cyber_security_alert_tri.Effects.{Exec, Result, ok, pure, continue, ◌>>=◌, ◌>>◌}
use cyber_security_alert_tri.Storage.Alerts
use cyber_security_alert_tri.Storage.Alerts.{Store}
use cyber_security_alert_tri.Security.Guard.{Headers, validate_api_key}
use cyber_security_alert_tri.Runtime.Tenant.{AuthContext}
use cyber_security_alert_tri.App.{AppEnv, Response, require_key}
use cyber_security_alert_tri.App.Verdict.{
  verified_tenant_id, attached, complete_reply, reply_to, get_verdict,
}

module _ {S T : Type 0} (env : AppEnv S T) where
  -- The replies of the last step, for a verdict of a known tenant.
  reply_to-same :
      (id : String) (t u : String) (verdict : TriageVerdict) (r : Response) (w : Store S)
      → env.verdict_auth_required ≡ true
      → verdict.tenant_id ≡ some u
      → (reply_to env id (some t) (some verdict) w).0 ≡ ok r
      → (t ≡ u) × (r ≡ complete_reply env id verdict)
  reply_to-same id t u verdict r w required of_u replied = ground (arith, eq_iff t u)

  -- The steps of `get_verdict` after the token.
  abbrev after_token : String → Headers → Option AuthContext → Exec (Store S) Response
  after_token id headers auth = do
    if env.verdict_auth_required then require_key env headers else pure tt
    verdict ← Alerts.get_verdict env.stores id
    reply_to env id (verified_tenant_id auth) verdict

  passed :
      (b : Bool) (key : Result (Unit {0})) (fetch : Exec (Store S) (Option TriageVerdict))
      (w : Store S) (verdict : TriageVerdict)
      (reply : Option TriageVerdict → Exec (Store S) Response) (r : Response)
      → b ≡ true
      → (fetch w).0 ≡ ok (some verdict)
      → (((if b then (λ v. (key, v)) else pure tt) >> (fetch >>= reply)) w).0 ≡ ok r
      → (key ≡ ok tt) × ((reply (some verdict) (fetch w).1).0 ≡ ok r)
  passed true key fetch w verdict reply r required stored replied = ground arith
  passed false key fetch w verdict reply r required stored replied = ground arith

  -- Where verdicts need authentication, a request whose token is verified for a tenant gets the stored verdict
  -- of a tenant only if the tenants are the same and its API key is the right one, and the reply is then
  -- that verdict, scrubbed. Nothing is claimed of a verdict that is stored without a tenant.
  pub get_verdict-isolated :
      (id : String) (headers : Headers) (w : Store S) (auth : AuthContext) (t u : String)
      (verdict : TriageVerdict) (r : Response)
      → env.verdict_auth_required ≡ true
      → (attached env headers w).0 ≡ ok (some auth)
      → auth.tenant_id ≡ some t
      → (Alerts.get_verdict env.stores id (attached env headers w).1).0 ≡ ok (some verdict)
      → verdict.tenant_id ≡ some u
      → (get_verdict env id headers w).0 ≡ ok r
      → (t ≡ u)
        × (validate_api_key env.api_key headers ≡ ok tt)
        × (r ≡ complete_reply env id verdict)
  unfolding get_verdict verified_tenant_id
  get_verdict-isolated id headers w auth t u verdict r required token of_t stored of_u replied =
      let v = (attached env headers w).1 in
      let after = sym (ap (λ a. (continue a (after_token id headers) v).0) token) ∙ replied in
      let both =
        passed env.verdict_auth_required (validate_api_key env.api_key headers)
          (Alerts.get_verdict env.stores id) v verdict (reply_to env id auth.tenant_id) r required
          stored after in
      let w2 = (Alerts.get_verdict env.stores id v).1 in
      let known = sym (ap (λ a. (reply_to env id a (some verdict) w2).0) of_t) ∙ both.1 in
      let same = reply_to-same id t u verdict r w2 required of_u known in (same.0, both.0, same.1)
