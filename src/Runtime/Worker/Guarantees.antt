-- ===== src/Runtime/Worker/Guarantees.antt =====
-- services/_runtime/triage_worker.py: what holds of `_dispatch_one` for every message.
use cyber_security_alert_tri.Common.{
  String, Bool, true, ◌&&◌, Option, none, some, List, [], ◌∷◌, ◌++◌, ◌≡◌, refl, ◌∙◌, ap, arith,
  ◌==◌, eq_refl, if_both,
}
use cyber_security_alert_tri.Effects.{
  Result, ok, raised, jwt_error, poison_pill, tenant_context_error, key_error, value_error,
  type_error, http_error, other,
}
use cyber_security_alert_tri.Json.{Json}
use cyber_security_alert_tri.Schema.{NormalizedAlert}
use cyber_security_alert_tri.Runtime.Tenant.{AuthContext}
use cyber_security_alert_tri.Runtime.Worker.{
  WorkerEnv, Message, PhaseEvent, parse_alert, validated, with_tenant, decoded, or_poison,
  strip_body, publish_for, handle_message, settle, dispatch_token, dispatch_one, token_of,
}
use cyber_security_alert_tri.Runtime.Worker.Settlement.{
  Settlement, acked, nacked, terminated, Observe, Documented, handle_message-Preserves,
}

-- How a message ought to be settled: no token and a bad token are never redelivered, a message that
-- cannot be processed neither, any other failure is, and a success is acknowledged.
abbrev pub due_for {ℓ} : {A : Type ℓ} → Result A → Settlement
due_for (ok a) = acked
due_for (raised jwt_error) = terminated
due_for (raised poison_pill) = terminated
due_for (raised e) = nacked

module _ {S B : Type 0} (env : WorkerEnv S B) where
  abbrev pub due : Option String → B → S → Settlement
  due none body s = terminated
  due (some token) body s = due_for (handle_message env body token s).0

-- Every event of the list is for the tenant.
abbrev pub all_for : String → List PhaseEvent → Bool
all_for t [] = true
all_for t (e ∷ es) = e.tenant_id == t && all_for t es

all_for-append :
    (t : String) (es : List PhaseEvent) (e : PhaseEvent)
    → all_for t es ≡ true
    → e.tenant_id ≡ t
    → all_for t (es ++ e ∷ []) ≡ true
all_for-append t [] e h k = ground (arith, eq_refl t)
all_for-append t (x ∷ es) e h k = ground (arith, all_for-append t es e)

module _ {S B : Type 0} (env : WorkerEnv S B) (o : Observe S) (d : Documented env o) where
  publish-settlements :
      (t : Option String) (alert : NormalizedAlert) (phase : String) (s : S)
      → o.settlements (publish_for env t alert phase s) ≡ o.settlements s
  publish-settlements none alert phase s = refl
  publish-settlements (some t) alert phase s =
      let (seq, s1) = env.next_seq alert.alert_id s in
      let e : PhaseEvent = record {
        alert_id = alert.alert_id;
        tenant_id = t;
        event_seq = seq;
        phase = phase;
      } in
      if_both (λ (u : S). o.settlements u ≡ o.settlements s) (t == "") s (env.publish e s1) refl
        (d.publish_settlements e s1 ∙ (d.next_seq_only alert.alert_id s).0)

  handler-settlements :
      (body : B) (token : String) (s : S)
      → o.settlements (handle_message env body token s).1 ≡ o.settlements s
  handler-settlements body token s =
      (handle_message-Preserves env o d (λ (t : S). o.settlements t ≡ o.settlements s)
          (λ t u same _ h. same ∙ h) body token
          (λ auth alert phase _ t _ _ h. publish-settlements alert.tenant_id alert phase t ∙ h)).at
        s refl

  settle-due :
      {A : Type 0} (r : Result A) (s : S)
      → o.settlements (settle env r s) ≡ o.settlements s ++ due_for r ∷ []
  settle-due (ok a) s = d.ack_lem s
  settle-due (raised jwt_error) s = d.term_lem s
  settle-due (raised poison_pill) s = d.term_lem s
  settle-due (raised tenant_context_error) s = d.nak_lem s
  settle-due (raised key_error) s = d.nak_lem s
  settle-due (raised value_error) s = d.nak_lem s
  settle-due (raised type_error) s = d.nak_lem s
  settle-due (raised (http_error n)) s = d.nak_lem s
  settle-due (raised (other m)) s = d.nak_lem s

  dispatch_token-settlements :
      (token : Option String) (body : B) (s : S)
      → o.settlements (dispatch_token env token body s)
        ≡ o.settlements s ++ due env token body s ∷ []
  dispatch_token-settlements none body s = d.term_lem s
  dispatch_token-settlements (some token) body s =
      let (r, s1) = handle_message env body token s in
      settle-due r s1
      ∙ ap (λ (l : List Settlement). l ++ due_for r ∷ []) (handler-settlements body token s)

  -- `_dispatch_one` settles every message exactly once: it terminates it without a token and on a bad
  -- token or a poison pill, asks for redelivery on any other exception, acknowledges it otherwise.
  pub dispatch_one-settles :
      (msg : Message B) (s : S)
      → o.settlements (dispatch_one env msg s)
        ≡ o.settlements s ++ due env (token_of msg.service_token) msg.body s ∷ []
  unfolding dispatch_one
  dispatch_one-settles msg s =
      (d.release_lem (dispatch_token env (token_of msg.service_token) msg.body s)).0
      ∙ dispatch_token-settlements (token_of msg.service_token) msg.body s

  with_tenant-tenant :
      (t : Option String) (r : Result NormalizedAlert) (alert : NormalizedAlert)
      → with_tenant t r ≡ ok alert
      → alert.tenant_id ≡ t
  with_tenant-tenant t (ok a) alert h = ground arith
  with_tenant-tenant t (raised e) alert h = cc

  validated-tenant :
      (t : Option String) (r : Result Json) (alert : NormalizedAlert)
      → validated env.validate t r ≡ ok alert
      → alert.tenant_id ≡ t
  validated-tenant t (raised e) alert h = cc
  validated-tenant t (ok v) alert h =
      with_tenant-tenant t (or_poison (env.validate (strip_body v))) alert h

  -- An alert that parses carries the tenant of the verified token, whatever its body says.
  parse_alert-tenant :
      (body : B) (auth : AuthContext) (alert : NormalizedAlert)
      → parse_alert env body auth ≡ ok alert
      → alert.tenant_id ≡ auth.tenant_id
  unfolding parse_alert
  parse_alert-tenant body auth alert h =
      validated-tenant auth.tenant_id (decoded (env.loads body)) alert h

  publish-all_for :
      (tenant : String) (t : Option String) (alert : NormalizedAlert) (phase : String) (s : S)
      → t ≡ some tenant
      → all_for tenant (o.events s) ≡ true
      → all_for tenant (o.events (publish_for env t alert phase s)) ≡ true
  publish-all_for tenant none alert phase s h k = k
  publish-all_for tenant (some t) alert phase s h k =
      let (seq, s1) = env.next_seq alert.alert_id s in
      let e : PhaseEvent = record {
        alert_id = alert.alert_id;
        tenant_id = t;
        event_seq = seq;
        phase = phase;
      } in
      let same : t ≡ tenant = cc in
      if_both (λ (u : S). all_for tenant (o.events u) ≡ true) (t == "") s (env.publish e s1) k
        (ap (all_for tenant) (
            d.publish_event e s1
            ∙ ap (λ (l : List PhaseEvent). l ++ e ∷ []) (d.next_seq_only alert.alert_id s).1)
          ∙ all_for-append tenant (o.events s) e k same)

  -- Whatever the body of a message says, every event that its handler publishes, on success, on
  -- cancellation and on failure, goes to the tenant for which the service token verifies.
  pub handle_message-tenant :
      (body : B) (token tenant : String) (s : S)
      → ((auth : AuthContext) (t : S)
          → (env.verify token t).0 ≡ ok auth
          → auth.tenant_id ≡ some tenant)
      → all_for tenant (o.events s) ≡ true
      → all_for tenant (o.events (handle_message env body token s).1) ≡ true
  handle_message-tenant body token tenant s verified h =
      (handle_message-Preserves env o d (λ (t : S). all_for tenant (o.events t) ≡ true)
          (λ t u _ same k. ap (all_for tenant) same ∙ k) body token
          (λ auth alert phase t u v parsed k.
            publish-all_for tenant alert.tenant_id alert phase u
              (parse_alert-tenant body auth alert parsed ∙ verified auth t v) k)).at
        s h
