-- ===== src/Connectors/Flow/Failures.antt =====
-- agents/tools/netflow_tool.py and agents/tools/backup_tool.py with agents/enrichment_node.py: which of
-- their answers may be cached.
use cyber_security_alert_tri.Common.{
  String, Bool, true, false, ◌≡◌, refl, sym, arith, ◌⊎◌, inl, inr, leb, ◌==◌, if_both,
  if◌then◌else◌,
}
use cyber_security_alert_tri.Json.{Json, Fields, obj, get_field, get}
use cyber_security_alert_tri.Effects.{Result, ok, ◌>>=◌, pure}
use cyber_security_alert_tri.Enrichment.{ToolEnv, cacheable, source_available}
use cyber_security_alert_tri.Connectors.{
  Response, Http, Gives, answering-Gives, or_empty, lift, >>=-eq-ok,
}
use cyber_security_alert_tri.Connectors.Flow.{
  Endpoint, NetFlowInput, BackupQueryInput, unavailable, request_headers, http_failure,
  netflow_body, netflow_data, netflow_call, netflow_failed, netflow_query_async, backup_body,
  backup_data, backup_call, backup_failed, backup_query_async,
}

ok_injective : {x y : Fields} → ◌≡◌ {A = Result Fields} (ok x) (ok y) → x ≡ y
ok_injective h = grind arith

module _ {S W : Type 0} (http : Http S) (env : ToolEnv W) where
  -- An answer that is cached is made of the JSON value of a response with a status below 400.
  abbrev pub Delivered : String → Fields → Fields → (Json → Fields) → Fields → Type 0
  Delivered url headers body made answer =
      (cacheable env (obj answer) ≡ false)
      ⊎ ((resp : Response) × (v : Json) × ((s : S) × ((http.request "POST" url headers (obj body)
                s).0
              ≡ ok resp))
          × (leb 400 resp.status ≡ false)
          × (resp.json ≡ ok v)
          × (answer ≡ made v))

  unavailable-uncached :
      (source error : String) (more : Fields)
      → cacheable env (obj (unavailable source error more)) ≡ false
  unfolding cacheable source_available get get_field
  unavailable-uncached source error more = refl

  -- What is made of a response.
  answer-Delivered :
      (url : String) (headers body : Fields) (made : Json → Fields) (source label : String)
      (more : Fields) (resp : Response) (b : Bool) (s : S) (answer : Fields)
      → ((s : S) × ((http.request "POST" url headers (obj body) s).0 ≡ ok resp))
      → (leb 400 resp.status ≡ b)
      → ((if b
            then pure (unavailable source (http_failure http label resp) more)
            else (lift resp.json >>= λ v. pure (made v)))
          s).0
        ≡ ok answer
      → Delivered url headers body made answer
  answer-Delivered url headers body made source label more resp true s answer sent low h =
      inl (simp (sym (ok_injective h)) (unavailable-uncached source _ more))
  answer-Delivered url headers body made source label more resp false s answer sent low h =
      let (v, e, f) = >>=-eq-ok (lift resp.json) (λ v. pure (made v)) s answer h in
      inr (resp, v, sent, low, e, sym (ok_injective f))

  -- The calls, up to what is made of the response.
  call-Delivered :
      (url : String) (headers body : Fields) (made : Json → Fields) (source label : String)
      (more : Fields) (s : S) (answer : Fields)
      → ((http.connect >>= λ _. http.request "POST" url headers (obj body) >>= λ resp.
            if leb 400 resp.status
            then pure (unavailable source (http_failure http label resp) more)
            else (lift resp.json >>= λ v. pure (made v)))
          s).0
        ≡ ok answer
      → Delivered url headers body made answer
  call-Delivered url headers body made source label more s answer h =
      let (t, e, f) = >>=-eq-ok http.connect _ s answer h in
      let s1 = (http.connect s).1 in
      let (resp, sent, g) = >>=-eq-ok (http.request "POST" url headers (obj body)) _ s1 answer f in
      answer-Delivered url headers body made source label more resp (leb 400 resp.status)
        (http.request "POST" url headers (obj body) s1).1 answer (s1, sent) refl g

  -- netflow_query_async and backup_query_async never raise, whatever the interface does. An answer of theirs
  -- that the enrichment would cache is made of the JSON value of a response to their request, with a
  -- status below 400.
  pub flow_queries-Delivered :
      (settings : Endpoint) (flow : NetFlowInput) (backup : BackupQueryInput)
      → let url = http.strip (or_empty settings.api_url) in
        let headers = request_headers settings in
        Gives
          (Delivered url headers (netflow_body flow) (netflow_data flow.query_type))
          (netflow_query_async http settings flow)
        × Gives
            (Delivered url headers (backup_body backup) (backup_data backup.query_type))
            (backup_query_async http settings backup)
  unfolding netflow_query_async backup_query_async cacheable source_available get get_field
  flow_queries-Delivered settings flow backup =
      let url = http.strip (or_empty settings.api_url) in
      let headers = request_headers settings in
      let netflow_body = netflow_body flow in
      let backup_body = backup_body backup in
      (
        if_both (Gives (Delivered url headers netflow_body (netflow_data flow.query_type)))
            (url == "") _ _ (λ s. (_, refl, inl refl))
            (answering-Gives _ (netflow_call http settings url flow) (netflow_failed http)
              (λ s answer. call-Delivered url headers netflow_body _ "netflow_dns" _ _ s answer)
              (λ e. inl refl)),
        if_both (Gives (Delivered url headers backup_body (backup_data backup.query_type)))
            (url == "") _ _ (λ s. (_, refl, inl refl))
            (answering-Gives _ (backup_call http settings url backup) (backup_failed http)
              (λ s answer. call-Delivered url headers backup_body _ "backup_systems" _ _ s answer)
              (λ e. inl refl)),
      )
