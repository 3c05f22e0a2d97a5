-- ===== src/Connectors/Falcon.antt =====
-- agents/tools/crowdstrike_tool.py: queries of CrowdStrike Falcon, with a token that is kept between them.
pub mod Rows
pub mod Token
use Prim.Native.String.{◌++◌ as ◌+s◌}
use cyber_security_alert_tri.Common.{
  ℕ, ◌+◌, ◌-◌, ◌*◌, String, Bool, true, false, Option, none, some, ◌==◌, ltb, if◌then◌else◌,
}
use cyber_security_alert_tri.Json.{
  Json, Items, Fields, bool, int, negative, float, str, arr, obj, nil, cons, end, field, get_field,
}
use cyber_security_alert_tri.Effects.{
  Exec, Result, Exception, ok, raised, type_error, key_error, other, pure, ◌>>=◌, continue,
}
use cyber_security_alert_tri.Ingest.Parsers.{as_fields, get_or, get_value, truth}
use cyber_security_alert_tri.Connectors.{
  Response, Http, lift, slice, len_of, subscript, or_empty, answering,
}
use Rows.{rows_of, detection_row, alert_row, incident_row}

-- `CrowdStrikeInput`
pub record CrowdStrikeInput : Type 0 where
  pub query_type : String
  pub hostname : Option String
  pub device_id : Option String
  pub process_id : Option String
  pub ioc_value : Option String
  pub ioc_type : String
  pub hours_back : ℕ

-- What the tool reads of the settings.
pub record FalconSettings : Type 0 where
  pub base_url : String
  pub client_id : String
  pub client_secret : String

-- `_token_cache`, where `expires_at` is 0 before it is set, and what is outside the process.
pub record Falcon (S : Type 0) : Type 0 where
  pub token : Option Json
  pub expires_at : ℕ
  pub outside : S

-- A call of the client.
abbrev pub call {ℓ} : {S : Type 0} {A : Type ℓ} → Exec S A → Exec (Falcon S) A
call m w = ((m w.outside).0, record w { outside = (m w.outside).1 })

abbrev pub cached_token : Option Json → Result Json
cached_token none = raised key_error
cached_token (some t) = ok t

abbrev from_falcon : Fields → Fields
from_falcon more = field "source" (str "crowdstrike") more

-- `f"{key}:'{hostname}'" if hostname else ""`
abbrev host_filter : String → Option String → String
host_filter key name = if or_empty name == "" then "" else (key +s ":'" +s or_empty name +s "'")

-- `v[0]`, where a dictionary has no key 0.
abbrev first_of : Json → Result Json
first_of (arr (cons v xs)) = ok v
first_of (str (String.◌∷◌ c s)) = ok (str (String.◌∷◌ c String.[]))
first_of (obj fs) = raised key_error
first_of (arr nil) = raised (other "IndexError")
first_of (str String.[]) = raised (other "IndexError")
first_of v = raised type_error

-- `CrowdStrikeQueryBuilder.ioc_lookup`
unfoldable pub ioc_filter : String → String → String
ioc_filter value kind = "type:'" +s kind +s "'+value:'" +s value +s "'"

module _ {S : Type 0} (http : Http S) where
  -- `now + v` for a number of seconds; a time before 0 is 0.
  abbrev pub later : ℕ → Json → Result ℕ
  later now (int n) = ok (now + 1000 * n)
  later now (negative n) = ok (now - 1000 * n)
  later now (bool true) = ok (now + 1000)
  later now (bool false) = ok now
  later now (float s) = ok (now + http.float_millis s)
  later now v = raised type_error

  -- `_token_cache["token"] = t`, and the time at which it expires.
  abbrev pub store_token : Json → Exec (Falcon S) (Unit {0})
  store_token t w = (ok tt, record w { token = some t })

  abbrev pub store_expiry : ℕ → Exec (Falcon S) (Unit {0})
  store_expiry n w = (ok tt, record w { expires_at = n })

  -- The writes to `_token_cache`.
  abbrev pub keep_expiry : ℕ → Json → Fields → Exec (Falcon S) Json
  keep_expiry now t fields = do
    expiry ← lift (later now (get_or "expires_in" (int 1800) fields))
    _ ← store_expiry expiry
    pure t

  abbrev pub keep_token : ℕ → Json → Json → Exec (Falcon S) Json
  keep_token now reply t = do
    _ ← store_token t
    fields ← lift (as_fields reply)
    keep_expiry now t fields

  module _ (settings : FalconSettings) where
    abbrev pub token_request : Exec (Falcon S) Response
    token_request = call (
        http.request "POST" (settings.base_url +s "/oauth2/token") end (
          obj (
            field "client_id" (str settings.client_id)
              (field "client_secret" (str settings.client_secret) end))))

    -- The part of `_get_token` that asks for a token.
    abbrev pub fetch_token : ℕ → Exec (Falcon S) Json
    fetch_token now = do
      resp ← token_request
      _ ← lift resp.check
      reply ← lift resp.json
      t ← lift (subscript "access_token" reply)
      keep_token now reply t

    -- `_get_token`
    unfoldable pub get_token : Exec (Falcon S) Json
    get_token w =
        let now = (http.clock w.outside).0 in
        let w1 : Falcon S = record w { outside = (http.clock w.outside).1 } in
        if ltb (now + 30000) w.expires_at then (cached_token w.token, w1) else fetch_token now w1

  -- `resp.json().get("resources", [])` of a request whose status is checked.
  abbrev pub resources : String → String → Fields → Fields → Exec (Falcon S) Json
  resources verb url headers params = do
    resp ← call (http.request verb url headers (obj params))
    _ ← lift resp.check
    reply ← lift resp.json
    fields ← lift (as_fields reply)
    pure (get_or "resources" (arr nil) fields)

  -- Ids first, at most `limit` of them, and then their entities.
  abbrev two_steps :
      String
      → Fields
      → String
      → ℕ
      → String
      → String
      → (Fields → Result Fields)
      → Fields
      → Exec (Falcon S) Fields
  two_steps ids_url filter ids_key limit entities_url list_key row headers = do
    ids ← resources "GET" ids_url headers filter
    if truth ids
        then (do
          asked ← lift (slice limit ids)
          entities ← resources "POST" entities_url headers (field ids_key asked end)
          count ← lift (len_of entities)
          made ← lift (rows_of row entities)
          pure (from_falcon (field "count" (int count) (field list_key (arr made) end))))
        else pure (from_falcon (field list_key (arr nil) (field "count" (int 0) end)))

  -- `CrowdStrikeQueryBuilder.detections_by_host`
  unfoldable pub detections_filter : ℕ → String → ℕ → String
  detections_filter now name hours_back =
      "device.hostname:'"
      +s name
      +s "'+created_timestamp:>'"
      +s http.utc_text (now - 3600000 * hours_back)
      +s "'"

  -- `_detections_by_host`
  unfoldable pub detections_by_host : Fields → CrowdStrikeInput → Exec (Falcon S) Fields
  detections_by_host headers params w =
      let now = (http.clock w.outside).0 in
      two_steps "/detects/queries/detects/v1"
        (field "filter" (str (detections_filter now (or_empty params.hostname) params.hours_back))
          (field "limit" (int 50) end))
        "ids" 25 "/detects/entities/summaries/GET/v1" "detections" detection_row headers
        (record w { outside = (http.clock w.outside).1 })

  -- `_process_tree`
  unfoldable pub process_tree : Fields → CrowdStrikeInput → Exec (Falcon S) Fields
  process_tree headers params =
      if or_empty params.device_id == ""
      then pure (field "error" (str "device_id required for process_tree query") end)
      else (do
        processes ←
            resources "GET" "/processes/entities/processes/v1" headers
              (field "ids" (str (or_empty params.process_id)) end)
        pure (from_falcon (field "process_tree" processes end)))

  -- `_device_info`
  unfoldable pub device_info : Fields → CrowdStrikeInput → Exec (Falcon S) Fields
  device_info headers params = do
    ids ←
        resources "GET" "/devices/queries/devices/v1" headers (
          field "filter" (str (host_filter "hostname" params.hostname)) (field "limit" (int 1) end))
    if truth ids
        then (do
          id ← lift (first_of ids)
          resp ←
              call (
                http.request "GET" "/devices/entities/devices/v2" headers
                  (obj (field "ids" id end)))
          _ ← lift resp.check
          reply ← lift resp.json
          fields ← lift (as_fields reply)
          entity ← lift (first_of (get_or "resources" (arr (cons (obj end) nil)) fields))
          d ← lift (as_fields entity)
          pure (
              from_falcon (
                field "found" (bool true) (
                  field "device_id" (get_value "device_id" d) (
                    field "hostname" (get_value "hostname" d) (
                      field "os_version" (get_value "os_version" d) (
                        field "agent_version" (get_value "agent_version" d) (
                          field "last_seen" (get_value "last_seen" d) (
                            field "containment_status" (get_value "status" d) (
                              field "groups" (get_or "groups" (arr nil) d)
                                (field "tags" (get_or "tags" (arr nil) d) end)))))))))))
        else pure (from_falcon (field "found" (bool false) end))

  -- `_ioc_lookup`
  unfoldable pub ioc_lookup : Fields → CrowdStrikeInput → Exec (Falcon S) Fields
  ioc_lookup headers params = do
    found ←
        resources "GET" "/iocs/queries/indicators/v1" headers
          (field "filter" (str (ioc_filter (or_empty params.ioc_value) params.ioc_type)) end)
    pure (from_falcon (field "ioc_matches" found end))

  -- `_alerts_by_host`
  unfoldable pub alerts_by_host : Fields → CrowdStrikeInput → Exec (Falcon S) Fields
  alerts_by_host headers params =
      two_steps "/alerts/queries/alerts/v2"
        (field "filter" (str (host_filter "device.hostname" params.hostname))
          (field "limit" (int 50) end))
        "composite_ids" 25 "/alerts/entities/alerts/v2" "alerts" alert_row headers

  -- `_incidents_by_host`
  unfoldable pub incidents_by_host : Fields → CrowdStrikeInput → Exec (Falcon S) Fields
  incidents_by_host headers params =
      two_steps "/incidents/queries/incidents/v1"
        (field "filter" (str (host_filter "host_ids.hostname" params.hostname))
          (field "limit" (int 25) (field "sort" (str "start.desc") end)))
        "ids" 15 "/incidents/entities/incidents/GET/v1" "incidents" incident_row headers

  -- The chain of tests of `query_type`.
  abbrev dispatch : Fields → CrowdStrikeInput → Exec (Falcon S) Fields
  dispatch headers params =
      if params.query_type == "detections_by_host"
      then detections_by_host headers params
      else if params.query_type == "process_tree"
      then process_tree headers params
      else if params.query_type == "device_info"
      then device_info headers params
      else if params.query_type == "ioc_lookup"
      then ioc_lookup headers params
      else if params.query_type == "alerts_by_host"
      then alerts_by_host headers params
      else if params.query_type == "incidents_by_host"
      then incidents_by_host headers params
      else pure (field "results" (arr nil) end)

  abbrev pub falcon_failed : Exception → Fields
  falcon_failed e = field "source_available" (bool false) (
      field "error"
        (str (if http.is_timeout e then "CrowdStrike API timed out" else http.message e)) end)

  abbrev pub falcon_call : FalconSettings → CrowdStrikeInput → Exec (Falcon S) Fields
  falcon_call settings params = do
    _ ← call http.connect
    t ← get_token settings
    dispatch (field "Authorization" (str ("Bearer " +s http.show t)) end) params

  -- `start_ms`, which is not used.
  abbrev read_clock : Exec (Falcon S) ℕ
  read_clock w = (ok (http.clock w.outside).0, record w { outside = (http.clock w.outside).1 })

  -- `crowdstrike_query_async`
  unfoldable pub crowdstrike_query_async :
      FalconSettings → CrowdStrikeInput → Exec (Falcon S) Fields
  crowdstrike_query_async settings params =
      if settings.client_id == ""
      then pure (
          field "source_available" (bool false) (
            field "source" (str "crowdstrike") (
              field "error"
                (str
                  "CrowdStrike is not configured. Set CROWDSTRIKE_CLIENT_ID and CROWDSTRIKE_CLIENT_SECRET in .env (and CROWDSTRIKE_BASE_URL for your Falcon cloud).")
                (field "query_type" (str params.query_type) end))))
      else (read_clock >>= λ start. answering (falcon_call settings params) falcon_failed)
