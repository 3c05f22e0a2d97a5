-- ===== src/Connectors/Intel.antt =====
-- agents/tools/threat_intel_tool.py: the reputation of an indicator, from three sources.
pub mod Merge
pub mod Outage
use Prim.Native.String.{◌++◌ as ◌+s◌}
use cyber_security_alert_tri.Common.{
  ℕ, ◌+◌, ◌-◌, String, Bool, true, false, ◌&&◌, Option, none, some, List, [], ◌∷◌, ◌++◌, ◌==◌,
  nat_eq, leb, contains, if◌then◌else◌,
}
use cyber_security_alert_tri.Json.{
  Json, Items, Fields, null, bool, int, negative, float, str, arr, obj, nil, cons, end, field,
}
use cyber_security_alert_tri.Effects.{
  Exec, Result, Exception, ok, raised, type_error, other, pure, ◌>>=◌, continue,
}
use cyber_security_alert_tri.Ingest.Parsers.{as_fields, get_or, get_value}
use cyber_security_alert_tri.Connectors.{
  Response, Http, lift, elapsed, slice, take_items, answering, append_field,
}
use Merge.{merge_verdicts}

-- `ThreatIntelInput`
pub record ThreatIntelInput : Type 0 where
  pub ioc_type : String
  pub ioc_value : String
  pub sources : List String

-- The keys of the three sources, from the settings; an empty one is missing.
pub record IntelKeys : Type 0 where
  pub virustotal_api_key : String
  pub abuseipdb_api_key : String
  pub otx_api_key : String

-- `a + b` of two numbers, each the difference of two naturals; a truth value is 0 or 1.
abbrev signed_number : Json → ℕ × ℕ
signed_number (int n) = (n, 0)
signed_number (negative n) = (0, n)
signed_number (bool true) = (1, 0)
signed_number _ = (0, 0)

abbrev exact_sum : ℕ × ℕ → ℕ × ℕ → Json
exact_sum (a, b) (c, d) = elapsed (b + d) (a + c)

-- `total + v`; `float_add` adds where one of the two is a float.
abbrev plus : (Json → Json → Json) → Json → Json → Result Json
plus float_add total null = raised type_error
plus float_add total (str s) = raised type_error
plus float_add total (arr xs) = raised type_error
plus float_add total (obj fs) = raised type_error
plus float_add total (float s) = ok (float_add total (float s))
plus float_add (float s) v = ok (float_add (float s) v)
plus float_add total v = ok (exact_sum (signed_number total) (signed_number v))

-- `sum(d.values())`, from the total so far.
unfoldable pub sum_values : (Json → Json → Json) → Json → Fields → Result Json
sum_values float_add total end = ok total
sum_values float_add total (field k v fs) = elim (plus float_add total v) [
  | ok t ↦ sum_values float_add t fs
  | raised e ↦ raised e
]

-- `list(d.values())`
unfoldable pub values : Fields → Items
values end = nil
values (field k v fs) = cons v (values fs)

-- `p.get("name") for p in v`, where iterating a text gives texts, which have no `get`.
unfoldable pub names : Items → Result Items
names nil = ok nil
names (cons (obj fs) xs) = elim (names xs) [
  | ok ys ↦ ok (cons (get_value "name" fs) ys)
  | raised e ↦ raised e
]
names (cons v xs) = raised (other "AttributeError")

abbrev pulse_names : Json → Result Items
pulse_names (arr xs) = names xs
pulse_names (str s) = if s == "" then ok nil else raised (other "AttributeError")
pulse_names v = raised type_error

abbrev pub skipped : String → String → Fields
skipped source reason =
    field "source" (str source) (field "skipped" (bool true) (field "reason" (str reason) end))

abbrev pub not_found : String → String → Json → Fields
not_found source k v = field "source" (str source) (field "found" (bool false) (field k v end))

-- `type_map.get(ioc_type)`
abbrev pub otx_type : String → Option String
otx_type t =
    if t == "ip"
    then some "IPv4"
    else if t == "domain"
    then some "domain"
    else if contains t ("hash_sha256" ∷ "hash_md5" ∷ [])
    then some "file"
    else if t == "url"
    then some "URL"
    else none

module _ {S : Type 0} (http : Http S) where
  -- The `except` clauses of the three queries.
  abbrev pub query_failed : String → String → Exception → Fields
  query_failed source ioc e = field "source" (str source) (
      field "error" (str (if http.is_timeout e then "timeout" else http.message e))
        (field "ioc" (str ioc) end))

  abbrev pub vt_path : String → String → Option String
  vt_path ioc_type ioc =
      if ioc_type == "ip"
      then some ("/ip_addresses/" +s ioc)
      else if ioc_type == "domain"
      then some ("/domains/" +s ioc)
      else if contains ioc_type ("hash_sha256" ∷ "hash_md5" ∷ [])
      then some ("/files/" +s ioc)
      else if ioc_type == "url"
      then some ("/urls/" +s http.base64 ioc)
      else none

  abbrev pub vt_answer : String → Response → Exec S Fields
  vt_answer ioc resp = do
    _ ← lift resp.check
    top ← lift resp.json
    top_fields ← lift (as_fields top)
    entry ← lift (as_fields (get_or "data" (obj end) top_fields))
    attributes ← lift (as_fields (get_or "attributes" (obj end) entry))
    stats ← lift (as_fields (get_or "last_analysis_stats" (obj end) attributes))
    total ← lift (sum_values http.float_add (int 0) stats)
    tags ← lift (slice 5 (get_or "tags" (arr nil) attributes))
    categories ← lift (as_fields (get_or "categories" (obj end) attributes))
    pure (
        field "source" (str "virustotal") (
          field "found" (bool true) (
            field "ioc" (str ioc) (
              field "malicious_votes" (get_or "malicious" (int 0) stats) (
                field "suspicious_votes" (get_or "suspicious" (int 0) stats) (
                  field "harmless_votes" (get_or "harmless" (int 0) stats) (
                    field "total_engines" total (
                      field "reputation" (get_or "reputation" (int 0) attributes) (
                        field "tags" tags
                          (field "categories" (arr (take_items 3 (values categories))) end))))))))))

  abbrev pub vt_call : String → String → Option String → Exec S Fields
  vt_call ioc api_key none = pure (skipped "virustotal" "unsupported_type")
  vt_call ioc api_key (some path) = do
    resp ←
        http.request "GET" ("https://www.virustotal.com/api/v3" +s path)
          (field "x-apikey" (str api_key) end) (obj end)
    if nat_eq resp.status 404
        then pure (not_found "virustotal" "ioc" (str ioc))
        else vt_answer ioc resp

  -- `_query_virustotal`
  unfoldable pub query_virustotal : String → String → String → Exec S Fields
  query_virustotal ioc_type ioc api_key =
      if api_key == ""
      then pure (skipped "virustotal" "no_api_key")
      else answering (vt_call ioc api_key (vt_path ioc_type ioc)) (query_failed "virustotal" ioc)

  abbrev pub abuseipdb_answer : String → Response → Exec S Fields
  abuseipdb_answer ioc resp = do
    _ ← lift resp.check
    top ← lift resp.json
    top_fields ← lift (as_fields top)
    d ← lift (as_fields (get_or "data" (obj end) top_fields))
    pure (
        field "source" (str "abuseipdb") (
          field "found" (bool true) (
            field "ioc" (str ioc) (
              field "abuse_confidence_score" (get_or "abuseConfidenceScore" (int 0) d) (
                field "total_reports" (get_or "totalReports" (int 0) d) (
                  field "country_code" (get_value "countryCode" d) (
                    field "isp" (get_value "isp" d) (
                      field "usage_type" (get_value "usageType" d)
                        (field "is_tor" (get_or "isTor" (bool false) d) end)))))))))

  abbrev pub abuseipdb_call : String → String → Exec S Fields
  abuseipdb_call ioc api_key = do
    resp ←
        http.request "GET" "https://api.abuseipdb.com/api/v2/check"
          (field "Key" (str api_key) (field "Accept" (str "application/json") end))
          (obj (
            field "ipAddress" (str ioc)
              (field "maxAgeInDays" (int 90) (field "verbose" (bool false) end))))
    if nat_eq resp.status 422
        then pure (not_found "abuseipdb" "reason" (str "not_an_ip"))
        else abuseipdb_answer ioc resp

  -- `_query_abuseipdb`
  unfoldable pub query_abuseipdb : String → String → Exec S Fields
  query_abuseipdb ioc api_key =
      if api_key == ""
      then pure (skipped "abuseipdb" "no_api_key")
      else answering (abuseipdb_call ioc api_key) (query_failed "abuseipdb" ioc)

  abbrev pub otx_answer : String → String → Response → Exec S Fields
  otx_answer kind ioc resp = do
    _ ← lift resp.check
    top ← lift resp.json
    top_fields ← lift (as_fields top)
    info ← lift (as_fields (get_or "pulse_info" (obj end) top_fields))
    first_pulses ← lift (slice 3 (get_or "pulses" (arr nil) info))
    related ← lift (pulse_names first_pulses)
    pure (
        field "source" (str "otx") (
          field "found" (bool true) (
            field "ioc" (str ioc) (
              field "pulse_count" (get_or "count" (int 0) info)
                (field "related_pulses" (arr related) (field "indicator_type" (str kind) end))))))

  abbrev pub otx_call : String → String → String → Exec S Fields
  otx_call kind ioc api_key = do
    resp ←
        http.request "GET"
          ("https://otx.alienvault.com/api/v1/indicators/" +s kind +s "/" +s ioc +s "/general")
          (field "X-OTX-API-KEY" (str api_key) end) (obj end)
    if nat_eq resp.status 404
        then pure (not_found "otx" "ioc" (str ioc))
        else otx_answer kind ioc resp

  abbrev pub otx_query : Option String → String → String → Exec S Fields
  otx_query none ioc api_key = pure (skipped "otx" "unsupported_type")
  otx_query (some kind) ioc api_key = answering (otx_call kind ioc api_key) (query_failed "otx" ioc)

  -- `_query_otx`
  unfoldable pub query_otx : String → String → String → Exec S Fields
  query_otx ioc_type ioc api_key =
      if api_key == ""
      then pure (skipped "otx" "no_api_key")
      else otx_query (otx_type ioc_type) ioc api_key

  -- A task of the list, if its source is asked for.
  abbrev pub task : Bool → Exec S Fields → Exec S (List Fields)
  task false m = pure []
  task true m = m >>= λ r. pure (r ∷ [])

  abbrev pub vt_task : ThreatIntelInput → IntelKeys → Exec S (List Fields)
  vt_task params keys =
      task (contains "virustotal" params.sources)
        (query_virustotal params.ioc_type params.ioc_value keys.virustotal_api_key)

  abbrev pub abuseipdb_task : ThreatIntelInput → IntelKeys → Exec S (List Fields)
  abuseipdb_task params keys =
      task (contains "abuseipdb" params.sources && (params.ioc_type == "ip"))
        (query_abuseipdb params.ioc_value keys.abuseipdb_api_key)

  abbrev pub otx_task : ThreatIntelInput → IntelKeys → Exec S (List Fields)
  otx_task params keys =
      task (contains "otx" params.sources)
        (query_otx params.ioc_type params.ioc_value keys.otx_api_key)

  -- `await asyncio.gather(*tasks)`
  unfoldable pub source_results : ThreatIntelInput → IntelKeys → Exec S (List Fields)
  source_results params keys = do
    vt ← vt_task params keys
    abuse ← abuseipdb_task params keys
    otx ← otx_task params keys
    pure (vt ++ abuse ++ otx)

  -- `threat_intel_lookup_async`; the clock is read before the client is made and after the queries.
  unfoldable pub threat_intel_lookup_async : ThreatIntelInput → IntelKeys → Exec S Fields
  threat_intel_lookup_async params keys = do
    start ← λ s. (ok (http.clock s).0, (http.clock s).1)
    _ ← http.connect
    results ← source_results params keys
    stop ← λ s. (ok (http.clock s).0, (http.clock s).1)
    merged ← lift (merge_verdicts http results params.ioc_value)
    pure (append_field "elapsed_ms" (elapsed start stop) merged)
