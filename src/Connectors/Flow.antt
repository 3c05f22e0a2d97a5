-- ===== src/Connectors/Flow.antt =====
-- agents/tools/netflow_tool.py and agents/tools/backup_tool.py: one POST to an interface of the operator.
pub mod Failures
use Prim.Native.String.{◌++◌ as ◌+s◌}
use cyber_security_alert_tri.Common.{
  ℕ, String, Bool, true, false, Option, none, some, List, ◌==◌, leb, if◌then◌else◌, [], ◌∷◌,
}
use cyber_security_alert_tri.Json.{
  Json, Fields, bool, int, negative, str, opt_str, arr, obj, nil, end, field,
}
use cyber_security_alert_tri.Effects.{Exec, Result, Exception, ok, raised, pure, ◌>>=◌, continue}
use cyber_security_alert_tri.Ingest.Texts.{take_chars}
use cyber_security_alert_tri.Connectors.{
  Response, Http, lift, append_field, set_default, or_empty, answering,
}

-- A Python `int`, which is `-n` where it is negative.
pub data Integer : Type 0 where
  nonnegative : ℕ → Integer
  minus : ℕ → Integer

abbrev int_of : Integer → Json
int_of (nonnegative n) = int n
int_of (minus n) = negative n

-- `NetFlowInput`
pub record NetFlowInput : Type 0 where
  pub query_type : String
  pub src_ip : Option String
  pub dst_ip : Option String
  pub hostname : Option String
  pub hours_back : ℕ
  pub threshold_bytes : Integer

-- `BackupQueryInput`
pub record BackupQueryInput : Type 0 where
  pub query_type : String
  pub hostname : Option String
  pub hours_back : ℕ

-- The address and the token of an interface, from the settings.
pub record Endpoint : Type 0 where
  pub api_url : Option String
  pub api_token : Option String

abbrev with_token : Option String → Fields
with_token token =
    if or_empty token == ""
    then end
    else field "Authorization" (str ("Bearer " +s or_empty token)) end

abbrev pub request_headers : Endpoint → Fields
request_headers e = field "Content-Type" (str "application/json") (with_token e.api_token)

-- `{"source_available": False, "source": ..., "error": ...}`, with what a connector adds.
abbrev pub unavailable : String → String → Fields → Fields
unavailable source error more =
    field "source_available" (bool false)
      (field "source" (str source) (field "error" (str error) more))

abbrev raw_answer : String → String → Json → Fields
raw_answer source query_type answer =
    field "source_available" (bool true)
      (field "source" (str source) (field "query_type" (str query_type) (field "raw" answer end)))

abbrev pub netflow_data : String → Json → Fields
netflow_data query_type (obj answer) =
    set_default "query_type" (str query_type)
      (set_default "source" (str "netflow_dns") (set_default "source_available" (bool true) answer))
netflow_data query_type answer = raw_answer "netflow_dns" query_type answer

abbrev pub netflow_body : NetFlowInput → Fields
netflow_body params = field "query_type" (str params.query_type) (
    field "src_ip" (opt_str params.src_ip) (
      field "dst_ip" (opt_str params.dst_ip) (
        field "hostname" (opt_str params.hostname) (
          field "hours_back" (int params.hours_back)
            (field "threshold_bytes" (int_of params.threshold_bytes) end)))))

abbrev no_results : Fields
no_results = field "results" (arr nil) end

abbrev pub backup_data : String → Json → Fields
backup_data query_type (obj answer) =
    set_default "source" (str "backup_systems") (set_default "source_available" (bool true) answer)
backup_data query_type answer = raw_answer "backup_systems" query_type answer

abbrev pub backup_body : BackupQueryInput → Fields
backup_body params =
    field "query_type" (str params.query_type)
      (field "hostname" (opt_str params.hostname) (field "hours_back" (int params.hours_back) end))

module _ {S : Type 0} (http : Http S) where
  abbrev pub http_failure : String → Response → String
  http_failure label resp = label +s http.show (int resp.status) +s ": " +s take_chars 300 resp.text

  -- What is made of a response.
  abbrev pub netflow_answer : String → Response → Exec S Fields
  netflow_answer query_type resp =
      if leb 400 resp.status
      then pure (unavailable "netflow_dns" (http_failure "NDR HTTP " resp) end)
      else (lift resp.json >>= λ answer. pure (netflow_data query_type answer))

  abbrev pub netflow_call : Endpoint → String → NetFlowInput → Exec S Fields
  netflow_call settings url params = do
    _ ← http.connect
    resp ← http.request "POST" url (request_headers settings) (obj (netflow_body params))
    netflow_answer params.query_type resp

  -- The `except` clauses.
  abbrev pub netflow_failed : Exception → Fields
  netflow_failed e =
      unavailable "netflow_dns" (if http.is_timeout e then "NDR API timed out" else http.message e)
        end

  -- `netflow_query_async`
  unfoldable pub netflow_query_async : Endpoint → NetFlowInput → Exec S Fields
  netflow_query_async settings params =
      let url = http.strip (or_empty settings.api_url) in
      if url == ""
      then pure (
          field "source_available" (bool false) (
            field "source" (str "netflow_dns") (
              field "query_type" (str params.query_type) (
                field "error"
                  (str
                    "NetFlow/NDR API URL not configured. Set NDR_FLOW_API_URL (and optional NDR_FLOW_API_TOKEN) in .env.")
                  end))))
      else answering (netflow_call settings url params) netflow_failed

  abbrev pub backup_answer : String → Response → Exec S Fields
  backup_answer query_type resp =
      if leb 400 resp.status
      then pure (unavailable "backup_systems" (http_failure "Backup API HTTP " resp) no_results)
      else (lift resp.json >>= λ answer. pure (backup_data query_type answer))

  abbrev pub backup_call : Endpoint → String → BackupQueryInput → Exec S Fields
  backup_call settings url params = do
    _ ← http.connect
    resp ← http.request "POST" url (request_headers settings) (obj (backup_body params))
    backup_answer params.query_type resp

  abbrev pub backup_failed : Exception → Fields
  backup_failed e =
      unavailable "backup_systems"
        (if http.is_timeout e then "Backup API timed out" else http.message e) no_results

  -- `backup_query_async`
  unfoldable pub backup_query_async : Endpoint → BackupQueryInput → Exec S Fields
  backup_query_async settings params =
      let url = http.strip (or_empty settings.api_url) in
      if url == ""
      then pure (
          field "source_available" (bool false) (
            field "source" (str "backup_systems") (
              field "query_type" (str params.query_type) (
                field "hostname" (opt_str params.hostname) (
                  field "error"
                    (str
                      "Backup vendor API URL not configured. Set BACKUP_API_URL (and optional BACKUP_API_TOKEN) in .env.")
                    no_results)))))
      else answering (backup_call settings url params) backup_failed
