-- ===== src/Connectors/Tests.antt =====
-- agents/tools/: runs of the connectors, and the theorems about them.
use cyber_security_alert_tri.Common.{
  ℕ, String, true, false, none, some, List, [], ◌∷◌, ◌≡◌, refl, arith,
}
use cyber_security_alert_tri.Json.{Fields, int, str, bool, obj, end, field, get_field}
use cyber_security_alert_tri.Effects.{ok, other}
use cyber_security_alert_tri.Enrichment.{cacheable}
use cyber_security_alert_tri.Samples.{sample_tools}
use cyber_security_alert_tri.Ingest.Parsers
use cyber_security_alert_tri.Connectors.{Http, Gives}
use cyber_security_alert_tri.Connectors.Sample.{unreachable, replying_with}
use cyber_security_alert_tri.Connectors.Flow.{
  Endpoint, minus, NetFlowInput, BackupQueryInput, netflow_body, netflow_data, netflow_query_async,
  backup_body, backup_data, backup_query_async, request_headers,
}
use cyber_security_alert_tri.Connectors.Flow.Failures.{Delivered, flow_queries-Delivered}
use cyber_security_alert_tri.Connectors.Intel.{
  ThreatIntelInput, IntelKeys, threat_intel_lookup_async,
}
use cyber_security_alert_tri.Connectors.Intel.Merge.{
  merge_verdicts, signals, signal, graded, merged,
}
use cyber_security_alert_tri.Connectors.Intel.Merge.Signals.{Weighed, merge_verdicts-Weighed}
use cyber_security_alert_tri.Connectors.Intel.Outage.{Unreachable, threat_intel_lookup_async-outage}
use cyber_security_alert_tri.Connectors.Falcon.{Falcon, FalconSettings, get_token}
use cyber_security_alert_tri.Connectors.Falcon.Token.{get_token-reused}

unreachable-Unreachable : Unreachable unreachable
unreachable-Unreachable = record {
  connects = λ s. refl;
  fails = λ verb url headers body s. (other "ConnectTimeout", refl);
}

abbrev flow_settings : Endpoint
flow_settings = record { api_url = some "https://ndr.example"; api_token = none }

abbrev flow_input : NetFlowInput
flow_input = record {
  query_type = "top_talkers";
  src_ip = some "203.0.113.7";
  dst_ip = none;
  hostname = none;
  hours_back = 720;
  threshold_bytes = minus 1;
}

abbrev backup_input : BackupQueryInput
backup_input = record { query_type = "shadow_copy_status"; hostname = some "DC01"; hours_back = 72 }

flow_queries-Delivered_example :
    Gives
      (Delivered unreachable sample_tools "https://ndr.example"
        (request_headers flow_settings)
        (netflow_body flow_input)
        (netflow_data "top_talkers"))
      (netflow_query_async unreachable flow_settings flow_input)
    × Gives
        (Delivered unreachable sample_tools "https://ndr.example"
          (request_headers flow_settings)
          (backup_body backup_input)
          (backup_data "shadow_copy_status"))
        (backup_query_async unreachable flow_settings backup_input)
flow_queries-Delivered_example =
    flow_queries-Delivered unreachable sample_tools flow_settings flow_input backup_input

abbrev lookup_input : ThreatIntelInput
lookup_input = record {
  ioc_type = "ip";
  ioc_value = "203.0.113.7";
  sources = "virustotal" ∷ "abuseipdb" ∷ "otx" ∷ [];
}

abbrev lookup_keys : IntelKeys
lookup_keys = record { virustotal_api_key = "vt"; abuseipdb_api_key = "ab"; otx_api_key = "" }

threat_intel_lookup_async-outage_example :
    (answer : Fields) × ((threat_intel_lookup_async unreachable lookup_input lookup_keys 0).0
      ≡ ok answer)
    × (get_field "verdict" answer ≡ some (str "CLEAN"))
    × (cacheable sample_tools (obj answer) ≡ true)
threat_intel_lookup_async-outage_example =
    threat_intel_lookup_async-outage unreachable unreachable-Unreachable sample_tools lookup_input
      lookup_keys 0

-- Two sources that know the address, and one that does not.
abbrev intel_results : List Fields
intel_results =
    field "source" (str "virustotal") (
      field "found" (bool true)
        (field "malicious_votes" (int 12) (field "total_engines" (int 70) end)))
    ∷ field "source" (str "abuseipdb") (
        field "found" (bool true)
          (field "abuse_confidence_score" (int 95) (field "total_reports" (int 8) end)))
    ∷ field "source" (str "otx") (field "found" (bool false) (field "ioc" (str "203.0.113.7") end))
    ∷ []

abbrev intel_details : List String
intel_details =
    "VT: ?/? engines flagged" ∷ "AbuseIPDB: ?% confidence, ? reports" ∷ "otx: not found" ∷ []

intel_answer :
    merge_verdicts unreachable intel_results "203.0.113.7"
    ≡ ok (merged intel_results "203.0.113.7" (4, intel_details))
unfolding merge_verdicts signals signal graded get_field Parsers.◌>>=◌
intel_answer = refl

merge_verdicts-Weighed_example :
    Weighed intel_results (merged intel_results "203.0.113.7" (4, intel_details))
merge_verdicts-Weighed_example =
    merge_verdicts-Weighed unreachable intel_results "203.0.113.7"
      (merged intel_results "203.0.113.7" (4, intel_details)) intel_answer

abbrev falcon_http : Http ℕ
falcon_http =
    replying_with 201 (obj (field "access_token" (str "t0k3n") (field "expires_in" (int 1799) end)))

abbrev falcon_settings : FalconSettings
falcon_settings = record {
  base_url = "https://api.crowdstrike.com";
  client_id = "id";
  client_secret = "secret";
}

abbrev cold : Falcon ℕ
cold = record { token = none; expires_at = 0; outside = 5000 }

-- What the first call leaves, and a state ten minutes later.
first_token : get_token falcon_http falcon_settings cold ≡ (
  ok (str "t0k3n"),
  record { token = some (str "t0k3n"); expires_at = 1804000; outside = 6000 },
)
unfolding get_token get_field
first_token = refl

abbrev warm : Falcon ℕ
warm = record { token = some (str "t0k3n"); expires_at = 1804000; outside = 606000 }

get_token-reused_example : get_token falcon_http falcon_settings warm ≡ (ok (str "t0k3n"), warm)
unfolding get_token get_field
get_token-reused_example =
    get_token-reused falcon_http falcon_settings cold warm (str "t0k3n") refl refl refl
      (omega arith)
