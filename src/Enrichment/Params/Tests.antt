-- ===== src/Enrichment/Params/Tests.antt =====
-- agents/enrichment_node.py: runs of the parameter builders.
use cyber_security_alert_tri.Common.{none, some, ◌≡◌, refl}
use cyber_security_alert_tri.Json.{obj, str, int, end, field}
use cyber_security_alert_tri.Router.{get_time_window}
use cyber_security_alert_tri.Enrichment.Params.{
  build_splunk_params, build_crowdstrike_params, build_threat_intel_params, threat_intel_loop,
  build_netflow_params, build_aws_params, build_cmdb_params, build_backup_params, vulncheck_loop,
  build_vulncheck_params, param_builder,
}
use cyber_security_alert_tri.Samples.{sample_alert, sample_entities}

splunk_by_user :
    build_splunk_params sample_alert sample_entities "T1110.001"
    ≡ some (
        obj (
          field "query_type" (str "auth_events_by_user") (
            field "username"
              (str "alice")
              (field "hours_back" (int (get_time_window "T1110.001").hours) end))))
unfolding build_splunk_params
splunk_by_user = refl

crowdstrike_by_host :
    build_crowdstrike_params sample_alert sample_entities "T1055"
    ≡ some (
        obj (
          field "query_type" (str "detections_by_host") (
            field "hostname"
              (str "web-1")
              (field "hours_back" (int (get_time_window "T1055").hours) end))))
unfolding build_crowdstrike_params
crowdstrike_by_host = refl

-- The first hash or address among the entities is looked up, whichever comes first.
threat_intel_first :
    build_threat_intel_params sample_alert sample_entities "T1110"
    ≡ some (obj (field "ioc_type" (str "ip") (field "ioc_value" (str "10.0.0.9") end)))
unfolding build_threat_intel_params threat_intel_loop
threat_intel_first = refl

netflow_beacon :
    build_netflow_params sample_alert sample_entities "T1573"
    ≡ some (
        obj (
          field "query_type" (str "beacon_detection") (
            field "src_ip"
              (str "10.0.0.1")
              (field "hours_back" (int (get_time_window "T1573").hours) end))))
unfolding build_netflow_params
netflow_beacon = refl

aws_by_user :
    build_aws_params sample_alert sample_entities "T1078"
    ≡ some (
        obj (
          field "query_type" (str "cloudtrail_by_user") (
            field "username"
              (str "alice")
              (field "hours_back" (int (get_time_window "T1078").hours) end))))
unfolding build_aws_params
aws_by_user = refl

cmdb_by_hostname :
    build_cmdb_params sample_alert sample_entities "T1078"
    ≡ some (obj (field "lookup_type" (str "by_hostname") (field "hostname" (str "web-1") end)))
unfolding build_cmdb_params
cmdb_by_hostname = refl

backup_of_host :
    build_backup_params sample_alert sample_entities "T1490"
    ≡ some
        (obj (field "query_type" (str "shadow_copy_status") (field "hostname" (str "web-1") end)))
unfolding build_backup_params
backup_of_host = refl

-- Without a CVE id in the indicators, the title or the description there is no lookup.
no_cve : build_vulncheck_params (λ text. none) sample_alert sample_entities "T1190" ≡ none
unfolding build_vulncheck_params vulncheck_loop
no_cve = refl

unknown_builder : param_builder (λ text. none) "isolate_host" ≡ none
unfolding param_builder
unknown_builder = refl
