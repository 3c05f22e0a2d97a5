-- ===== src/Ingest/Parsers/Guardduty.antt =====
-- components/alert_normalizer.py: `_parse_guardduty`.
use cyber_security_alert_tri.Common.{String, if◌then◌else◌}
use cyber_security_alert_tri.Json.{Json, Fields, null, float, str, obj, end, field}
use cyber_security_alert_tri.Schema.{
  NormalizedAlert, AlertSource, splunk, crowdstrike, aws_guardduty, sentinel, generic, source_value,
  medium, severity_value,
}
use cyber_security_alert_tri.Schema
use cyber_security_alert_tri.Effects.{Result, ok}
use cyber_security_alert_tri.Ingest.Severity.{guardduty_severity}
use cyber_security_alert_tri.Ingest.Finding.{attach_detection_finding}
use cyber_security_alert_tri.Ingest.Parsers.{
  Python, ◌>>=◌, as_fields, get_or, get_value, or_value, truth, stable_alert_id, iso_or_now,
  int_or_none,
}

-- `d.get(k, {})` of a dictionary, whose entry is read in turn.
abbrev inside : String → Fields → Result Fields
inside k fs = as_fields (get_or k (obj end) fs)

module _ (py : Python) where
  abbrev network_of : Fields → Fields → Result Json
  network_of remote_ip network_conn =
      if truth (get_value "ipAddressV4" remote_ip)
      then (do
        local_port ← inside "localPortDetails" network_conn
        ok (
            obj (
              field "src_ip" (get_value "ipAddressV4" remote_ip) (
                field "dst_port" (int_or_none py (get_value "port" local_port))
                  (field "protocol" (get_value "protocol" network_conn) end)))))
      else ok null

  -- The keyword arguments of the alert.
  unfoldable pub guardduty_arguments : Fields → Fields → Fields → Schema.Severity → Json → Fields
  guardduty_arguments payload detail instance_details sev network =
      let ts_raw =
        or_value (or_value (get_value "updatedAt" detail) (get_value "createdAt" detail))
          (get_or "time" (str "") payload) in
      field "alert_id"
        (str (stable_alert_id py "guardduty" (py.to_text (get_or "id" (str "") detail))))
        (field "source" (str (source_value aws_guardduty)) (
          field "source_alert_id" (get_value "id" detail) (
            field "title" (get_or "title" (str "GuardDuty Finding") detail) (
              field "description" (get_or "description" (str "") detail) (
                field "severity" (str (severity_value sev)) (
                  field "timestamp" (iso_or_now py ts_raw) (
                    field "hostname" (get_value "instanceId" instance_details) (
                      field "cloud_region"
                        (or_value (get_value "region" detail) (get_value "region" payload))
                        (field "cloud_account_id" (get_value "accountId" detail) (
                          field "mitre_tactic" null (
                            field "mitre_technique" (get_value "type" detail) (
                              field "network" network
                                (field "raw_payload" (obj payload) end)))))))))))))

  -- `_parse_guardduty`
  unfoldable pub parse_guardduty : Fields → Result NormalizedAlert
  parse_guardduty payload = do
    detail ← as_fields (get_or "detail" (obj payload) payload)
    at_least ← py.float_of (get_or "severity" (float "5.0") detail)
    service ← inside "service" detail
    resource ← inside "resource" detail
    instance_details ← inside "instanceDetails" resource
    action ← inside "action" service
    network_conn ← inside "networkConnectionAction" action
    remote_ip ← inside "remoteIpDetails" network_conn
    network ← network_of remote_ip network_conn
    alert ←
        py.construct (
          guardduty_arguments payload detail instance_details (guardduty_severity at_least) network)
    ok (attach_detection_finding alert)
