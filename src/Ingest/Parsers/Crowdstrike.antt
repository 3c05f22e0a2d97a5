-- ===== src/Ingest/Parsers/Crowdstrike.antt =====
-- components/alert_normalizer.py: `_parse_crowdstrike`.
use cyber_security_alert_tri.Common.{Option, none, some, [], ◌∷◌, if◌then◌else◌}
use cyber_security_alert_tri.Json.{Json, Fields, null, int, str, obj, end, field}
use cyber_security_alert_tri.Json.Membership.{any_in, occurs}
use cyber_security_alert_tri.Schema.{
  NormalizedAlert, AlertSource, splunk, crowdstrike, aws_guardduty, sentinel, generic, source_value,
  medium, severity_value,
}
use cyber_security_alert_tri.Schema
use cyber_security_alert_tri.Effects.{Result, ok, raised, type_error, other}
use cyber_security_alert_tri.Ingest.Severity.{severity_of_text}
use cyber_security_alert_tri.Ingest.Finding.{attach_detection_finding}
use cyber_security_alert_tri.Ingest.Parsers.{
  Python, ◌>>=◌, as_fields, get_or, get_value, or_value, truth, mapped_severity, before, after,
  stable_alert_id, epoch_or_now, int_or_none,
}

-- `s.split("@")[1] if "@" in s else None`
abbrev domain_of : Json → Result Json
domain_of (str s) = if occurs "@" s then ok (str (before 64 (after 64 s))) else ok null
domain_of v = do
  held ← any_in ("@" ∷ []) v
  if held then raised (other "AttributeError") else ok null

abbrev user_of : Fields → Result Json
user_of event =
    if truth (get_value "UserName" event)
    then (do
      domain ← domain_of (get_or "UserPrincipalName" (str "") event)
      ok (obj (field "username" (get_value "UserName" event) (field "domain" domain end))))
    else ok null

module _ (py : Python) where
  abbrev int_severity : Option Json → Result Schema.Severity
  int_severity none = raised type_error
  int_severity (some v) = mapped_severity v

  -- A text is looked up in `_CS_SEV_MAP`, whose texts are those of `_SPLUNK_SEV_MAP`.
  abbrev severity_of : Json → Result Schema.Severity
  severity_of (str s) = ok (severity_of_text (py.lower s) medium)
  severity_of v = int_severity (py.int_of v)

  abbrev process_of : Fields → Json
  process_of event = obj (
      field "process_name" (get_value "FileName" event) (
        field "process_path" (get_value "FilePath" event) (
          field "process_id" (int_or_none py (get_value "TargetProcessId" event)) (
            field "parent_process_name" (get_value "ParentImageFileName" event) (
              field "command_line" (get_value "CommandLine" event) (
                field "hash_sha256" (get_value "SHA256HashData" event)
                  (field "hash_md5" (get_value "MD5HashData" event) end)))))))

  abbrev network_of : Fields → Json
  network_of event =
      if truth (get_value "RemoteAddress" event)
      then obj (
          field "dst_ip" (get_value "RemoteAddress" event)
            (field "dst_port" (int_or_none py (get_value "RemotePort" event)) end))
      else null

  -- The keyword arguments of the alert.
  unfoldable pub crowdstrike_arguments : Fields → Fields → Fields → Schema.Severity → Json → Fields
  crowdstrike_arguments payload event metadata sev user =
      let detection_id =
        py.to_text (get_or "DetectionId" (get_or "offset" (str "") metadata) event) in
      let ts_epoch =
        or_value (get_value "ProcessStartTime" event)
          (get_or "eventCreationTime" (int 0) metadata) in
      field "alert_id" (str (stable_alert_id py "crowdstrike" detection_id)) (
        field "source" (str (source_value crowdstrike)) (
          field "source_alert_id" (str detection_id) (
            field "title"
              (or_value (get_value "DetectDescription" event)
                (get_or "Technique" (str "CrowdStrike Detection") event))
              (field "description"
                (get_or "DetectDescription" (str "CrowdStrike Falcon detection") event)
                (field "severity" (str (severity_value sev)) (
                  field "timestamp" (epoch_or_now py ts_epoch) (
                    field "hostname"
                      (or_value (get_value "ComputerName" event) (get_value "Hostname" event))
                      (field "mitre_tactic" (get_value "Tactic" event) (
                        field "mitre_technique" (get_value "Technique" event) (
                          field "process" (process_of event) (
                            field "user" user (
                              field "network" (network_of event)
                                (field "raw_payload" (obj payload) end)))))))))))))

  -- `_parse_crowdstrike`
  unfoldable pub parse_crowdstrike : Fields → Result NormalizedAlert
  parse_crowdstrike payload = do
    event ← as_fields (get_or "event" (obj payload) payload)
    sev ← severity_of (get_or "SeverityName" (get_or "Severity" (str "medium") event) event)
    metadata ← as_fields (get_or "metadata" (obj end) payload)
    user ← user_of event
    alert ← py.construct (crowdstrike_arguments payload event metadata sev user)
    ok (attach_detection_finding alert)
