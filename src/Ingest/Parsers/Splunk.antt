-- ===== src/Ingest/Parsers/Splunk.antt =====
-- components/alert_normalizer.py: `_parse_splunk`.
use cyber_security_alert_tri.Common.{[], ◌∷◌, ◌==◌, if◌then◌else◌}
use cyber_security_alert_tri.Json.{Json, Fields, null, str, obj, end, field}
use cyber_security_alert_tri.Json.Membership.{any_in, occurs}
use cyber_security_alert_tri.Schema.{
  NormalizedAlert, AlertSource, splunk, crowdstrike, aws_guardduty, sentinel, generic, source_value,
  medium, severity_value,
}
use cyber_security_alert_tri.Schema
use cyber_security_alert_tri.Effects.{Result, ok, raised, other}
use cyber_security_alert_tri.Ingest.Texts.{take_chars}
use cyber_security_alert_tri.Ingest.Finding.{attach_detection_finding}
use cyber_security_alert_tri.Ingest.Parsers.{
  Python, ◌>>=◌, as_fields, get_or, get_value, or_value, truth, mapped_severity, before, after_last,
  stable_alert_id, iso_or_now, int_or_none, lowered,
}

-- The user and the domain of `raw_user`: the parts after the last and before the first backslash.
abbrev split_user : Json → Result (Json × Json)
split_user (str s) =
    if occurs "\\" s
    then ok (str (after_last 92 s s), if before 92 s == "" then null else str (before 92 s))
    else ok (str s, null)
split_user v = do
  held ← any_in ("\\" ∷ []) v
  if held then raised (other "AttributeError") else ok (v, null)

abbrev user_of : Fields → Result Json
user_of result =
    let raw_user = or_value (get_value "user" result) (get_or "src_user" (str "") result) in
    if truth (or_value (get_value "user" result) (get_value "src_user" result))
    then (do
      parts ← split_user raw_user
      ok (obj (field "username" parts.0 (field "domain" parts.1 end))))
    else ok null

module _ (py : Python) where
  abbrev network_of : Fields → Json
  network_of result =
      if truth (or_value (get_value "src_ip" result) (get_value "dest_ip" result))
      then obj (
          field "src_ip" (or_value (get_value "src_ip" result) (get_value "src" result)) (
            field "dst_ip" (or_value (get_value "dest_ip" result) (get_value "dest" result)) (
              field "src_port" (int_or_none py (get_value "src_port" result)) (
                field "dst_port" (int_or_none py (get_value "dest_port" result)) (
                  field "protocol"
                    (or_value (get_value "transport" result) (get_value "protocol" result)) end)))))
      else null

  abbrev process_of : Fields → Json
  process_of result =
      let name = or_value (get_value "process_name" result) (get_value "process" result) in
      if truth name
      then obj (
          field "process_name" name (
            field "process_path" (get_value "process_path" result) (
              field "process_id"
                (int_or_none py (or_value (get_value "process_id" result) (get_value "pid" result)))
                (field "parent_process_name" (get_value "parent_process_name" result) (
                  field "command_line"
                    (or_value (get_value "cmdline" result) (get_value "command_line" result))
                    (field "hash_md5"
                      (or_value (get_value "md5" result) (get_value "file_hash" result))
                      (field "hash_sha256" (get_value "sha256" result) end)))))))
      else null

  abbrev hostname_of : Fields → Json
  hostname_of result =
      or_value (or_value (get_value "host" result) (get_value "dest_host" result))
        (get_value "ComputerName" result)

  -- The keyword arguments of the alert.
  unfoldable pub splunk_arguments : Fields → Fields → Schema.Severity → Json → Fields
  splunk_arguments payload result sev user =
      let source_id =
        py.to_text
          (get_or "_cd" (get_or "sid" (get_or "search_name" (str "") result) result) result) in
      let raw = get_or "_raw" (str (take_chars 500 (py.dumps (obj result)))) result in
      field "alert_id" (str (stable_alert_id py "splunk" source_id)) (
        field "source" (str (source_value splunk)) (
          field "source_alert_id" (str source_id) (
            field "title"
              (get_or "search_name" (get_or "source" (str "Splunk Alert") result) payload)
              (field "description" (get_or "message" raw result) (
                field "severity" (str (severity_value sev)) (
                  field "timestamp"
                    (iso_or_now py (get_or "_time" (get_value "timestamp" result) result))
                    (field "hostname" (hostname_of result) (
                      field "mitre_tactic" (get_value "mitre_tactic" result) (
                        field "mitre_technique"
                          (or_value (get_value "mitre_technique" result)
                            (get_value "technique_id" result))
                          (field "network" (network_of result) (
                            field "process" (process_of result)
                              (field "user" user (field "raw_payload" (obj payload) end)))))))))))))

  -- `_parse_splunk`
  unfoldable pub parse_splunk : Fields → Result NormalizedAlert
  parse_splunk payload = do
    result ← as_fields (get_or "result" (obj payload) payload)
    sev ←
        mapped_severity
          (lowered py (get_or "urgency" (get_or "severity" (str "medium") result) result))
    user ← user_of result
    alert ← py.construct (splunk_arguments payload result sev user)
    ok (attach_detection_finding alert)
