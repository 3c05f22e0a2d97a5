-- ===== src/Ingest/Parsers/Generic.antt =====
-- components/alert_normalizer.py: `_parse_generic`.
use cyber_security_alert_tri.Json.{Fields, str, obj, end, field}
use cyber_security_alert_tri.Schema.{NormalizedAlert, generic, source_value, medium, severity_value}
use cyber_security_alert_tri.Effects.{Result, ok}
use cyber_security_alert_tri.Ingest.Texts.{take_chars}
use cyber_security_alert_tri.Ingest.Severity.{severity_of_text}
use cyber_security_alert_tri.Ingest.Finding.{attach_detection_finding}
use cyber_security_alert_tri.Ingest.Parsers.{Python, ◌>>=◌, get_or, get_value, iso_or_now}

module _ (py : Python) where
  -- The keyword arguments of the alert, which has no `alert_id` among them.
  unfoldable pub generic_arguments : Fields → Fields
  generic_arguments payload =
      let raw_sev =
        py.lower
          (py.to_text (get_or "severity" (get_or "urgency" (str "medium") payload) payload)) in
      let dumped = str (take_chars 500 (py.dumps (obj payload))) in
      field "source" (str (source_value generic)) (
        field "source_alert_id"
          (str (py.to_text (get_or "id" (get_or "alert_id" (str "") payload) payload)))
          (field "title" (get_or "title" (get_or "name" (str "Generic Alert") payload) payload) (
            field "description" (get_or "description" (get_or "message" dumped payload) payload) (
              field "severity" (str (severity_value (severity_of_text raw_sev medium))) (
                field "timestamp"
                  (iso_or_now py (
                    get_or "timestamp" (get_or "time" (get_value "created_at" payload) payload)
                      payload))
                  (field "hostname" (get_or "host" (get_value "hostname" payload) payload) (
                    field "mitre_tactic" (get_value "mitre_tactic" payload) (
                      field "mitre_technique" (get_value "mitre_technique" payload)
                        (field "raw_payload" (obj payload) end)))))))))

  -- `_parse_generic`
  unfoldable pub parse_generic : Fields → Result NormalizedAlert
  parse_generic payload = do
    alert ← py.construct (generic_arguments payload)
    ok (attach_detection_finding alert)
