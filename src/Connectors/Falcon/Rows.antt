-- ===== src/Connectors/Falcon/Rows.antt =====
-- agents/tools/crowdstrike_tool.py: the rows that are made of the entities of a reply.
use cyber_security_alert_tri.Common.{◌==◌, if◌then◌else◌}
use cyber_security_alert_tri.Json.{Json, Items, Fields, int, str, arr, obj, nil, cons, end, field}
use cyber_security_alert_tri.Effects.{Result, ok, raised, type_error, other}
use cyber_security_alert_tri.Ingest.Parsers.{◌>>=◌, as_fields, get_or, get_value, or_value}
use cyber_security_alert_tri.Connectors.{slice, len_of}

-- `[row(d) for d in v]`, where every row asks its entity for keys.
unfoldable pub rows : (Fields → Result Fields) → Items → Result Items
rows row nil = ok nil
rows row (cons v xs) = do
  entity ← as_fields v
  first ← row entity
  rest ← rows row xs
  ok (cons (obj first) rest)

abbrev pub rows_of : (Fields → Result Fields) → Json → Result Items
rows_of row (arr xs) = rows row xs
rows_of row (str s) = if s == "" then ok nil else raised (other "AttributeError")
rows_of row (obj end) = ok nil
rows_of row (obj (field k v fs)) = raised (other "AttributeError")
rows_of row v = raised type_error

-- A row of `_detections_by_host`.
unfoldable pub detection_row : Fields → Result Fields
detection_row d = ok (
    field "id" (get_value "detection_id" d) (
      field "severity" (get_value "max_severity_displayname" d) (
        field "technique" (get_value "technique" d) (
          field "tactic" (get_value "tactic" d) (
            field "filename" (get_value "filename" d) (
              field "cmdline" (get_value "cmdline" d)
                (field "status" (get_value "status" d) end)))))))

-- `(d.get("description") or "")[:200]`
abbrev short_description : Fields → Result Json
short_description d = slice 200 (or_value (get_value "description" d) (str ""))

-- A row of `_alerts_by_host`.
unfoldable pub alert_row : Fields → Result Fields
alert_row a = do
  description ← short_description a
  ok (
      field "id" (or_value (get_value "composite_id" a) (get_value "id" a)) (
        field "name" (get_value "name" a) (
          field "severity" (or_value (get_value "severity_name" a) (get_value "severity" a)) (
            field "tactic" (get_value "tactic" a) (
              field "technique" (get_value "technique" a) (
                field "status" (get_value "status" a) (
                  field "product" (get_value "product" a) (
                    field "description" description
                      (field "created_timestamp" (get_value "created_timestamp" a) end)))))))))

-- A row of `_incidents_by_host`.
unfoldable pub incident_row : Fields → Result Fields
incident_row i = do
  description ← short_description i
  host_count ← len_of (get_or "hosts" (arr nil) i)
  ok (
      field "id" (get_value "incident_id" i) (
        field "name" (get_value "name" i) (
          field "description" description (
            field "status" (get_value "status" i) (
              field "severity" (get_value "fine_score" i) (
                field "tactics" (get_or "tactics" (arr nil) i) (
                  field "techniques" (get_or "techniques" (arr nil) i) (
                    field "tags" (get_or "tags" (arr nil) i) (
                      field "start" (get_value "start" i) (
                        field "end" (get_value "end" i)
                          (field "host_count" (int host_count) end)))))))))))
