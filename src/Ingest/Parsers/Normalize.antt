-- ===== src/Ingest/Parsers/Normalize.antt =====
-- components/alert_normalizer.py: `normalize_alert`.
use cyber_security_alert_tri.Common.{if◌then◌else◌}
use cyber_security_alert_tri.Json.{Fields}
use cyber_security_alert_tri.Schema.{
  NormalizedAlert, AlertSource, splunk, crowdstrike, aws_guardduty, sentinel, generic,
}
use cyber_security_alert_tri.Effects.{Result}
use cyber_security_alert_tri.Ingest.Detect.{is_detection_finding_payload}
use cyber_security_alert_tri.Ingest.Parsers.{Python}
use cyber_security_alert_tri.Ingest.Parsers.Ocsf.{parse_ocsf_detection_finding_payload}
use cyber_security_alert_tri.Ingest.Parsers.Splunk.{parse_splunk}
use cyber_security_alert_tri.Ingest.Parsers.Crowdstrike.{parse_crowdstrike}
use cyber_security_alert_tri.Ingest.Parsers.Guardduty.{parse_guardduty}
use cyber_security_alert_tri.Ingest.Parsers.Generic.{parse_generic}

-- `_PARSERS.get(source, _parse_generic)`: Sentinel has no parser of its own.
abbrev pub parser_of : Python → AlertSource → Fields → Result NormalizedAlert
parser_of py splunk = parse_splunk py
parser_of py crowdstrike = parse_crowdstrike py
parser_of py aws_guardduty = parse_guardduty py
parser_of py sentinel = parse_generic py
parser_of py generic = parse_generic py

-- `normalize_alert`
unfoldable pub normalize_alert : Python → AlertSource → Fields → Result NormalizedAlert
normalize_alert py source payload =
    if is_detection_finding_payload payload
    then parse_ocsf_detection_finding_payload py payload
    else parser_of py source payload
