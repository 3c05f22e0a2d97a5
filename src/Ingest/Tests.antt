-- ===== src/Ingest/Tests.antt =====
-- components/: payloads of the sources, and the theorems about their alerts.
use cyber_security_alert_tri.Common.{ℕ, String, true, Option, none, some, ◌≡◌, refl}
use cyber_security_alert_tri.Json.{Fields, str, obj, end, field, get_field}
use cyber_security_alert_tri.Json.Membership.{has_key, any_occurs}
use cyber_security_alert_tri.Schema.{NormalizedAlert, splunk, generic, sentinel, critical}
use cyber_security_alert_tri.Effects.{Result, ok, raised, other}
use cyber_security_alert_tri.Ingest.Severity.{severity_of_text, guardduty_severity}
use cyber_security_alert_tri.Ingest.Finding.{attach_detection_finding}
use cyber_security_alert_tri.Ingest.Detect.{is_detection_finding_payload, detect_source}
use cyber_security_alert_tri.Ingest.Expand.{
  expand_auto_ingest_payload, unwrap_rounds, unwrap_once, try_keys,
}
use cyber_security_alert_tri.Ingest.Texts.{take_chars}
use cyber_security_alert_tri.Ingest.Parsers.{◌>>=◌, stable_alert_id, before, after, after_last}
use cyber_security_alert_tri.Ingest.Parsers.Splunk.{splunk_arguments, parse_splunk}
use cyber_security_alert_tri.Ingest.Parsers.Generic.{generic_arguments, parse_generic}
use cyber_security_alert_tri.Ingest.Parsers.Normalize.{normalize_alert}
use cyber_security_alert_tri.Ingest.Parsers.Kept.{normalize_alert-Kept, Kept}
use cyber_security_alert_tri.Ingest.Auto.{Models, llm_coerce_to_flat, resolve_alert_for_auto_ingest}
use cyber_security_alert_tri.Ingest.Auto.Resolved.{Resolved, resolve_alert_for_auto_ingest-Resolved}
use cyber_security_alert_tri.Ingest.Sample.{built, python, python-Constructs}

abbrev event : Fields
event = field "search_name" (str "Brute force") (field "user" (str "CORP\\alice") end)

after_backslash : after_last 92 "CORP\\alice" "CORP\\alice" ≡ "alice"
unfolding after_last
after_backslash = refl

domain : before 64 (after 64 "alice@corp.com") ≡ "corp.com"
unfolding before after
domain = refl

score : guardduty_severity (λ n. true) ≡ critical
unfolding guardduty_severity
score = refl

abbrev id_of : Result NormalizedAlert → Option String
id_of (raised e) = none
id_of (ok a) = some a.alert_id

-- The first sixteen characters of the digest, which is the text itself here.
splunk_id : id_of (normalize_alert python splunk event) ≡ some "splunk:Brute for"
unfolding normalize_alert is_detection_finding_payload get_field parse_splunk splunk_arguments ◌>>=◌
    stable_alert_id take_chars built attach_detection_finding severity_of_text any_occurs
splunk_id = refl

-- A result that is no dictionary.
text_result : parse_splunk python (field "result" (str "x") end) ≡ raised (other "AttributeError")
unfolding parse_splunk get_field ◌>>=◌
text_result = refl

-- Sentinel alerts are parsed as generic ones.
from_sentinel : normalize_alert python sentinel event ≡ normalize_alert python generic event
unfolding normalize_alert
from_sentinel = refl

from_generic :
    normalize_alert python generic event
    ≡ ok (attach_detection_finding (built (generic_arguments python event)))
unfolding normalize_alert is_detection_finding_payload get_field parse_generic ◌>>=◌
from_generic = refl

normalize_alert-Kept_example :
    Kept python python-Constructs event
      (attach_detection_finding (built (generic_arguments python event)))
normalize_alert-Kept_example =
    normalize_alert-Kept python python-Constructs event generic
      (attach_detection_finding (built (generic_arguments python event))) from_generic

abbrev models : Models ℕ
models = record { ollama = none; openai = none }

abbrev note : Fields
note = field "title" (str "Odd login") end

resolved :
    (resolve_alert_for_auto_ingest python models true note 0).0
    ≡ ok (record (attach_detection_finding (built (generic_arguments python note))) {
      raw_payload = obj note;
    })
unfolding resolve_alert_for_auto_ingest normalize_alert is_detection_finding_payload get_field
    parse_generic ◌>>=◌ expand_auto_ingest_payload unwrap_rounds unwrap_once try_keys detect_source
    has_key llm_coerce_to_flat
resolved = refl

resolve_alert_for_auto_ingest-Resolved_example :
    Resolved python models note true 0
      (record (attach_detection_finding (built (generic_arguments python note))) {
        raw_payload = obj note;
      })
resolve_alert_for_auto_ingest-Resolved_example =
    resolve_alert_for_auto_ingest-Resolved python models note true 0
      (record (attach_detection_finding (built (generic_arguments python note))) {
        raw_payload = obj note;
      })
      resolved
