-- ===== src/Ingest/Detect.antt =====
-- components/alert_normalizer.py: which source the shape of a payload points to.
use cyber_security_alert_tri.Common.{
  String, Bool, true, false, ◌||◌, Option, none, some, [], ◌∷◌, ◌==◌, nat_eq, if◌then◌else◌,
}
use cyber_security_alert_tri.Json.{Json, Fields, int, float, obj, get_field, get}
use cyber_security_alert_tri.Json.Membership.{any_in, has_key}
use cyber_security_alert_tri.Schema.{
  AlertSource, splunk, crowdstrike, aws_guardduty, sentinel, generic,
}
use cyber_security_alert_tri.Effects.{Result, ok, raised}

-- `v == 2004`
abbrev is_2004 : Option Json → Bool
is_2004 (some (int n)) = nat_eq n 2004
is_2004 (some (float s)) = s == "2004.0"
is_2004 _ = false

abbrev class_of : Option Json → Option Json
class_of none = none
class_of (some v) = get "class_uid" v

-- `_is_detection_finding_payload`
unfoldable pub is_detection_finding_payload : Fields → Bool
is_detection_finding_payload payload =
    is_2004 (get_field "class_uid" payload) || is_2004 (class_of (get_field "metadata" payload))

-- `k in payload and t in payload[k]`
abbrev key_holds : String → String → Fields → Result Bool
key_holds k t payload = elim (get_field k payload) [ none ↦ ok false | some v ↦ any_in (t ∷ []) v ]

abbrev has_incident : Option Json → Bool
has_incident (some (obj fs)) = has_key "incidentNumber" fs
has_incident _ = false

-- The tests of `detect_source` after those that may raise.
abbrev plain_source : Fields → AlertSource
plain_source payload =
    if has_key "search_name" payload || has_key "result" payload
    then splunk
    else if has_incident (get_field "properties" payload)
    then sentinel
    else generic

abbrev source_if : Result Bool → AlertSource → Result AlertSource → Result AlertSource
source_if (raised e) source rest = raised e
source_if (ok true) source rest = ok source
source_if (ok false) source rest = rest

-- `detect_source`
unfoldable pub detect_source : Fields → Result AlertSource
unfolding is_detection_finding_payload
detect_source payload =
    if is_detection_finding_payload payload
    then ok generic
    else source_if (key_holds "event" "DetectionId" payload) crowdstrike (
        if has_key "DetectionId" payload
        then ok crowdstrike
        else source_if (key_holds "detail-type" "GuardDuty" payload) aws_guardduty
            (ok (plain_source payload)))
