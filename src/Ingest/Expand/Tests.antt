-- ===== src/Ingest/Expand/Tests.antt =====
-- components/alert_normalizer.py: payloads in envelopes, and the theorem about them.
use cyber_security_alert_tri.Common.{◌≡◌, refl, contains}
use cyber_security_alert_tri.Json.{Fields, str, int, obj, arr, nil, cons, end, field, get_field}
use cyber_security_alert_tri.Json.Membership.{any_occurs, has_key, key_of}
use cyber_security_alert_tri.Schema.{crowdstrike}
use cyber_security_alert_tri.Effects.{ok, raised, type_error}
use cyber_security_alert_tri.Ingest.Detect.{detect_source, is_detection_finding_payload}
use cyber_security_alert_tri.Ingest.Expand.{
  try_keys, unwrap_once, unwrap_rounds, expand_auto_ingest_payload,
}
use cyber_security_alert_tri.Ingest.Expand.Nested.{Reached, expand_auto_ingest_payload-Reached}

abbrev search : Fields
search = field "search_name" (str "Brute force") end

abbrev wrapped : Fields
wrapped = field "tag" (int 1) (field "data" (obj (field "alert" (obj search) end)) end)

-- The outer dictionary is kept: its one dictionary is in turn an envelope, which points to no source.
outer_kept : expand_auto_ingest_payload (λ t. t) wrapped ≡ ok wrapped
unfolding expand_auto_ingest_payload unwrap_rounds unwrap_once try_keys detect_source
    is_detection_finding_payload get_field has_key contains any_occurs
outer_kept = refl

unwrapped :
    expand_auto_ingest_payload
      (λ t. t)
      (field "records"
        (arr (cons (obj (field "body" (obj (field "data" (obj search) end)) end)) nil))
        end)
    ≡ ok search
unfolding expand_auto_ingest_payload unwrap_rounds unwrap_once try_keys detect_source
    is_detection_finding_payload get_field has_key contains any_occurs
unwrapped = refl

falcon :
    detect_source (field "event" (obj (field "DetectionId" (str "ldt:1") end)) end) ≡ ok crowdstrike
unfolding detect_source is_detection_finding_payload get_field has_key contains key_of
falcon = refl

-- A number is no container.
number_event : detect_source (field "event" (int 3) end) ≡ raised type_error
unfolding detect_source is_detection_finding_payload get_field
number_event = refl

expand_auto_ingest_payload-Reached_example : Reached (λ t. t) 6 wrapped wrapped
unfolding get_field
expand_auto_ingest_payload-Reached_example =
    expand_auto_ingest_payload-Reached (λ t. t) wrapped wrapped outer_kept
