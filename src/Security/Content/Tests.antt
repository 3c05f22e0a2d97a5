-- ===== src/Security/Content/Tests.antt =====
-- security/content_filter.py: tool parameters that are let through or refused.
use cyber_security_alert_tri.Common.{true, false, ◌≡◌, refl, contains}
use cyber_security_alert_tri.Json.{Json, Fields, null, int, str, nil, cons, end, field, get_field}
use cyber_security_alert_tri.Effects.{ok}
use cyber_security_alert_tri.Json.Membership.{any_occurs, element_of, key_of}
use cyber_security_alert_tri.Security.Content.{
  fine, ssrf_target, ssrf_targets, validate_tool_params,
}

abbrev netflow : Json → Fields
netflow dst = field "src_ip" (str "10.0.0.1") (field "dst_ip" dst (field "hours_back" (int 24) end))

-- The second address of a netflow query is not looked at.
second_address :
    validate_tool_params (λ s. false) "query_netflow" (netflow (str "127.0.0.1")) ≡ ok (true, fine)
unfolding validate_tool_params get_field any_occurs contains
second_address = refl

first_address :
    validate_tool_params
      (λ s. false)
      "lookup_threat_intel"
      (field "ioc_value" (str "127.0.0.1") end)
    ≡ ok (false, ssrf_target)
unfolding validate_tool_params get_field any_occurs contains
first_address = refl

listed_address : element_of ssrf_targets (cons (str "localhost") nil) ≡ true
unfolding element_of contains
listed_address = refl

keyed_address : key_of ssrf_targets (field "localhost" null end) ≡ true
unfolding key_of contains
keyed_address = refl
