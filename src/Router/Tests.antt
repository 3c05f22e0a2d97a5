-- ===== src/Router/Tests.antt =====
-- services/mitre_router.py: runs of the router, and its theorems at concrete techniques.
use cyber_security_alert_tri.Common.{
  ◌≤◌, String, true, List, [], ◌∷◌, ◌++◌, ◌≡◌, refl, contains, distinct, assoc,
}
use cyber_security_alert_tri.Router.{
  get_routing, get_tools_for_techniques, get_time_window, get_budget, before_dot, tools_loop,
  priority_loop, add_tools, add_priority, add_tool,
}
use cyber_security_alert_tri.Router.Table.{technique_to_tools}
use cyber_security_alert_tri.Router.Order.{
  first_occurrences, priority_tools, prescribed_tools,
  get_tools_for_techniques-eq-first_occurrences,
}
use cyber_security_alert_tri.Router.Bounds.{
  registered_tools, get_time_window_bounds, get_tools_for_techniques-exact, get_budget_bounds,
}

abbrev lsass_and_dns : List String
lsass_and_dns = "T1071.004" ∷ "T1003.001" ∷ []

-- The priority tool of the second technique comes first.
lsass_and_dns_tools :
    get_tools_for_techniques lsass_and_dns
    ≡ "query_crowdstrike" ∷ "query_netflow" ∷ "query_dns_logs" ∷ "lookup_threat_intel"
      ∷ "query_splunk" ∷ []
unfolding get_tools_for_techniques tools_loop priority_loop add_tools add_priority add_tool contains
    get_routing assoc technique_to_tools
lsass_and_dns_tools = refl

-- A sub-technique that the table lacks falls back to its parent, `T1486`.
parent_window : (get_time_window "T1486.999").label ≡ "72h"
unfolding get_time_window get_routing assoc technique_to_tools before_dot
parent_window = refl

first_occurrences_example :
    get_tools_for_techniques lsass_and_dns
    ≡ first_occurrences (priority_tools lsass_and_dns ++ prescribed_tools lsass_and_dns)
first_occurrences_example = get_tools_for_techniques-eq-first_occurrences lsass_and_dns

exact_example :
    (distinct (get_tools_for_techniques lsass_and_dns) ≡ true)
    × ((t : String)
        → contains t (get_tools_for_techniques lsass_and_dns)
          ≡ contains t (prescribed_tools lsass_and_dns))
    × ((t : String)
        → contains t (get_tools_for_techniques lsass_and_dns) ≡ true
        → contains t registered_tools ≡ true)
exact_example = get_tools_for_techniques-exact lsass_and_dns

window_bounds_example :
    (48 ≤ (get_time_window "T9999").hours) × ((get_time_window "T9999").hours ≤ 2160)
window_bounds_example = get_time_window_bounds "T9999"

budget_bounds_example : (3 ≤ get_budget (λ s. s) "HIGH") × (get_budget (λ s. s) "HIGH" ≤ 15)
budget_bounds_example = get_budget_bounds (λ s. s) "HIGH"
