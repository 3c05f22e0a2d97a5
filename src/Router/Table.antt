-- ===== src/Router/Table.antt =====
-- services/mitre_router.py: the time windows and the routing table of MITRE techniques.
use cyber_security_alert_tri.Common.{
  ℕ, String, Bool, true, false, Option, none, some, List, [], ◌∷◌,
}

-- `TimeWindow`
pub record TimeWindow : Type 0 where
  pub hours : ℕ
  pub label : String

abbrev window : ℕ → String → TimeWindow
window h l = record { hours = h; label = l }

abbrev pub process_execution_window : TimeWindow
process_execution_window = window 72 "72h"

abbrev pub auth_login_window : TimeWindow
auth_login_window = window 336 "14d"

abbrev pub lateral_movement_window : TimeWindow
lateral_movement_window = window 48 "48h"

abbrev pub c2_beaconing_window : TimeWindow
c2_beaconing_window = window 720 "30d"

abbrev pub persistence_window : TimeWindow
persistence_window = window 2160 "90d"

-- `RoutingEntry`; `tools` holds the registry's names in order.
pub record RoutingEntry : Type 0 where
  pub tools : List String
  pub time_window : TimeWindow
  pub parallel_burst : Bool
  pub priority_tool : Option String

abbrev entry : List String → TimeWindow → Bool → Option String → RoutingEntry
entry ts w p o = record { tools = ts; time_window = w; parallel_burst = p; priority_tool = o }

-- `TECHNIQUE_TO_TOOLS`
unfoldable pub technique_to_tools : List (String × RoutingEntry)
technique_to_tools =
    (
      "T1003.001",
      entry ("query_crowdstrike" ∷ "query_splunk" ∷ "lookup_threat_intel" ∷ [])
          process_execution_window true (some "query_crowdstrike"),
    )
    ∷ (
      "T1003.002",
      entry ("query_crowdstrike" ∷ "query_splunk" ∷ []) process_execution_window true none,
    )
    ∷ (
      "T1003.003",
      entry ("query_crowdstrike" ∷ "query_splunk" ∷ "query_cmdb" ∷ []) process_execution_window true
          none,
    )
    ∷ ("T1110.001", entry ("query_splunk" ∷ "query_cmdb" ∷ []) auth_login_window true none)
    ∷ (
      "T1110.003",
      entry ("query_splunk" ∷ "query_cmdb" ∷ "lookup_threat_intel" ∷ []) auth_login_window true
          none,
    )
    ∷ (
      "T1555",
      entry ("query_crowdstrike" ∷ "query_splunk" ∷ []) process_execution_window true none,
    )
    ∷ (
      "T1071.004",
      entry ("query_netflow" ∷ "query_dns_logs" ∷ "lookup_threat_intel" ∷ []) c2_beaconing_window
          true none,
    )
    ∷ (
      "T1071.001",
      entry ("query_netflow" ∷ "lookup_threat_intel" ∷ "query_splunk" ∷ []) c2_beaconing_window true
          none,
    )
    ∷ ("T1573", entry ("query_netflow" ∷ "lookup_threat_intel" ∷ []) c2_beaconing_window true none)
    ∷ ("T1095", entry ("query_netflow" ∷ "lookup_threat_intel" ∷ []) c2_beaconing_window true none)
    ∷ (
      "T1021.001",
      entry ("query_netflow" ∷ "query_splunk" ∷ "query_cmdb" ∷ []) lateral_movement_window true
          none,
    )
    ∷ (
      "T1021.002",
      entry ("query_netflow" ∷ "query_splunk" ∷ "query_crowdstrike" ∷ []) lateral_movement_window
          true none,
    )
    ∷ (
      "T1021.006",
      entry ("query_splunk" ∷ "query_crowdstrike" ∷ []) lateral_movement_window true none,
    )
    ∷ ("T1053.005", entry ("query_crowdstrike" ∷ "query_splunk" ∷ []) persistence_window true none)
    ∷ ("T1547.001", entry ("query_crowdstrike" ∷ "query_splunk" ∷ []) persistence_window true none)
    ∷ ("T1543.003", entry ("query_crowdstrike" ∷ "query_splunk" ∷ []) persistence_window true none)
    ∷ (
      "T1486",
      entry ("query_crowdstrike" ∷ "query_splunk" ∷ "query_backup_systems" ∷ [])
          process_execution_window false (some "query_crowdstrike"),
    )
    ∷ (
      "T1490",
      entry ("query_crowdstrike" ∷ "query_splunk" ∷ "query_backup_systems" ∷ [])
          process_execution_window true (some "query_crowdstrike"),
    )
    ∷ (
      "T1489",
      entry ("query_crowdstrike" ∷ "query_splunk" ∷ []) process_execution_window true none,
    )
    ∷ (
      "T1078.004",
      entry ("query_aws" ∷ "query_splunk" ∷ "lookup_threat_intel" ∷ []) auth_login_window true none,
    )
    ∷ (
      "T1098",
      entry ("query_splunk" ∷ "query_aws" ∷ "query_cmdb" ∷ []) auth_login_window true none,
    )
    ∷ (
      "T1134",
      entry ("query_crowdstrike" ∷ "query_splunk" ∷ []) process_execution_window true none,
    )
    ∷ (
      "T1048",
      entry ("query_netflow" ∷ "lookup_threat_intel" ∷ "query_splunk" ∷ []) c2_beaconing_window true
          none,
    )
    ∷ ("T1041", entry ("query_netflow" ∷ "lookup_threat_intel" ∷ []) c2_beaconing_window true none)
    ∷ (
      "T1190",
      entry ("query_splunk" ∷ "lookup_vulncheck" ∷ "lookup_threat_intel" ∷ "query_cmdb" ∷ [])
          process_execution_window true none,
    )
    ∷ (
      "T1203",
      entry ("query_crowdstrike" ∷ "query_splunk" ∷ "lookup_vulncheck" ∷ [])
          process_execution_window true (some "query_crowdstrike"),
    )
    ∷ (
      "T1210",
      entry ("query_crowdstrike" ∷ "query_splunk" ∷ "lookup_vulncheck" ∷ "query_netflow" ∷ [])
          lateral_movement_window true (some "query_crowdstrike"),
    )
    ∷ (
      "T1211",
      entry ("query_crowdstrike" ∷ "query_splunk" ∷ "lookup_vulncheck" ∷ [])
          process_execution_window true none,
    )
    ∷ (
      "T1082",
      entry ("query_crowdstrike" ∷ "query_splunk" ∷ []) process_execution_window true none,
    )
    ∷ (
      "T1083",
      entry ("query_crowdstrike" ∷ "query_splunk" ∷ []) process_execution_window true none,
    )
    ∷ ("T1046", entry ("query_netflow" ∷ "query_splunk" ∷ []) lateral_movement_window true none)
    ∷ (
      "T1055",
      entry ("query_crowdstrike" ∷ "query_splunk" ∷ []) process_execution_window true none,
    )
    ∷ (
      "T1562.001",
      entry ("query_crowdstrike" ∷ "query_splunk" ∷ []) process_execution_window true none,
    )
    ∷ (
      "T1070.004",
      entry ("query_crowdstrike" ∷ "query_splunk" ∷ []) process_execution_window true none,
    )
    ∷ (
      "T1059.001",
      entry ("query_crowdstrike" ∷ "query_splunk" ∷ []) process_execution_window true none,
    )
    ∷ (
      "T1059.003",
      entry ("query_crowdstrike" ∷ "query_splunk" ∷ []) process_execution_window true none,
    )
    ∷ []

-- `DEFAULT_ROUTING`
unfoldable pub default_routing : RoutingEntry
default_routing =
    entry ("query_splunk" ∷ "lookup_threat_intel" ∷ "query_cmdb" ∷ []) process_execution_window true
      none
