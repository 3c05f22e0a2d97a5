-- ===== src/Enrichment/Params.antt =====
-- agents/enrichment_node.py: the parameter builders, from an alert and its entities to a tool's input.
mod Tests
use text.Mathlib.Text.{starts_with}
use cyber_security_alert_tri.Common.{
  String, ◌||◌, Option, none, some, List, [], ◌∷◌, ◌==◌, if◌then◌else◌,
}
use cyber_security_alert_tri.Json.{Json, obj, str, int, end, field, opt_str}
use cyber_security_alert_tri.Schema.{
  NormalizedAlert, ExtractedEntities, IocEntity, NetworkActivity, UserEntity,
}
use cyber_security_alert_tri.Router.{get_time_window}

-- A text that is there and not empty.
abbrev pub nonempty : Option String → Option String
nonempty none = none
nonempty (some s) = if s == "" then none else some s

-- `entities.hosts[0].hostname if entities.hosts else alert.hostname`
abbrev pub first_host : NormalizedAlert → List String → Option String
first_host alert [] = alert.hostname
first_host alert (h ∷ hs) = some h

-- `entities.users[0].username if entities.users else None`
abbrev pub first_user : List UserEntity → Option String
first_user [] = none
first_user (u ∷ us) = some u.username

abbrev hours : String → Json
hours technique_id = int (get_time_window technique_id).hours

-- `_build_splunk_params`
pub build_splunk_params : NormalizedAlert → ExtractedEntities → String → Option Json
build_splunk_params alert entities tid =
    let hostname = opt_str (first_host alert entities.hosts) in
    let username = opt_str (first_user entities.users) in
    let back = field "hours_back" (hours tid) end in
    some (
      obj (
        if starts_with tid "T1110"
        then field "query_type" (str "auth_events_by_user") (field "username" username back)
        else if starts_with tid "T1486" || starts_with tid "T1490"
        then field "query_type" (str "shadow_copy_deletion") back
        else if starts_with tid "T1053"
        then field "query_type" (str "scheduled_tasks") (field "hostname" hostname back)
        else if starts_with tid "T1071"
        then field "query_type" (str "dns_tunneling") (field "hostname" hostname back)
        else field "query_type" (str "process_by_host") (field "hostname" hostname back)))

-- `_build_crowdstrike_params`
pub build_crowdstrike_params : NormalizedAlert → ExtractedEntities → String → Option Json
build_crowdstrike_params alert entities tid = some (
    obj (
      field "query_type" (str "detections_by_host") (
        field "hostname" (opt_str (first_host alert entities.hosts))
          (field "hours_back" (hours tid) end))))

-- `alert.network and alert.network.dst_ip`
abbrev pub dst_ip_of : Option NetworkActivity → Option String
dst_ip_of none = none
dst_ip_of (some n) = nonempty n.dst_ip

abbrev pub ioc_params : String → String → Json
ioc_params type value = obj (field "ioc_type" (str type) (field "ioc_value" (str value) end))

abbrev from_network : Option String → Option Json
from_network none = none
from_network (some ip) = some (ioc_params "ip" ip)

-- The loop over `entities.iocs` of `_build_threat_intel_params`, and the fall back to the network.
pub threat_intel_loop : NormalizedAlert → List IocEntity → Option Json
threat_intel_loop alert [] = from_network (dst_ip_of alert.network)
threat_intel_loop alert (ioc ∷ iocs) =
    if ioc.type == "hash_sha256"
    then some (ioc_params "hash_sha256" ioc.value)
    else if ioc.type == "ip"
    then some (ioc_params "ip" ioc.value)
    else threat_intel_loop alert iocs

-- `_build_threat_intel_params`
pub build_threat_intel_params : NormalizedAlert → ExtractedEntities → String → Option Json
build_threat_intel_params alert entities tid = threat_intel_loop alert entities.iocs

abbrev src_ip_of : Option NetworkActivity → Option String
src_ip_of none = none
src_ip_of (some n) = n.src_ip

-- `_build_netflow_params`
pub build_netflow_params : NormalizedAlert → ExtractedEntities → String → Option Json
build_netflow_params alert entities tid =
    let src_ip = opt_str (src_ip_of alert.network) in
    let hostname = opt_str (first_host alert entities.hosts) in
    let back = field "hours_back" (hours tid) end in
    some (
      obj (
        if starts_with tid "T1071.004"
        then field "query_type" (str "dns_entropy_analysis")
            (field "src_ip" src_ip (field "hostname" hostname back))
        else if starts_with tid "T1573" || starts_with tid "T1095"
        then field "query_type" (str "beacon_detection") (field "src_ip" src_ip back)
        else field "query_type" (str "top_talkers") (field "src_ip" src_ip back)))

-- `_build_aws_params`
pub build_aws_params : NormalizedAlert → ExtractedEntities → String → Option Json
build_aws_params alert entities tid = some (
    obj (
      field "query_type" (str "cloudtrail_by_user") (
        field "username" (opt_str (first_user entities.users))
          (field "hours_back" (hours tid) end))))

abbrev by_hostname : String → Json
by_hostname h = obj (field "lookup_type" (str "by_hostname") (field "hostname" (str h) end))

abbrev cmdb_lookup : Option String → Option String → Json
cmdb_lookup (some h) ip = by_hostname h
cmdb_lookup none (some ip) =
    obj (field "lookup_type" (str "by_ip") (field "ip_address" (str ip) end))
cmdb_lookup none none = by_hostname "unknown"

-- `_build_cmdb_params`
pub build_cmdb_params : NormalizedAlert → ExtractedEntities → String → Option Json
build_cmdb_params alert entities tid =
    some (cmdb_lookup (nonempty (first_host alert entities.hosts)) (dst_ip_of alert.network))

-- `_build_backup_params`
pub build_backup_params : NormalizedAlert → ExtractedEntities → String → Option Json
build_backup_params alert entities tid = some (
    obj (
      field "query_type" (str "shadow_copy_status")
        (field "hostname" (opt_str (first_host alert entities.hosts)) end)))

abbrev cve_params : Option String → Option Json
cve_params none = none
cve_params (some cve) = some (obj (field "cve_id" (str cve) end))

abbrev or_try : Option Json → Option Json → Option Json
or_try none b = b
or_try (some a) b = some a

-- The first CVE id in the texts; `cve_search` is the compiled pattern's search, in capitals.
module _ (cve_search : String → Option String) where
  pub vulncheck_loop : List IocEntity → Option Json
  vulncheck_loop [] = none
  vulncheck_loop (ioc ∷ iocs) =
      if ioc.type == "cve"
      then some (obj (field "cve_id" (str ioc.value) end))
      else or_try (cve_params (cve_search ioc.value)) (vulncheck_loop iocs)

  -- `_build_vulncheck_params`
  pub build_vulncheck_params : NormalizedAlert → ExtractedEntities → String → Option Json
  build_vulncheck_params alert entities tid =
      or_try (vulncheck_loop entities.iocs)
        (or_try (cve_params (cve_search alert.title)) (cve_params (cve_search alert.description)))

  -- `_PARAM_BUILDERS`; `none` is a tool with no builder.
  pub param_builder : String → Option (NormalizedAlert → ExtractedEntities → String → Option Json)
  param_builder tool =
      if tool == "query_splunk"
      then some build_splunk_params
      else if tool == "query_crowdstrike"
      then some build_crowdstrike_params
      else if tool == "lookup_threat_intel"
      then some build_threat_intel_params
      else if tool == "query_aws"
      then some build_aws_params
      else if tool == "query_cmdb"
      then some build_cmdb_params
      else if tool == "query_netflow"
      then some build_netflow_params
      else if tool == "query_dns_logs"
      then some build_netflow_params
      else if tool == "query_backup_systems"
      then some build_backup_params
      else if tool == "lookup_vulncheck"
      then some build_vulncheck_params
      else none
