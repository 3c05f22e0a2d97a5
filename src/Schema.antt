-- ===== src/Schema.antt =====
-- schemas/v1 and schemas/_common/enums.py: the records that the components hand to one another,
-- with the fields that the modelled code reads or writes.
use cyber_security_alert_tri.Common.{ℕ, String, Bool, Option, List}
use cyber_security_alert_tri.Json.{Json}

-- `Severity`
pub data Severity : Type 0 where
  low medium high critical : Severity

-- `Severity.value`
abbrev pub severity_value : Severity → String
severity_value low = "LOW"
severity_value medium = "MEDIUM"
severity_value high = "HIGH"
severity_value critical = "CRITICAL"

-- `AlertSource`
pub data AlertSource : Type 0 where
  splunk crowdstrike aws_guardduty sentinel generic : AlertSource

-- `AlertSource.value`
abbrev pub source_value : AlertSource → String
source_value splunk = "splunk"
source_value crowdstrike = "crowdstrike"
source_value aws_guardduty = "aws_guardduty"
source_value sentinel = "sentinel"
source_value generic = "generic"

-- `EscalationDecision`
pub data EscalationDecision : Type 0 where
  escalate_ir false_positive monitor close : EscalationDecision

-- The addresses of `NetworkActivity`.
pub record NetworkActivity : Type 0 where
  pub src_ip : Option String
  pub dst_ip : Option String

-- `ProcessActivity`
pub record ProcessActivity : Type 0 where
  pub process_name : Option String
  pub process_path : Option String
  pub command_line : Option String
  pub hash_md5 : Option String
  pub hash_sha256 : Option String

-- `UserActivity`
pub record UserActivity : Type 0 where
  pub username : Option String
  pub domain : Option String
  pub is_privileged : Bool

-- `FindingInfo`
pub record FindingInfo : Type 0 where
  pub title : String
  pub desc : String
  pub product_uid : Option String
  pub severity_id : Option ℕ

-- `ObservableEntry`
pub record ObservableEntry : Type 0 where
  pub type : String
  pub value : String

-- `AttackContext`
pub record AttackContext : Type 0 where
  pub tactic_name : Option String
  pub technique_uid : Option String

-- `EvidenceBundle`
pub record EvidenceBundle : Type 0 where
  pub query_result : Option String

-- `DetectionFindingSlice`
pub record DetectionFindingSlice : Type 0 where
  pub schema_version : String
  pub finding_info : FindingInfo
  pub observables : List ObservableEntry
  pub attacks : Option AttackContext
  pub evidences : Option EvidenceBundle

-- `NormalizedAlert`
pub record NormalizedAlert : Type 0 where
  pub alert_id : String
  pub tenant_id : Option String
  pub source : AlertSource
  pub title : String
  pub description : String
  pub severity : Severity
  pub category_uid : Option ℕ
  pub class_uid : Option ℕ
  pub hostname : Option String
  pub asset_id : Option String
  pub cloud_account_id : Option String
  pub mitre_tactic : Option String
  pub mitre_technique : Option String
  pub network : Option NetworkActivity
  pub process : Option ProcessActivity
  pub user : Option UserActivity
  pub detection_finding : Option DetectionFindingSlice
  pub raw_payload : Json
  pub coercion_trace_id : Option String

-- `UserEntity`
pub record UserEntity : Type 0 where
  pub username : String
  pub domain : Option String
  pub is_admin : Bool

-- `ProcessEntity`
pub record ProcessEntity : Type 0 where
  pub name : String
  pub path : Option String
  pub command_line : Option String
  pub hash_sha256 : Option String
  pub is_suspicious : Bool
  pub suspicion_reason : Option String

-- `IOCEntity`
pub record IocEntity : Type 0 where
  pub type : String
  pub value : String

-- `ExtractedEntities`, with the name of each host and technique.
pub record ExtractedEntities : Type 0 where
  pub hosts : List String
  pub users : List UserEntity
  pub processes : List ProcessEntity
  pub techniques : List String
  pub iocs : List IocEntity
  pub attack_chain_summary : String

-- `ToolCallRecord`
pub record ToolCallRecord : Type 0 where
  pub tool_name : String
  pub input_params : Json
  pub result_summary : String
  pub raw_result : Json
  pub source_available : Bool
  pub error : Option Json

-- `AgentThinkToolPlan`
pub record AgentThinkToolPlan : Type 0 where
  pub name : String
  pub arguments : String

-- `AgentThinkResponse`
pub record AgentThinkResponse : Type 0 where
  pub tocontinue : Bool
  pub planned_tools : List AgentThinkToolPlan
  pub reasoning : String

-- `TriageVerdict`; the two estimates are in hundredths.
pub record TriageVerdict : Type 0 where
  pub alert_id : String
  pub tenant_id : Option String
  pub status : Option String
  pub severity : Severity
  pub mitre_assessments : List String
  pub immediate_actions : List String
  pub escalation : EscalationDecision
  pub total_tool_calls : ℕ
  pub tools_called : List String
  pub analyst_confidence : ℕ
  pub false_positive_probability : ℕ
