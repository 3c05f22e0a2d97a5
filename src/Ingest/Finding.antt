-- ===== src/Ingest/Finding.antt =====
-- components/detection_finding_builder.py: the bounded projection of an alert for the models.
pub mod Bounded
mod Tests
use Prim.Native.String.{◌++◌ as ◌+s◌}
use cyber_security_alert_tri.Common.{
  ℕ, ◌-◌, String, Bool, true, false, ◌&&◌, ◌||◌, Option, none, some, List, [], ◌∷◌, ◌++◌, ◌==◌, leb,
  if◌then◌else◌,
}
use cyber_security_alert_tri.Schema.{
  NormalizedAlert, NetworkActivity, UserActivity, ProcessActivity, FindingInfo, ObservableEntry,
  AttackContext, EvidenceBundle, DetectionFindingSlice, source_value,
}
use cyber_security_alert_tri.Ingest.Texts.{chars, take_chars}
use cyber_security_alert_tri.Ingest.Severity.{ocsf_of_severity}

-- `_trunc`; an empty text is returned as it is.
unfoldable pub trunc : String → ℕ → String
trunc s n = if leb (chars s) n then s else take_chars (n - 3) s +s "..."

abbrev pub truthy : Option String → Bool
truthy none = false
truthy (some t) = if t == "" then false else true

-- An observable, where its value is there.
abbrev pub observed : String → Option String → List ObservableEntry
observed type none = []
observed type (some v) = if v == "" then [] else record { type = type; value = v } ∷ []

abbrev network_observables : Option NetworkActivity → List ObservableEntry
network_observables none = []
network_observables (some n) = observed "IPv4 Address" n.src_ip ++ observed "IPv4 Address" n.dst_ip

abbrev user_name : Option String → String → String
user_name none name = name
user_name (some d) name = if d == "" then name else d +s "\\" +s name

abbrev named_user : Option String → Option String → List ObservableEntry
named_user domain none = []
named_user domain (some name) =
    if name == "" then [] else record { type = "User"; value = user_name domain name } ∷ []

abbrev user_observables : Option UserActivity → List ObservableEntry
user_observables none = []
user_observables (some u) = named_user u.domain u.username

abbrev process_observables : Option ProcessActivity → List ObservableEntry
process_observables none = []
process_observables (some p) =
    observed "Process Name" p.process_name
    ++ (observed "SHA-256 Hash" p.hash_sha256 ++ observed "MD5 Hash" p.hash_md5)

-- The list `obs` before the duplicates go.
unfoldable pub observables_of : NormalizedAlert → List ObservableEntry
observables_of alert =
    observed "Hostname" alert.hostname
    ++ (observed "Asset Identifier" alert.asset_id
        ++ (observed "Cloud Account" alert.cloud_account_id
            ++ (network_observables alert.network
                ++ (user_observables alert.user ++ process_observables alert.process))))

-- `key in seen`
unfoldable pub seen_in : ObservableEntry → List ObservableEntry → Bool
seen_in o [] = false
seen_in o (p ∷ seen) = (p.type == o.type && p.value == o.value) || seen_in o seen

-- The loop that drops duplicates, with the keys that it has seen.
unfoldable pub dedupe : List ObservableEntry → List ObservableEntry → List ObservableEntry
unfolding seen_in
dedupe seen [] = []
dedupe seen (o ∷ obs) =
    let rest = dedupe (if seen_in o seen then seen else o ∷ seen) obs in
    if seen_in o seen then rest else o ∷ rest

abbrev attack_context : NormalizedAlert → Option AttackContext
attack_context alert =
    if truthy alert.mitre_tactic || truthy alert.mitre_technique
    then some (record { tactic_name = alert.mitre_tactic; technique_uid = alert.mitre_technique })
    else none

abbrev command_line : Option ProcessActivity → Option String
command_line none = none
command_line (some p) = p.command_line

abbrev pub evidence_text : NormalizedAlert → Option String → String
evidence_text alert none = alert.description
evidence_text alert (some c) = if c == "" then alert.description else c

abbrev or_none : String → Option String
or_none t = if t == "" then none else some t

-- `build_detection_finding_slice`
unfoldable pub build_detection_finding_slice : NormalizedAlert → DetectionFindingSlice
unfolding trunc observables_of dedupe ocsf_of_severity
build_detection_finding_slice alert = record {
  schema_version = "1.0.0";
  finding_info = record {
    title = trunc alert.title 512;
    desc = trunc alert.description 4000;
    product_uid = some (source_value alert.source);
    severity_id = some (ocsf_of_severity alert.severity);
  };
  observables = dedupe [] (observables_of alert);
  attacks = attack_context alert;
  evidences = some (record {
    query_result = or_none (trunc (evidence_text alert (command_line alert.process)) 8192);
  });
}

-- `attach_detection_finding`
unfoldable pub attach_detection_finding : NormalizedAlert → NormalizedAlert
attach_detection_finding alert = record alert {
  category_uid = some 2;
  class_uid = some 2004;
  detection_finding = some (build_detection_finding_slice alert);
}
