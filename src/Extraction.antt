-- ===== src/Extraction.antt =====
-- components/entity_extractor.py: the entities of an alert, from a model or from patterns.
pub mod Found
mod Tests
use text.Mathlib.Text.{starts_with}
use Prim.Native.String.{◌++◌ as ◌+s◌}
use cyber_security_alert_tri.Ingest.Texts.{take_chars}
use cyber_security_alert_tri.Common.{
  String, Bool, true, false, not, ◌&&◌, ◌||◌, Option, none, some, List, [], ◌∷◌, ◌++◌, ◌==◌,
  if◌then◌else◌,
}
use cyber_security_alert_tri.Schema.{
  NormalizedAlert, UserActivity, UserEntity, ProcessActivity, ProcessEntity, IocEntity,
  ExtractedEntities, ObservableEntry, DetectionFindingSlice,
}
use cyber_security_alert_tri.Json.Membership.{occurs, any_occurs}
use cyber_security_alert_tri.Effects.{Exec, pure, catch}
use cyber_security_alert_tri.Router.Order.{first_occurrences}

-- `str.lower`, what the three patterns find in a text, and the order in which Python goes through a set.
pub record Patterns : Type 0 where
  pub lower : String → String
  pub mitre_findall : String → List String
  pub ipv4_findall : String → List String
  pub sha256_findall : String → List String
  pub set_order : List String → List String

-- `f"{alert.title} {alert.description}"`
abbrev pub alert_text : NormalizedAlert → String
alert_text alert = alert.title +s " " +s alert.description

-- `attack_chain_summary`: the title, and the first 200 characters of a description.
abbrev pub summary_of : NormalizedAlert → String
summary_of alert =
    if alert.description == ""
    then alert.title
    else alert.title +s ": " +s take_chars 200 alert.description

-- `if s` and `s or d` of an optional text.
abbrev pub filled : Option String → List String
filled none = []
filled (some s) = if s == "" then [] else s ∷ []

abbrev first_or : String → List String → String
first_or d [] = d
first_or d (s ∷ ss) = s

abbrev users_of : Option UserActivity → List UserEntity
users_of none = []
users_of (some u) =
    record {
      username = first_or "unknown" (filled u.username);
      domain = u.domain;
      is_admin = u.is_privileged;
    }
    ∷ []

abbrev suspicious_names : List String
suspicious_names = "mimikatz" ∷ "psexec" ∷ "wce" ∷ "procdump" ∷ "lsass" ∷ "powershell" ∷ []

abbrev suspicious_commands : List String
suspicious_commands =
    "sekurlsa" ∷ "logonpasswords" ∷ "privilege::debug" ∷ "lsadump" ∷ "kerberos::ptt"
    ∷ "pass-the-hash" ∷ "invoke-mimikatz" ∷ "invoke-bloodhound" ∷ []

abbrev reason_of : Bool → Bool → Option String
reason_of name_hit true = some "Mimikatz/credential dump command pattern in command line"
reason_of true false = some "Known offensive tool name"
reason_of false false = none

abbrev pub local_prefix : String → Bool
local_prefix ip = starts_with ip "10." || starts_with ip "192.168." || starts_with ip "172."

-- The loop over the addresses.
unfoldable pub address_iocs : List String → List IocEntity
address_iocs [] = []
address_iocs (ip ∷ ips) =
    let rest = address_iocs ips in
    if not (local_prefix ip) then record { type = "ip"; value = ip } ∷ rest else rest

unfoldable pub hash_iocs : List String → List IocEntity
hash_iocs [] = []
hash_iocs (h ∷ hs) = record { type = "hash_sha256"; value = h } ∷ hash_iocs hs

-- The type of IOC for the type of an observable, in lower case.
unfoldable pub ioc_type : String → Option String
ioc_type tl =
    if any_occurs ("ip" ∷ "ipv4" ∷ "ipv6" ∷ []) tl
    then some "ip"
    else if occurs "hash" tl && occurs "256" tl
    then some "hash_sha256"
    else if occurs "md5" tl
    then some "hash_md5"
    else if any_occurs ("domain" ∷ "hostname" ∷ "host" ∷ []) tl
    then some "domain"
    else if occurs "url" tl
    then some "url"
    else none

abbrev typed_ioc : Option String → String → List IocEntity → List IocEntity
typed_ioc none v rest = rest
typed_ioc (some t) v rest = record { type = t; value = v } ∷ rest

module _ (re : Patterns) where
  abbrev process_entity : ProcessActivity → String → ProcessEntity
  process_entity p name =
      let name_hit = any_occurs suspicious_names (re.lower name) in
      let cmd_hit =
        any_occurs suspicious_commands (re.lower (first_or "" (filled p.command_line))) in
      record {
        name = name;
        path = p.process_path;
        command_line = p.command_line;
        hash_sha256 = p.hash_sha256;
        is_suspicious = name_hit || cmd_hit;
        suspicion_reason = reason_of name_hit cmd_hit;
      }

  abbrev named_process : ProcessActivity → List String → List ProcessEntity
  named_process p [] = []
  named_process p (name ∷ names) = process_entity p name ∷ []

  abbrev processes_of : Option ProcessActivity → List ProcessEntity
  processes_of none = []
  processes_of (some p) = named_process p (filled p.process_name)

  -- `mitre_hits`, the technique of the alert first.
  abbrev pub mitre_hits : NormalizedAlert → List String
  mitre_hits alert = filled alert.mitre_technique ++ re.mitre_findall (alert_text alert)

  unfoldable pub observable_iocs : List ObservableEntry → List IocEntity
  observable_iocs [] = []
  observable_iocs (ob ∷ obs) =
      typed_ioc (ioc_type (re.lower ob.type)) ob.value (observable_iocs obs)

  abbrev pub finding_iocs : Option DetectionFindingSlice → List IocEntity
  finding_iocs none = []
  finding_iocs (some f) = observable_iocs f.observables

  -- `_heuristic_extract`
  unfoldable pub heuristic_extract : NormalizedAlert → ExtractedEntities
  heuristic_extract alert = record {
    hosts = filled alert.hostname;
    users = users_of alert.user;
    processes = processes_of alert.process;
    techniques = first_occurrences (mitre_hits alert);
    iocs =
        address_iocs (re.set_order (re.ipv4_findall (alert_text alert)))
        ++ hash_iocs (re.set_order (re.sha256_findall (alert_text alert)))
        ++ finding_iocs alert.detection_finding;
    attack_chain_summary = summary_of alert;
  }

  -- The two models with their prompt, and whether the settings name them.
  module _ {S : Type 0} (has_ollama has_openai : Bool)
      (ollama openai : NormalizedAlert → Exec S ExtractedEntities) where
    -- `extract_entities_llm`
    unfoldable pub extract_entities_llm : NormalizedAlert → Exec S ExtractedEntities
    extract_entities_llm alert =
        let heuristic = pure (heuristic_extract alert) in
        let second = if has_openai then catch (openai alert) (λ e. heuristic) else heuristic in
        if has_ollama then catch (ollama alert) (λ e. second) else second

    -- `extract_entities`
    unfoldable pub extract_entities : Bool → NormalizedAlert → Exec S ExtractedEntities
    extract_entities use_llm alert =
        if use_llm then extract_entities_llm alert else pure (heuristic_extract alert)
