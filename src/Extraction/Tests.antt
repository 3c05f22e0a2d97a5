-- ===== src/Extraction/Tests.antt =====
-- components/entity_extractor.py: an extraction, and the theorems.
use cyber_security_alert_tri.Common.{
  Bool, true, false, not, ◌&&◌, ◌||◌, [], ◌∷◌, ◌≡◌, refl, contains, distinct,
}
use cyber_security_alert_tri.Schema.{NormalizedAlert, ExtractedEntities}
use cyber_security_alert_tri.Effects.{Exec, ok, raised, other}
use cyber_security_alert_tri.Samples.{sample_alert}
use cyber_security_alert_tri.Extraction.{
  Patterns, alert_text, local_prefix, address_iocs, filled, finding_iocs, heuristic_extract,
  extract_entities,
}
use cyber_security_alert_tri.Extraction.Found.{
  has_ip, chosen, heuristic_extract-exact, extract_entities-falls_back,
}

-- A private address, a public one and one of a public block that begins with "172.".
abbrev sample_patterns : Patterns
sample_patterns = record {
  lower = λ t. t;
  mitre_findall = λ text. "T1059" ∷ "T1059" ∷ [];
  ipv4_findall = λ text. "10.0.0.5" ∷ "203.0.113.7" ∷ "172.67.1.1" ∷ [];
  sha256_findall = λ text. [];
  set_order = λ xs. xs;
}

-- The public address that begins with "172." is left out as well.
addresses :
    address_iocs (sample_patterns.ipv4_findall (alert_text sample_alert))
    ≡ record { type = "ip"; value = "203.0.113.7" } ∷ []
unfolding address_iocs
addresses = refl

heuristic_extract-exact_example :
    let found = heuristic_extract sample_patterns sample_alert in
    (distinct found.techniques ≡ true)
    × (contains "T1059" found.techniques ≡ (
        contains "T1059" (filled sample_alert.mitre_technique)
        || contains "T1059" ("T1059" ∷ "T1059" ∷ [])))
    × (has_ip "172.67.1.1" found.iocs ≡ (
        contains "172.67.1.1" ("10.0.0.5" ∷ "203.0.113.7" ∷ "172.67.1.1" ∷ [])
          && not (local_prefix "172.67.1.1")
        || has_ip "172.67.1.1" (finding_iocs sample_patterns sample_alert.detection_finding)))
heuristic_extract-exact_example =
    heuristic_extract-exact sample_patterns (λ xs t. refl) sample_alert "T1059" "172.67.1.1"

-- Ollama is down, and OpenAI is not in the settings.
abbrev down : NormalizedAlert → Exec Bool ExtractedEntities
down alert s = (raised (other "ConnectError"), true)

extract_entities-falls_back_example :
    let heuristic = heuristic_extract sample_patterns sample_alert in
    let out = extract_entities sample_patterns true false down down true sample_alert false in
    (true ≡ true
      → out.0
        ≡ ok (
            chosen sample_patterns true
              (raised (other "ConnectError"))
              (chosen sample_patterns false (raised (other "ConnectError")) heuristic)))
    × (true ≡ false → out ≡ (ok heuristic, false))
extract_entities-falls_back_example =
    extract_entities-falls_back sample_patterns true false down down true sample_alert false
