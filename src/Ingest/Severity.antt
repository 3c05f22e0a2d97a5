-- ===== src/Ingest/Severity.antt =====
-- components/alert_normalizer.py: the severities of the sources.
pub mod Monotone
use cyber_security_alert_tri.Common.{
  ℕ, String, Bool, true, false, ◌==◌, ◌||◌, nat_eq, if◌then◌else◌, leb,
}
use cyber_security_alert_tri.Json.{Json, int, str}
use cyber_security_alert_tri.Schema
use cyber_security_alert_tri.Schema.{low, medium, high, critical}

-- `_CS_SEV_MAP`, and the texts of `_SPLUNK_SEV_MAP`; `d` is the default of `get`.
unfoldable pub severity_of_text : String → Schema.Severity → Schema.Severity
severity_of_text t d =
    if t == "informational"
    then low
    else if t == "low"
    then low
    else if t == "medium"
    then medium
    else if t == "high"
    then high
    else if t == "critical"
    then critical
    else d

-- The numbers of `_SPLUNK_SEV_MAP`.
unfoldable pub severity_of_number : ℕ → Schema.Severity → Schema.Severity
severity_of_number n d =
    if nat_eq n 1 || nat_eq n 2
    then low
    else if nat_eq n 3
    then medium
    else if nat_eq n 4
    then high
    else if nat_eq n 5
    then critical
    else d

-- `_OCSF_SEVERITY_TO_ENUM`
unfoldable pub severity_of_ocsf : ℕ → Schema.Severity → Schema.Severity
unfolding severity_of_number
severity_of_ocsf n d = if nat_eq n 6 then critical else severity_of_number n d

-- `_SEVERITY_TO_OCSF_ID`
unfoldable pub ocsf_of_severity : Schema.Severity → ℕ
ocsf_of_severity low = 2
ocsf_of_severity medium = 3
ocsf_of_severity high = 4
ocsf_of_severity critical = 5

-- `_guardduty_severity`, with the comparison of floats given: `at_least n` is `score >= n`.
unfoldable pub guardduty_severity : (ℕ → Bool) → Schema.Severity
guardduty_severity at_least =
    if at_least 9 then critical else if at_least 7 then high else if at_least 4 then medium else low
