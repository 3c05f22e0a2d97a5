-- ===== src/Ingest/Severity/Monotone.antt =====
-- components/alert_normalizer.py and components/detection_finding_builder.py: severities and their numbers.
use cyber_security_alert_tri.Common.{ℕ, ◌≤◌, Bool, true, ◌≡◌, refl, arith}
use cyber_security_alert_tri.Schema
use cyber_security_alert_tri.Schema.{low, medium, high, critical}
use cyber_security_alert_tri.Ingest.Severity.{
  guardduty_severity, ocsf_of_severity, severity_of_ocsf,
}

-- The severity of a finding that is built from an alert reads back as the alert's severity, and a GuardDuty
-- finding with a higher score never has a lower number: if every bound that one score reaches is reached by
-- another, then the number of the severity of the one is at most that of the other.
pub severity_of_ocsf-ocsf_of_severity :
    ((s d : Schema.Severity) → severity_of_ocsf (ocsf_of_severity s) d ≡ s)
    × ((lower higher : ℕ → Bool)
        → ((n : ℕ) → lower n ≡ true → higher n ≡ true)
        → ocsf_of_severity (guardduty_severity lower)
          ≤ ocsf_of_severity (guardduty_severity higher))
unfolding severity_of_ocsf ocsf_of_severity guardduty_severity
severity_of_ocsf-ocsf_of_severity = (
  λ s d. elim s as (λ s. severity_of_ocsf (ocsf_of_severity s) d ≡ s) [
    | low ↦ refl
    | medium ↦ refl
    | high ↦ refl
    | critical ↦ refl
  ],
  λ lower higher h. ground (arith, h 9, h 7, h 4),
)
