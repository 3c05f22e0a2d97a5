-- ===== src/Security/Output/Tests.antt =====
-- security/output_filter.py: a verdict that is scrubbed.
use cyber_security_alert_tri.Common.{◌≡◌, refl, ◌==◌, if◌then◌else◌}
use cyber_security_alert_tri.Json.{Fields, str, end, field}
use cyber_security_alert_tri.Security.Output.{Scrubbing, scrub_string, scrub_verdict_for_log}

abbrev scrubbing : Scrubbing
scrubbing = record {
  redact_password = λ s. if s == "pwd=x" then "pwd=***REDACTED***" else s;
  redact_card = λ s. s;
  to_text = λ v. elim v [ str s ↦ s | _ ↦ "" ];
}

abbrev verdict : Fields
verdict =
    field "raw_tool_outputs" (str "dump")
      (field "triage_summary" (str "pwd=x") (field "status" (str "done") end))

scrubbed :
    scrub_verdict_for_log scrubbing verdict
    ≡ field "triage_summary" (str "pwd=***REDACTED***") (field "status" (str "done") end)
unfolding scrub_verdict_for_log scrub_string
scrubbed = refl
