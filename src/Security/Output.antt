-- ===== src/Security/Output.antt =====
-- security/output_filter.py: what is taken out of a verdict before it is handed out.
pub mod Laws
mod Tests
use cyber_security_alert_tri.Common.{String, Bool, true, false, ◌==◌, if◌then◌else◌}
use cyber_security_alert_tri.Json.{Json, Fields, str, end, field}

-- The two substitutions, by `_PASSWORD_RE` and `_CREDIT_CARD_RE`, and Python's `str` of a value.
pub record Scrubbing : Type 0 where
  pub redact_password : String → String
  pub redact_card : String → String
  pub to_text : Json → String

module _ (scrubbing : Scrubbing) where
  -- `scrub_string`
  pub scrub_string : String → String
  scrub_string value = scrubbing.redact_card (scrubbing.redact_password value)

  -- `scrub_verdict_for_log`
  pub scrub_verdict_for_log : Fields → Fields
  scrub_verdict_for_log end = end
  scrub_verdict_for_log (field k v fs) =
      let cleaned = scrub_verdict_for_log fs in
      if k == "raw_tool_outputs"
      then cleaned
      else if k == "triage_summary"
      then field k (str (scrub_string (scrubbing.to_text v))) cleaned
      else field k v cleaned
