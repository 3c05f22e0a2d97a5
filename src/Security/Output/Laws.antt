-- ===== src/Security/Output/Laws.antt =====
-- security/output_filter.py: the fields of a verdict that was cleaned.
use cyber_security_alert_tri.Common.{
  String, false, Option, none, some, ◌≡◌, ◌==◌, eq_iff, eq_refl, arith, Bool-cases, inl, inr, ap,
  ◌∙◌, sym, if◌then◌else◌,
}
use cyber_security_alert_tri.Json.{Json, Fields, str, end, field, get_field}
use cyber_security_alert_tri.Security.Output.{Scrubbing, scrub_string, scrub_verdict_for_log}

module _ (scrubbing : Scrubbing) where
  abbrev summary_of : Option Json → Option Json
  summary_of none = none
  summary_of (some v) = some (str (scrub_string scrubbing (scrubbing.to_text v)))

  abbrev outcome : String → String → String → Option Json → Option Json
  outcome raw summary k o = if k == raw then none else if k == summary then summary_of o else o

  abbrev reported : String → Option Json → Option Json
  reported = outcome "raw_tool_outputs" "triage_summary"

  other_key :
      (raw summary j k : String) (v : Json) (cleaned : Fields)
      → (j == k) ≡ false
      → get_field k (
          if j == raw
          then cleaned
          else if j == summary
          then field j (str (scrub_string scrubbing (scrubbing.to_text v))) cleaned
          else field j v cleaned)
        ≡ get_field k cleaned
  unfolding get_field
  other_key raw summary j k v cleaned h = ground arith

  own_key :
      (raw summary k : String) (v : Json) (cleaned : Fields) (o : Option Json)
      → get_field k cleaned ≡ outcome raw summary k o
      → get_field k (
          if k == raw
          then cleaned
          else if k == summary
          then field k (str (scrub_string scrubbing (scrubbing.to_text v))) cleaned
          else field k v cleaned)
        ≡ outcome raw summary k (some v)
  unfolding get_field
  own_key raw summary k v cleaned o h = ground (arith, eq_refl k)

  -- A cleaned verdict has no raw tool outputs, its summary is the scrubbed text of the one it had, and
  -- every other field is what it was.
  pub get_field-scrub_verdict_for_log :
      (k : String) (fs : Fields)
      → get_field k (scrub_verdict_for_log scrubbing fs) ≡ (
          if k == "raw_tool_outputs"
          then none
          else if k == "triage_summary"
          then summary_of (get_field k fs)
          else get_field k fs)
  unfolding get_field scrub_verdict_for_log
  get_field-scrub_verdict_for_log k end = ground arith
  get_field-scrub_verdict_for_log k (field j v fs) =
      let rest = get_field-scrub_verdict_for_log k fs in
      let cleaned = scrub_verdict_for_log scrubbing fs in
      elim (Bool-cases (j == k)) [
        | inl same ↦
            ap (λ i. get_field k (scrub_verdict_for_log scrubbing (field i v fs)))
              ((eq_iff j k).0 same)
            ∙ own_key "raw_tool_outputs" "triage_summary" k v cleaned (get_field k fs) rest
            ∙ sym (ap (λ b. reported k (if b then some v else get_field k fs)) same)
        | inr differ ↦
            other_key "raw_tool_outputs" "triage_summary" j k v cleaned differ
            ∙ rest
            ∙ sym (ap (λ b. reported k (if b then some v else get_field k fs)) differ)
      ]
