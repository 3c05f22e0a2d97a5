-- ===== src/Ingest/Parsers/Ocsf.antt =====
-- components/alert_normalizer.py: `_parse_ocsf_detection_finding_payload`.
use cyber_security_alert_tri.Common.{
  ℕ, String, Bool, true, false, ◌||◌, List, [], ◌∷◌, ◌==◌, if◌then◌else◌,
}
use cyber_security_alert_tri.Json.{
  Json, Items, Fields, null, bool, int, negative, str, arr, nil, cons, obj, end, field,
}
use cyber_security_alert_tri.Json.Membership.{occurs}
use cyber_security_alert_tri.Schema.{
  NormalizedAlert, AlertSource, splunk, crowdstrike, aws_guardduty, sentinel, generic, source_value,
  medium, severity_value,
}
use cyber_security_alert_tri.Schema
use cyber_security_alert_tri.Effects.{Result, ok, raised, type_error}
use cyber_security_alert_tri.Ingest.Texts.{take_chars}
use cyber_security_alert_tri.Ingest.Severity.{severity_of_ocsf}
use cyber_security_alert_tri.Ingest.Parsers.{
  Python, ◌>>=◌, as_fields, get_or, get_value, or_value, truth, stable_alert_id, iso_or_now,
}

-- An observable of a payload, with its type and value cut.
pub record Observable : Type 0 where
  pub type : String
  pub value : String

-- `v.get("name")` of a dictionary, else the text under another key.
abbrev name_or_text : String → Json → Json → Json
name_or_text k (obj fs) other_value = get_value k fs
name_or_text k v (str s) = str s
name_or_text k v other_value = null

-- `isinstance(v, int)`, which holds of `True` and `False` too, and the severity of the number.
abbrev severity_of : Json → Schema.Severity
severity_of (int n) = severity_of_ocsf n medium
severity_of (bool true) = severity_of_ocsf 1 medium
severity_of v = medium

abbrev is_int : Json → Bool
is_int (int n) = true
is_int (negative n) = true
is_int (bool b) = true
is_int v = false

abbrev as_observables : List Observable → Items
as_observables [] = nil
as_observables (o ∷ os) =
    cons (obj (field "type" (str o.type) (field "value" (str o.value) end))) (as_observables os)

module _ (py : Python) where
  -- The loop over the first `n` observables.
  unfoldable pub observables_of : ℕ → Items → List Observable
  observables_of n nil = []
  observables_of Prim.Native.Nat.zero (cons v xs) = []
  observables_of (Prim.Native.Nat.suc n) (cons (obj fs) xs) =
      let rest = observables_of n xs in
      if truth (get_value "value" fs)
      then record {
        type = take_chars 128 (py.to_text (get_or "type" (str "Unknown") fs));
        value = take_chars 2048 (py.to_text (get_value "value" fs));
      }
        ∷ rest
      else rest
  observables_of (Prim.Native.Nat.suc n) (cons v xs) = observables_of n xs

  -- `(payload.get("observables") or [])[:100]`: the characters of a text are no dictionaries, and other
  -- values have no slices.
  abbrev sliced : Json → Result (List Observable)
  sliced (arr xs) = ok (observables_of 100 xs)
  sliced (str s) = ok []
  sliced v = if truth v then raised type_error else ok []

  -- The value of the first observable whose type names a host.
  unfoldable pub host_of : List Observable → Json
  host_of [] = null
  host_of (o ∷ os) =
      let rest = host_of os in if occurs "host" (py.lower o.type) then str o.value else rest

  abbrev source_of : String → AlertSource
  source_of pl =
      if occurs "splunk" pl
      then splunk
      else if occurs "crowd" pl || occurs "falcon" pl
      then crowdstrike
      else if occurs "guardduty" pl || occurs "aws" pl
      then aws_guardduty
      else generic

  abbrev evidence_of : Json → Json
  evidence_of (obj fs) =
      let qr = get_value "query_result" fs in
      if truth qr then str (take_chars 8192 (py.to_text qr)) else null
  evidence_of v = null

  abbrev time_of : Json → Json
  time_of v = if truth v then iso_or_now py v else str py.now

  -- The keyword arguments of the alert.
  unfoldable pub ocsf_arguments : Fields → Fields → Fields → List Observable → Fields
  ocsf_arguments payload fi_in atk_in obs =
      let title = py.to_text (
        or_value (or_value (get_value "title" fi_in) (get_value "title" payload))
          (str "Detection Finding")) in
      let desc = take_chars 4000 (
        py.to_text (
          or_value (or_value (get_value "desc" fi_in) (get_value "description" fi_in))
            (get_or "description" (str "") payload))) in
      let product_uid = py.to_text (
        or_value (or_value (get_value "product_uid" fi_in) (get_value "product_uid" payload))
          (str "generic")) in
      let sev_id = get_value "severity_id" fi_in in
      let tactic =
        name_or_text "name" (get_value "tactic" atk_in) (get_value "tactic_name" atk_in) in
      let technique =
        name_or_text "uid" (get_value "technique" atk_in) (get_value "technique_uid" atk_in) in
      let attacks =
        if truth tactic || truth technique
        then obj (field "tactic_name" tactic (field "technique_uid" technique end))
        else null in
      let evidence = evidence_of (or_value (get_value "evidences" payload) (obj end)) in
      let finding = obj (
        field "schema_version"
          (str (take_chars 32 (py.to_text (get_or "schema_version" (str "1.0.0") payload))))
          (field "finding_info"
            (obj (
              field "title" (str (take_chars 512 title)) (
                field "desc" (str desc) (
                  field "product_uid" (str (take_chars 128 product_uid))
                    (field "severity_id" (if is_int sev_id then sev_id else null) end)))))
            (field "observables" (arr (as_observables obs)) (
              field "attacks" attacks (
                field "evidences"
                  (if truth evidence then obj (field "query_result" evidence end) else null)
                  end))))) in
      let ts_raw =
        or_value (or_value (get_value "time" payload) (get_value "created_at" payload))
          (get_value "timestamp" payload) in
      let aid = py.to_text (
        or_value (or_value (get_value "finding_uid" payload) (get_value "activity_uid" payload))
          (get_or "id" (str "") payload)) in
      let dumped = take_chars 200 (py.dumps_sorted (obj payload)) in
      field "alert_id" (str (stable_alert_id py "ocsf2004" (if aid == "" then dumped else aid))) (
        field "source" (str (source_value (source_of (py.lower product_uid)))) (
          field "source_alert_id" (if aid == "" then null else str aid) (
            field "title" (str (take_chars 512 title)) (
              field "description" (str desc) (
                field "severity" (str (severity_value (severity_of sev_id))) (
                  field "timestamp" (time_of ts_raw) (
                    field "category_uid" (int 2) (
                      field "class_uid" (int 2004) (
                        field "hostname" (host_of obs) (
                          field "mitre_tactic" tactic (
                            field "mitre_technique" technique (
                              field "detection_finding" finding
                                (field "raw_payload" (obj payload) end)))))))))))))

  -- `_parse_ocsf_detection_finding_payload`
  unfoldable pub parse_ocsf_detection_finding_payload : Fields → Result NormalizedAlert
  parse_ocsf_detection_finding_payload payload = do
    fi_in ← as_fields (or_value (get_value "finding_info" payload) (obj end))
    obs ← sliced (or_value (get_value "observables" payload) (arr nil))
    atk_in ← as_fields (or_value (get_value "attacks" payload) (obj end))
    py.construct (ocsf_arguments payload fi_in atk_in obs)
