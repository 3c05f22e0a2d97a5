-- ===== src/Ingest/Auto.antt =====
-- components/auto_ingest.py: a payload of unknown shape, and the model that may flatten it.
pub mod Resolved
mod Tests
use cyber_security_alert_tri.Common.{
  String, Bool, true, false, Option, none, some, ◌==◌, if◌then◌else◌,
}
use cyber_security_alert_tri.Json.{Json, Fields, str, obj, end, field}
use cyber_security_alert_tri.Schema.{
  NormalizedAlert, AlertSource, source_value, splunk, crowdstrike, aws_guardduty, sentinel, generic,
}
use cyber_security_alert_tri.Effects.{
  Exec, Result, ok, raised, Exception, pure, continue, ◌>>=◌, catch, handle,
}
use cyber_security_alert_tri.Ingest.Detect.{detect_source}
use cyber_security_alert_tri.Ingest.Expand.{expand_auto_ingest_payload}
use cyber_security_alert_tri.Ingest.Parsers.{Python}
use cyber_security_alert_tri.Ingest.Parsers.Normalize.{normalize_alert}

-- `AutoIngestFlatView`
pub record AutoIngestFlatView : Type 0 where
  pub title : String
  pub description : String
  pub severity : String
  pub hostname : Option String
  pub mitre_technique : Option String
  pub mitre_tactic : Option String
  pub source_alert_id : Option String

-- The calls of the two models, where each is configured.
pub record Models (S : Type 0) : Type 0 where
  pub ollama : Option (Fields → Exec S (Option AutoIngestFlatView))
  pub openai : Option (Fields → Exec S (Option AutoIngestFlatView))

-- A pair that is set only where its value is there.
abbrev set_if : String → Option String → Fields → Fields
set_if k none fs = fs
set_if k (some t) fs = if t == "" then fs else field k (str t) fs

-- The payload that is made of a flat view.
unfoldable pub flat_payload : AutoIngestFlatView → Fields
flat_payload flat = field "title" (str flat.title) (
    field "description" (str (if flat.description == "" then flat.title else flat.description)) (
      field "severity" (str flat.severity) (
        set_if "hostname" flat.hostname (
          set_if "mitre_technique" flat.mitre_technique
            (set_if "mitre_tactic" flat.mitre_tactic (set_if "id" flat.source_alert_id end))))))

abbrev pub is_generic : AlertSource → Bool
is_generic source = source_value source == source_value generic

module _ {S : Type 0} (py : Python) (models : Models S) where
  abbrev pub try_model :
      Option (Fields → Exec S (Option AutoIngestFlatView))
      → Fields
      → Exec S (Option AutoIngestFlatView)
      → Exec S (Option AutoIngestFlatView)
  try_model none payload rest = rest
  try_model (some f) payload rest = catch (f payload) (λ _. rest)

  -- `_llm_coerce_to_flat`
  unfoldable pub llm_coerce_to_flat : Fields → Exec S (Option AutoIngestFlatView)
  llm_coerce_to_flat payload =
      try_model models.ollama payload (try_model models.openai payload (pure none))

  abbrev pub lift {ℓ} : {A : Type ℓ} → Result A → Exec S A
  lift r s = (r, s)

  -- `normalize_alert`, then `model_copy` with the payload as it came.
  abbrev pub normalized_as : AlertSource → Fields → Fields → Exec S NormalizedAlert
  normalized_as source payload raw = do
    alert ← lift (normalize_alert py source payload)
    pure (record alert { raw_payload = obj raw })

  abbrev pub flat_or_expanded : Fields → Fields → Option AutoIngestFlatView → Exec S NormalizedAlert
  flat_or_expanded payload expanded none = normalized_as generic expanded payload
  flat_or_expanded payload expanded (some flat) = normalized_as generic (flat_payload flat) payload

  abbrev pub by_source : Bool → Fields → Fields → AlertSource → Exec S NormalizedAlert
  by_source use_llm payload expanded source =
      if is_generic source
      then (if use_llm
          then (do flat ← llm_coerce_to_flat expanded; flat_or_expanded payload expanded flat)
          else normalized_as generic expanded payload)
      else normalized_as source expanded payload

  -- `resolve_alert_for_auto_ingest`
  unfoldable pub resolve_alert_for_auto_ingest : Bool → Fields → Exec S NormalizedAlert
  resolve_alert_for_auto_ingest use_llm payload = do
    expanded ← lift (expand_auto_ingest_payload py.lower payload)
    source ← lift (detect_source expanded)
    by_source use_llm payload expanded source
