-- ===== src/App/Intake/Batch.antt =====
-- app/main.py: many alerts in one request.
pub mod Counts
use cyber_security_alert_tri.Common.{
  ℕ, zero, suc, ◌+◌, ◌≤◌, String, Bool, true, false, ◌&&◌, Option, none, some, List, [], ◌∷◌, ◌++◌,
  ◌≡◌, refl, ap, sym, ◌∙◌, length, length-append, arith, if◌then◌else◌,
}
use cyber_security_alert_tri.Json.{Json, Fields, obj}
use cyber_security_alert_tri.Schema.{NormalizedAlert, AlertSource}
use cyber_security_alert_tri.Effects.{
  Exec, Result, ok, raised, Exception, pure, raise, continue, ◌>>=◌, ◌>>◌,
}
use cyber_security_alert_tri.Security.Guard.{Headers}
use cyber_security_alert_tri.Ingest.Parsers.Normalize.{normalize_alert}
use cyber_security_alert_tri.App.{require_key}
use cyber_security_alert_tri.Storage.Alerts
use cyber_security_alert_tri.Storage.Alerts.{queued}
use cyber_security_alert_tri.Runtime.Glue.{record_raw_payload}
use cyber_security_alert_tri.App.Intake.{
  Intake, IntakeEnv, parse_source, on_store, outside, clean, accept, dispatch_triage,
}

-- `BatchIngestItem`
pub record BatchIngestItem : Type 0 where
  pub source : String
  pub payload : Fields

-- An entry of the results: an error, or the id and the source of an accepted alert.
pub data ItemResult : Type 0 where
  unknown : String → ItemResult
  refused : Exception → ItemResult
  accepted : String → AlertSource → ItemResult

-- The reply of a batch.
pub record BatchReply : Type 0 where
  pub accepted : ℕ
  pub total : ℕ
  pub results : List ItemResult

abbrev pub is_accepted : ItemResult → Bool
is_accepted (accepted id source) = true
is_accepted _ = false

-- `sum(1 for r in results if r.get("ok"))`
unfoldable pub count_accepted : List ItemResult → ℕ
count_accepted [] = 0
count_accepted (r ∷ rs) = let rest = count_accepted rs in if is_accepted r then suc rest else rest

module _ {S T L : Type 0} (env : IntakeEnv S T L) where
  abbrev pub accept_or_refuse :
      AlertSource → Fields → Result NormalizedAlert → Exec (Intake S L) ItemResult
  accept_or_refuse source payload (raised e) = pure (refused e)
  accept_or_refuse source payload (ok alert) = do
    accept env alert (obj payload)
    pure (accepted alert.alert_id source)

  abbrev pub ingest_from : BatchIngestItem → Option AlertSource → Exec (Intake S L) ItemResult
  ingest_from row none = pure (unknown row.source)
  ingest_from row (some source) =
      let payload = clean env row.payload in
      accept_or_refuse source payload (normalize_alert env.python source payload)

  -- The body of the loop.
  unfoldable pub ingest_row : BatchIngestItem → Exec (Intake S L) ItemResult
  ingest_row row = ingest_from row (parse_source (env.python.lower row.source))

  unfoldable pub ingest_rows : List BatchIngestItem → Exec (Intake S L) (List ItemResult)
  ingest_rows [] = pure []
  ingest_rows (row ∷ rows) = do r ← ingest_row row; rs ← ingest_rows rows; pure (r ∷ rs)

  -- `ingest_batch`
  unfoldable pub ingest_batch : List BatchIngestItem → Headers → Exec (Intake S L) BatchReply
  ingest_batch items headers = do
    on_store (require_key env.app headers)
    results ← ingest_rows items
    pure (record { accepted = count_accepted results; total = length items; results = results })
