-- ===== src/Connectors/Intel/Merge.antt =====
-- agents/tools/threat_intel_tool.py: `_merge_verdicts`.
pub mod Signals
use Prim.Native.String.{◌++◌ as ◌+s◌}
use cyber_security_alert_tri.Common.{
  ℕ, zero, suc, ◌+◌, String, Bool, true, false, ◌||◌, not, Option, none, some, List, [], ◌∷◌, ◌++◌,
  ◌==◌, leb, if◌then◌else◌,
}
use cyber_security_alert_tri.Json.{
  Json, Items, Fields, bool, int, negative, float, str, arr, obj, nil, cons, end, field, get_field,
}
use cyber_security_alert_tri.Effects.{Result, ok, raised, type_error, key_error}
use cyber_security_alert_tri.Connectors.{Http}
use cyber_security_alert_tri.Ingest.Parsers.{◌>>=◌, get_or, get_value, truth}

-- `v >= n`; `float_ge` compares a float.
abbrev pub at_least : (String → ℕ → Bool) → Json → ℕ → Result Bool
at_least float_ge (int m) n = ok (leb n m)
at_least float_ge (negative m) n = ok (leb (n + m) 0)
at_least float_ge (bool true) n = ok (leb n 1)
at_least float_ge (bool false) n = ok (leb n 0)
at_least float_ge (float s) n = ok (float_ge s n)
at_least float_ge v n = raised type_error

-- `2 if v >= hi else 1 if v >= lo else 0`
unfoldable pub graded : (String → ℕ → Bool) → Json → ℕ → ℕ → Result ℕ
graded float_ge v hi lo = do
  strong ← at_least float_ge v hi
  if strong then ok 2 else (do weak ← at_least float_ge v lo; ok (if weak then 1 else 0))

-- `r["source"]`
abbrev pub item : Option Json → Result Json
item none = raised key_error
item (some v) = ok v

abbrev pub is_text : String → Json → Bool
is_text t (str s) = s == t
is_text t v = false

abbrev pub ignored : Fields → Bool
ignored r = truth (get_value "skipped" r) || truth (get_value "error" r)

-- `" | ".join(details)`
unfoldable pub joined : List String → String
joined [] = ""
joined (d ∷ []) = d
joined (d ∷ ds) = d +s " | " +s joined ds

abbrev pub verdict_of : ℕ → String
verdict_of n =
    if leb 4 n
    then "CONFIRMED_MALICIOUS"
    else if leb 2 n
    then "SUSPICIOUS"
    else if leb 1 n
    then "LOW_RISK"
    else "CLEAN"

abbrev pub objects : List Fields → Items
objects [] = nil
objects (r ∷ rs) = cons (obj r) (objects rs)

-- `" | ".join(details) or "No data from any source"`
abbrev pub detail_of : String → String
detail_of d = if d == "" then "No data from any source" else d

-- The dictionary that is returned.
abbrev pub merged : List Fields → String → ℕ × List String → Fields
merged results ioc (count, details) = field "ioc" (str ioc) (
    field "verdict" (str (verdict_of count)) (
      field "malicious_signal_count" (int count) (
        field "detail" (str (detail_of (joined details)))
          (field "raw_sources" (arr (objects results)) end))))

module _ {S : Type 0} (http : Http S) where
  abbrev pub with_detail : String → Result ℕ → Result (ℕ × List String)
  with_detail detail (ok n) = ok (n, detail ∷ [])
  with_detail detail (raised e) = raised e

  -- What a result of a known source adds to the signals and to the details.
  abbrev pub source_signal : Json → Fields → Result (ℕ × List String)
  source_signal source r =
      if is_text "virustotal" source
      then with_detail
          ("VT: "
            +s http.show (get_or "malicious_votes" (int 0) r)
            +s "/"
            +s http.show (get_or "total_engines" (int 1) r)
            +s " engines flagged")
          (graded http.float_ge (get_or "malicious_votes" (int 0) r) 3 1)
      else if is_text "abuseipdb" source
      then with_detail
          ("AbuseIPDB: "
            +s http.show (get_or "abuse_confidence_score" (int 0) r)
            +s "% confidence, "
            +s http.show (get_value "total_reports" r)
            +s " reports")
          (graded http.float_ge (get_or "abuse_confidence_score" (int 0) r) 80 30)
      else if is_text "otx" source
      then with_detail ("OTX: " +s http.show (get_or "pulse_count" (int 0) r) +s " threat pulses")
          (graded http.float_ge (get_or "pulse_count" (int 0) r) 5 1)
      else ok (0, [])

  -- One round of the loop over the results.
  unfoldable pub signal : Fields → Result (ℕ × List String)
  signal r = if ignored r then ok (0, []) else (do
    source ← item (get_field "source" r)
    if not (truth (get_value "found" r))
        then ok (0, (http.show source +s ": not found") ∷ [])
        else source_signal source r)

  -- The loop: `malicious_signals` and `details`.
  unfoldable pub signals : List Fields → Result (ℕ × List String)
  signals [] = ok (0, [])
  signals (r ∷ rs) = do
    first ← signal r
    rest ← signals rs
    ok (first.0 + rest.0, first.1 ++ rest.1)

  -- `_merge_verdicts`
  unfoldable pub merge_verdicts : List Fields → String → Result Fields
  merge_verdicts results ioc = do total ← signals results; ok (merged results ioc total)
