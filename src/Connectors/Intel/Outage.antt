-- ===== src/Connectors/Intel/Outage.antt =====
-- agents/tools/threat_intel_tool.py with agents/enrichment_node.py: what a lookup answers where no source can
-- be reached.
use Prim.Native.String.{◌++◌ as ◌+s◌}
use cyber_security_alert_tri.Common.{
  String, Bool, true, false, Option, none, some, List, [], ◌∷◌, ◌++◌, ◌==◌, ◌≡◌, refl, sym, ap, ◌∙◌,
  arith, if_both, if◌then◌else◌,
}
use cyber_security_alert_tri.Json.{Json, Fields, str, obj, get_field, get}
use cyber_security_alert_tri.Effects.{Exec, Result, Exception, ok, raised, continue, ◌>>=◌, pure}
use cyber_security_alert_tri.Ingest.Parsers
use cyber_security_alert_tri.Ingest.Parsers.{get_value, truth}
use cyber_security_alert_tri.Enrichment.{ToolEnv, cacheable, source_available}
use cyber_security_alert_tri.Connectors.{
  Response, Http, Gives, Gives-bind, answering, answering-Gives, append_field, elapsed,
}
use cyber_security_alert_tri.Connectors.Intel.Merge.{
  signal, signals, merge_verdicts, merged, ignored,
}
use cyber_security_alert_tri.Connectors.Intel.{
  ThreatIntelInput, IntelKeys, skipped, query_failed, vt_call, vt_path, query_virustotal,
  query_abuseipdb, otx_call, otx_query, otx_type, query_otx, task, vt_task, abuseipdb_task,
  otx_task, source_results, threat_intel_lookup_async,
}

-- A result of a source that does not know the indicator.
abbrev Quiet : Fields → Type 0
Quiet r = ((v : Json) × (get_field "source" r ≡ some v)) × (truth (get_value "found" r) ≡ false)

abbrev AllQuiet : List Fields → Type 0
AllQuiet [] = Unit
AllQuiet (r ∷ rs) = Quiet r × AllQuiet rs

AllQuiet-append : (rs ss : List Fields) → AllQuiet rs → AllQuiet ss → AllQuiet (rs ++ ss)
AllQuiet-append [] ss h k = k
AllQuiet-append (r ∷ rs) ss (q, h) k = (q, AllQuiet-append rs ss h k)

ok_injective : {x y : Fields} → ◌≡◌ {A = Result Fields} (ok x) (ok y) → x ≡ y
ok_injective h = grind arith

-- No request is answered.
pub record Unreachable {S : Type 0} (http : Http S) : Type 0 where
  pub connects : (s : S) → (http.connect s).0 ≡ ok tt
  pub fails :
      (verb url : String) (headers : Fields) (body : Json) (s : S)
      → (e : Exception) × ((http.request verb url headers body s).0 ≡ raised e)

module _ {S : Type 0} (http : Http S) (down : Unreachable http) where
  -- What a request is needed for, is not answered.
  unanswered :
      (verb url : String) (headers : Fields) (body : Json) (k : Response → Exec S Fields) (s : S)
      (fs : Fields)
      → ((http.request verb url headers body >>= k) s).0 ≡ ok fs
      → Quiet fs
  unanswered verb url headers body k s fs h =
      let (e, failed) = down.fails verb url headers body s in
      absurd (
        ground (
          arith,
          sym h ∙ ap (λ r. (continue r k (http.request verb url headers body s).1).0) failed,
        ))

  Quiet-query_failed :
      (source ioc : String) (e : Exception) → Quiet (query_failed http source ioc e)
  unfolding get_field
  Quiet-query_failed source ioc e = ((str source, refl), refl)

  Quiet-skipped :
      (source reason : String) → Gives Quiet (λ (s : S). (ok (skipped source reason), s))
  unfolding get_field
  Quiet-skipped source reason s = (skipped source reason, refl, ((str source, refl), refl))

  -- A query with a key: unless it is skipped, it needs a request.
  keyed-Quiet :
      (source ioc key : String) (m : Exec S Fields)
      → ((s : S) (fs : Fields) → (m s).0 ≡ ok fs → Quiet fs)
      → Gives Quiet (
          if key == ""
          then (λ s. (ok (skipped source "no_api_key"), s))
          else answering m (query_failed http source ioc))
  keyed-Quiet source ioc key m h =
      if_both (Gives Quiet) (key == "") _ _ (Quiet-skipped source "no_api_key")
        (answering-Gives Quiet m (query_failed http source ioc) h (Quiet-query_failed source ioc))

  vt_call-Quiet :
      (ioc key : String) (path : Option String) (s : S) (fs : Fields)
      → (vt_call http ioc key path s).0 ≡ ok fs
      → Quiet fs
  unfolding get_field
  vt_call-Quiet ioc key none s fs h =
      let same : skipped "virustotal" "unsupported_type" ≡ fs = ok_injective h in
      simp (sym same) ((str "virustotal", refl), refl)
  vt_call-Quiet ioc key (some path) s fs h = unanswered _ _ _ _ _ s fs h

  query_virustotal-Quiet : (t ioc key : String) → Gives Quiet (query_virustotal http t ioc key)
  unfolding query_virustotal
  query_virustotal-Quiet t ioc key =
      keyed-Quiet "virustotal" ioc key _ (vt_call-Quiet ioc key (vt_path http t ioc))

  query_abuseipdb-Quiet : (ioc key : String) → Gives Quiet (query_abuseipdb http ioc key)
  unfolding query_abuseipdb
  query_abuseipdb-Quiet ioc key =
      keyed-Quiet "abuseipdb" ioc key _ (λ s fs h. unanswered _ _ _ _ _ s fs h)

  otx_query-Quiet :
      (kind : Option String) (ioc key : String) → Gives Quiet (otx_query http kind ioc key)
  otx_query-Quiet none ioc key = Quiet-skipped "otx" "unsupported_type"
  otx_query-Quiet (some kind) ioc key =
      answering-Gives Quiet (otx_call http kind ioc key) (query_failed http "otx" ioc)
        (λ s fs h. unanswered _ _ _ _ _ s fs h) (Quiet-query_failed "otx" ioc)

  query_otx-Quiet : (t ioc key : String) → Gives Quiet (query_otx http t ioc key)
  unfolding query_otx
  query_otx-Quiet t ioc key =
      if_both (Gives Quiet) (key == "") _ _ (Quiet-skipped "otx" "no_api_key")
        (otx_query-Quiet (otx_type t) ioc key)

  task-AllQuiet : (b : Bool) (m : Exec S Fields) → Gives Quiet m → Gives AllQuiet (task http b m)
  task-AllQuiet true m h = Gives-bind Quiet AllQuiet m _ h (λ r q s. (r ∷ [], refl, (q, tt)))
  task-AllQuiet false m h = λ s. ([], refl, tt)

  source_results-AllQuiet :
      (params : ThreatIntelInput) (keys : IntelKeys)
      → Gives AllQuiet (source_results http params keys)
  unfolding source_results
  source_results-AllQuiet params keys =
      Gives-bind AllQuiet AllQuiet (vt_task http params keys) _
        (task-AllQuiet _
          (query_virustotal http params.ioc_type params.ioc_value keys.virustotal_api_key)
          (query_virustotal-Quiet _ _ _))
        (λ vt hv.
          Gives-bind AllQuiet AllQuiet (abuseipdb_task http params keys)
            (λ abuse. otx_task http params keys >>= λ otx. pure (vt ++ abuse ++ otx))
            (task-AllQuiet _ (query_abuseipdb http params.ioc_value keys.abuseipdb_api_key)
              (query_abuseipdb-Quiet _ _))
            (λ abuse ha.
              Gives-bind AllQuiet AllQuiet (otx_task http params keys)
                (λ otx. pure (vt ++ abuse ++ otx))
                (task-AllQuiet _ (query_otx http params.ioc_type params.ioc_value keys.otx_api_key)
                  (query_otx-Quiet _ _ _))
                (λ otx ho s. (
                  vt ++ abuse ++ otx,
                  refl,
                  AllQuiet-append (vt ++ abuse) otx (AllQuiet-append vt abuse hv ha) ho,
                ))))

  signal-Quiet : (r : Fields) → Quiet r → (d : List String) × (signal http r ≡ ok (0, d))
  unfolding signal Parsers.◌>>=◌
  signal-Quiet r ((v, source), found) =
      if_both (λ x. (d : List String) × (x ≡ ok (0, d))) (ignored r) (ok (0, [])) _ ([], refl)
        (rw (source, found) ((http.show v +s ": not found") ∷ [], refl))

  signals-AllQuiet :
      (rs : List Fields) → AllQuiet rs → (d : List String) × (signals http rs ≡ ok (0, d))
  unfolding signals Parsers.◌>>=◌
  signals-AllQuiet [] h = ([], refl)
  signals-AllQuiet (r ∷ rs) (q, h) =
      let (d, e) = signal-Quiet r q in
      let (ds, es) = signals-AllQuiet rs h in rw (e, es) (d ++ ds, refl)

  -- What is answered for quiet results, with the time that is added.
  quiet_answer :
      {W : Type 0} (env : ToolEnv W) (rs : List Fields) (ioc : String) (d : List String) (t : Json)
      → (get_field "verdict" (append_field "elapsed_ms" t (merged rs ioc (0, d)))
          ≡ some (str "CLEAN"))
        × (cacheable env (obj (append_field "elapsed_ms" t (merged rs ioc (0, d)))) ≡ true)
  unfolding append_field get_field get cacheable source_available
  quiet_answer env rs ioc d t = (refl, refl)

  -- Where no request is answered, a lookup never raises, its verdict is CLEAN for every indicator, and the
  -- enrichment caches it as a result of a source that was available.
  pub threat_intel_lookup_async-outage :
      {W : Type 0} (env : ToolEnv W) (params : ThreatIntelInput) (keys : IntelKeys) (s : S)
      → (answer : Fields) × ((threat_intel_lookup_async http params keys s).0 ≡ ok answer)
        × (get_field "verdict" answer ≡ some (str "CLEAN"))
        × (cacheable env (obj answer) ≡ true)
  unfolding threat_intel_lookup_async merge_verdicts Parsers.◌>>=◌
  threat_intel_lookup_async-outage env params keys s =
      let s1 = (http.clock s).1 in
      let s2 = (http.connect s1).1 in
      let (rs, e, q) = source_results-AllQuiet params keys s2 in
      let (d, es) = signals-AllQuiet rs q in
      let t : Json =
        elapsed (http.clock s).0 (http.clock (source_results http params keys s2).1).0 in
      (
        append_field "elapsed_ms" t (merged rs params.ioc_value (0, d)),
        rw (down.connects s1, e, es) refl,
        (quiet_answer env rs params.ioc_value d t).0,
        (quiet_answer env rs params.ioc_value d t).1,
      )
