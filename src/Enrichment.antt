-- ===== src/Enrichment.antt =====
-- agents/enrichment_node.py: one tool execution with cache and timeout, and the burst of all the
-- tools that the routing prescribes. The tasks of one `asyncio.gather` are run in their order.
pub mod Params
pub mod Records
mod Tests
use Prim.Native.String.{◌++◌ as ◌+s◌}
use cyber_security_alert_tri.Common.{
  ℕ, String, Bool, true, false, not, ◌&&◌, ◌||◌, Option, none, some, List, [], ◌∷◌, ◌++◌, ◌==◌,
  contains, if◌then◌else◌,
}
use cyber_security_alert_tri.Json.{Json, Fields, obj, str, bool, end, field, get, truthy, is_truthy}
use cyber_security_alert_tri.Schema.{NormalizedAlert, ExtractedEntities, ToolCallRecord}
use cyber_security_alert_tri.Router.{get_tools_for_techniques}
use cyber_security_alert_tri.Router.Bounds.{registered_tools}
use Params.{param_builder}

-- How an awaited connector call ends: `schema_cls(**params)` and the call may raise.
pub data CallOutcome : Type 0 where
  returned : Json → CallOutcome
  timed_out : CallOutcome
  failed : String → CallOutcome

-- What the enrichment uses of the world outside it, over the world's state `W`: the connectors, the
-- context cache, pydantic's check of a record, the CVE pattern, the printing of a result, and
-- the text `Timeout after {timeout_seconds}s`.
pub record ToolEnv (W : Type 0) : Type 0 where
  pub cache_get : String → Json → W → Option Json × W
  pub cache_set : String → Json → Json → W → W
  pub call_tool : String → Json → W → CallOutcome × W
  pub record_error : ToolCallRecord → Option String
  pub cve_search : String → Option String
  pub compress : String → Json → String
  pub timeout_error : String

-- One task of a gather: it finishes with name, result and record, or it raises.
pub data TaskResult : Type 0 where
  finished : String → Json → ToolCallRecord → TaskResult
  raised : String → TaskResult

abbrev unavailable : String → Json
unavailable e = obj (field "source_available" (bool false) (field "error" (str e) end))

-- The `try` round the connector call.
pub result_of : String → CallOutcome → Json
result_of timeout_error (returned r) = r
result_of timeout_error timed_out = unavailable timeout_error
result_of timeout_error (failed e) = unavailable e

abbrev default_true : Option Json → Bool
default_true none = true
default_true (some v) = truthy v

-- `result.get("source_available", True)`
unfoldable pub source_available : Json → Bool
source_available r = default_true (get "source_available" r)

-- `ToolCallRecord(...)` raises where pydantic rejects the fields.
abbrev pub checked : Option String → String → Json → ToolCallRecord → TaskResult
checked none name result rec = finished name result rec
checked (some e) name result rec = raised e

abbrev pub usable : Option Json → Bool
usable none = false
usable (some v) = truthy v

abbrev pub value_or_null : Option Json → Json
value_or_null none = Json.null
value_or_null (some v) = v

-- `enrichment_data` and `records`: a task that raised leaves nothing in them.
pub record Burst : Type 0 where
  pub enrichment_data : List (String × Json)
  pub records : List ToolCallRecord

module _ {W : Type 0} (env : ToolEnv W) where
  open env use {cache_get, cache_set, call_tool, record_error, compress, timeout_error}

  -- `ToolCallRecord(...)` with the fields of a result, and what becomes of the task.
  pub finish : String → Json → Json → String → Bool → Option Json → TaskResult
  finish name params result summary available error =
      let rec : ToolCallRecord = record {
        tool_name = name;
        input_params = params;
        result_summary = summary;
        raw_result = result;
        source_available = available;
        error = error;
      } in
      checked (record_error rec) name result rec

  -- The result is cached when the source was available and reported no error.
  unfoldable pub cacheable : Json → Bool
  cacheable result = source_available result && not (is_truthy (get "error" result))

  -- The record of a tool that the registry lacks.
  pub not_registered : String → Json → TaskResult
  not_registered name params =
      let error = str ("Tool '" +s name +s "' not registered") in
      finish name params (obj (field "error" error (field "source_available" (bool false) end)))
        ("[" +s name +s "] NOT REGISTERED") true (some error)

  -- The call of a registered tool, the write to the cache, and the record.
  pub call_registered : String → Json → W → TaskResult × W
  call_registered name params w =
      let (outcome, w1) = call_tool name params w in
      let result = result_of timeout_error outcome in
      let w2 : W = if cacheable result then cache_set name params result w1 else w1 in
      (
        finish name params result (compress name result) (source_available result)
            (get "error" result),
        w2,
      )

  -- The part after a cache miss.
  pub run_tool : String → Json → W → TaskResult × W
  run_tool name params w =
      if contains name registered_tools
      then call_registered name params w
      else (not_registered name params, w)

  -- `_execute_single_tool`
  pub execute_single_tool : String → Json → W → TaskResult × W
  execute_single_tool name params w =
      let (cached, w1) = cache_get name params w in
      if usable cached
      then (
        finish name params (value_or_null cached)
            (compress name (value_or_null cached) +s " [CACHED]") true none,
        w1,
      )
      else run_tool name params w1

  -- `technique_ids[0] if technique_ids else "T1082"`
  pub primary_technique : List String → String
  primary_technique [] = "T1082"
  primary_technique (tid ∷ ids) = tid

  abbrev apply_builder :
      Option (NormalizedAlert → ExtractedEntities → String → Option Json)
      → NormalizedAlert
      → ExtractedEntities
      → String
      → Option Json
  apply_builder none alert entities tid = none
  apply_builder (some build) alert entities tid = build alert entities tid

  -- The parameters of a task; `none` where the tool has no builder or the builder returns `None`.
  pub task_params : NormalizedAlert → ExtractedEntities → List String → String → Option Json
  task_params alert entities ids tool =
      apply_builder (param_builder env.cve_search tool) alert entities (primary_technique ids)

  abbrev pub collect : TaskResult → Burst → Burst
  collect (finished name result rec) b = record {
    enrichment_data = (name, result) ∷ b.enrichment_data;
    records = rec ∷ b.records;
  }
  collect (raised e) b = b

  abbrev pub run_task : Option Json → String → W → Option TaskResult × W
  run_task none tool w = (none, w)
  run_task (some params) tool w = let (r, w1) = execute_single_tool tool params w in (some r, w1)

  abbrev pub collect_task : Option TaskResult → Burst → Burst
  collect_task none b = b
  collect_task (some r) b = collect r b

  -- The loop over `tool_names`; the names differ, so the dictionary is a list of entries.
  pub burst_loop : NormalizedAlert → ExtractedEntities → List String → List String → W → Burst × W
  burst_loop alert entities ids [] w = (record { enrichment_data = []; records = [] }, w)
  burst_loop alert entities ids (tool ∷ tools) w =
      let (r, w1) = run_task (task_params alert entities ids tool) tool w in
      let (b, w2) = burst_loop alert entities ids tools w1 in (collect_task r b, w2)

  -- `run_burst_enrichment`
  pub run_burst_enrichment : NormalizedAlert → ExtractedEntities → List String → W → Burst × W
  run_burst_enrichment alert entities ids w =
      burst_loop alert entities ids (get_tools_for_techniques ids) w
