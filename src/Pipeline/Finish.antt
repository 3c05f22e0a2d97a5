-- ===== src/Pipeline/Finish.antt =====
-- services/triage_pipeline.py: `execute_tool`, `generate_verdict` and the fallback verdict.
use Prim.Native.String.{◌++◌ as ◌+s◌}
use cyber_security_alert_tri.Common.{
  ◌-◌, String, true, Option, none, some, List, [], ◌∷◌, ◌++◌, ◌==◌, contains, length, take,
  if◌then◌else◌,
}
use cyber_security_alert_tri.Schema.{NormalizedAlert, TriageVerdict, monitor}
use cyber_security_alert_tri.Enrichment.{TaskResult, finished, raised, execute_single_tool}
use cyber_security_alert_tri.Pipeline.State.{
  TriageState, PipelineEnv, Message, ToolCall, Phase, ai, tool,
}
use cyber_security_alert_tri.Pipeline.Nodes.{first_answer}

-- `new_enrichment[tool_name] = compressed`: a key that is there keeps its place.
unfoldable pub dict_set {ℓ} : {V : Type ℓ} → String → V → List (String × V) → List (String × V)
dict_set k v [] = (k, v) ∷ []
dict_set k v ((j, u) ∷ m) = if j == k then (k, v) ∷ m else (j, u) ∷ dict_set k v m

-- The tool calls of the last message; a human or tool message has none.
abbrev pub calls_of : Message → List ToolCall
calls_of (ai content calls) = calls
calls_of _ = []

unfoldable pub last_calls : List Message → List ToolCall
last_calls [] = []
last_calls (m ∷ []) = calls_of m
last_calls (m ∷ n ∷ ms) = last_calls (n ∷ ms)

-- `list(set(xs))`. Python leaves the order open; the model keeps the last occurrence of each name.
pub list_of_set : List String → List String
list_of_set [] = []
list_of_set (x ∷ xs) = let rest = list_of_set xs in if contains x xs then rest else x ∷ rest

-- `_fallback_verdict`; a confidence of 0.3 is 30 hundredths.
unfoldable pub fallback_verdict : TriageState → NormalizedAlert → TriageVerdict
unfolding list_of_set
fallback_verdict s alert = record {
  alert_id = alert.alert_id;
  tenant_id = none;
  status = none;
  severity = s.severity;
  mitre_assessments = take 3 s.technique_ids;
  immediate_actions =
      "Review alert manually" ∷ "Check enrichment data in pipeline logs"
      ∷ "Escalate to senior analyst if uncertain" ∷ [];
  escalation = monitor;
  total_tool_calls = length s.tools_called;
  tools_called = list_of_set s.tools_called;
  analyst_confidence = 30;
  false_positive_probability = 50;
}

-- The verdict of a cancelled run, which asks no model. 80 and 10 are the schema's defaults.
unfoldable pub cancelled_verdict : TriageState → TriageVerdict
cancelled_verdict s = record {
  alert_id = s.alert.alert_id;
  tenant_id = s.alert.tenant_id;
  status = some "cancelled";
  severity = s.alert.severity;
  mitre_assessments = [];
  immediate_actions = [];
  escalation = monitor;
  total_tool_calls = length s.tools_called;
  tools_called = s.tools_called;
  analyst_confidence = 80;
  false_positive_probability = 10;
}

-- The model's verdict with the pipeline's own metadata, or the fallback.
unfoldable pub settle_verdict : TriageState → Option TriageVerdict → TriageVerdict
unfolding list_of_set fallback_verdict
settle_verdict s none = fallback_verdict s s.alert
settle_verdict s (some v) = record v {
  alert_id = s.alert.alert_id;
  total_tool_calls = length s.tools_called;
  tools_called = list_of_set s.tools_called;
}

module _ {W : Type 0} (env : PipelineEnv W) where
  open env use {is_cancelled, verdict_ollama, verdict_openai}

  -- One task of the gather in `execute_tool_node`, with its result and the default timeout.
  unfoldable pub run_call : ToolCall → W → TaskResult × W
  run_call tc w =
      execute_single_tool (record env.tools { timeout_error = "Timeout after 30s" }) tc.name tc.args
        w

  -- The body of the loop over `zip(tool_calls, results)`; `calls_executed` is the last argument of
  -- the loop.
  unfoldable pub note_result : ToolCall → TaskResult → TriageState → TriageState
  unfolding dict_set
  note_result tc (raised e) s = record s {
    messages = s.messages ++ tool ("[" +s tc.name +s "] Error: " +s e) tc.id tc.name ∷ [];
    tools_called = s.tools_called ++ tc.name ∷ [];
  }
  note_result tc (finished name raw rec) s =
      let compressed = env.tools.compress tc.name raw in
      record s {
        messages = s.messages ++ tool compressed tc.id tc.name ∷ [];
        enrichment_data = dict_set tc.name compressed s.enrichment_data;
        tools_called = s.tools_called ++ tc.name ∷ [];
        tool_records = s.tool_records ++ rec ∷ [];
      }

  -- The gather and the loop over its results, with the number of calls executed.
  unfoldable pub execute_loop : List ToolCall → TriageState → W → TriageState × W
  execute_loop [] s w = (s, w)
  execute_loop (tc ∷ tcs) s w =
      let (res, w1) = run_call tc w in execute_loop tcs (note_result tc res s) w1

  -- `new_budget = state["tool_budget"] - calls_executed`
  unfoldable pub execute_calls : List ToolCall → TriageState → W → TriageState × W
  execute_calls [] s w = (record s { tool_budget = 0 }, w)
  execute_calls (tc ∷ tcs) s w =
      let (s1, w1) = execute_loop (tc ∷ tcs) s w in
      (record s1 { tool_budget = s.tool_budget - length (tc ∷ tcs) }, w1)

  -- `execute_tool_node`
  unfoldable pub execute_tool_node : TriageState → W → TriageState × W
  unfolding last_calls
  execute_tool_node s w =
      let (stop, w1) = is_cancelled s.alert.alert_id w in
      let executed = execute_calls (last_calls s.messages) s w1 in
      if stop then (record s { cancelled = true; tool_budget = 0 }, w1) else executed

  abbrev pub done_with : TriageState → TriageVerdict → TriageState
  done_with s v = record s { verdict = some v; phase = Phase.done }

  abbrev pub settled : TriageState → Option TriageVerdict × W → TriageState × W
  settled s (v, w) = (done_with s (settle_verdict s v), w)

  -- `generate_verdict_node`
  unfoldable pub generate_verdict_node : TriageState → W → TriageState × W
  unfolding cancelled_verdict settle_verdict
  generate_verdict_node s w =
      let answered = settled s (first_answer (verdict_ollama s w) (verdict_openai s)) in
      if s.cancelled then (done_with s (cancelled_verdict s), w) else answered
