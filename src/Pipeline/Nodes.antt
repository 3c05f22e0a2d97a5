-- ===== src/Pipeline/Nodes.antt =====
-- services/triage_pipeline.py: the nodes before the ReAct loop, and `agent_think`.
use cyber_security_alert_tri.Common.{
  ◌-◌, String, Bool, true, false, ◌&&◌, Option, none, some, List, [], ◌∷◌, ◌++◌, ◌==◌, map,
  contains, length, take, ltb, if◌then◌else◌,
}
use cyber_security_alert_tri.Ingest.Texts.{is_blank}
use cyber_security_alert_tri.Json.{Json, obj, end, is_obj}
use cyber_security_alert_tri.Schema.{
  ExtractedEntities, ToolCallRecord, AgentThinkToolPlan, AgentThinkResponse, severity_value,
}
use cyber_security_alert_tri.Router.{get_budget}
use cyber_security_alert_tri.Enrichment.{Burst, run_burst_enrichment}
use cyber_security_alert_tri.Enrichment.Params.{nonempty}
use cyber_security_alert_tri.Pipeline.State.{TriageState, PipelineEnv, ToolCall, Phase, human, ai}

-- `normalise_alert_node`
unfoldable pub normalise_alert_node : TriageState → TriageState
normalise_alert_node s = record s {
  severity = s.alert.severity;
  phase = Phase.extract;
  error = none;
}

-- `alert.mitre_technique and alert.mitre_technique not in technique_ids`, put in front.
abbrev pub merge_technique : Option String → List String → List String
merge_technique none ids = ids
merge_technique (some t) ids = if contains t ids then ids else t ∷ ids

-- `technique_ids or ["T1082"]`
abbrev pub or_default : List String → List String
or_default [] = "T1082" ∷ []
or_default (tid ∷ ids) = tid ∷ ids

-- `_REACT_TOOL_NAMES`
abbrev pub react_tool_names : List String
react_tool_names =
    "query_splunk" ∷ "query_crowdstrike" ∷ "lookup_threat_intel" ∷ "query_aws" ∷ "query_cmdb"
    ∷ "query_netflow" ∷ "query_dns_logs" ∷ "query_backup_systems" ∷ []

-- `if plan.name not in _REACT_TOOL_NAMES: continue`
unfoldable pub known_plans : List AgentThinkToolPlan → List AgentThinkToolPlan
known_plans [] = []
known_plans (p ∷ ps) =
    let rest = known_plans ps in if contains p.name react_tool_names then p ∷ rest else rest

abbrev dict_or_empty : Option Json → Json
dict_or_empty none = obj end
dict_or_empty (some v) = if is_obj v then v else obj end

-- `_parse_agent_think_arguments`. `json_loads` gives `none` for a `JSONDecodeError`, the only exception that
-- is caught here; texts on which `json.loads` raises another one (nesting beyond the recursion limit, an
-- integer beyond the limit of digits) are left out.
unfoldable pub parse_agent_think_arguments : (String → Option Json) → String → Json
parse_agent_think_arguments json_loads raw =
    if is_blank raw then obj end else dict_or_empty (json_loads raw)

abbrev pub tool_names : List ToolCallRecord → List String
tool_names = map (λ r. r.tool_name)

abbrev pub not_empty {ℓ} : {A : Type ℓ} → List A → Bool
not_empty [] = false
not_empty (x ∷ xs) = true

-- The content of the message: the model's reasoning, or a default.
abbrev pub content_of : String → Bool → String
content_of reasoning can_execute =
    if reasoning == ""
    then (if can_execute
        then "Planning further tool calls."
        else "Stopping ReAct; sufficient context for verdict.")
    else reasoning

-- The answer of the local model, else that of the cloud fallback.
abbrev pub first_answer {ℓ} :
    {W : Type 0} {A : Type ℓ} → Option A × W → (W → Option A × W) → Option A × W
first_answer (some a, w) next = (some a, w)
first_answer (none, w) next = next w

module _ {W : Type 0} (env : PipelineEnv W) where
  open env use {json_loads, call_id, is_cancelled, think_ollama, think_openai}

  -- `extract_entities_node`; the extractor's own fallback is inside `env.extract_entities`.
  unfoldable pub extract_entities_node : TriageState → W → TriageState × W
  extract_entities_node s w =
      let (entities, w1) = env.extract_entities s.alert w in
      let ids = merge_technique (nonempty s.alert.mitre_technique) entities.techniques in
      (
        record s { entities = some entities; technique_ids = or_default ids; phase = Phase.route },
        w1,
      )

  -- `route_tools_node`
  unfoldable pub route_tools_node : TriageState → TriageState
  route_tools_node s = record s {
    tool_budget = get_budget env.upper (severity_value s.severity);
    phase = Phase.burst;
  }

  abbrev pub compress_entry : String × Json → String × String
  compress_entry (name, raw) = (name, env.tools.compress name raw)

  -- The part of `burst_enrichment_node` after the tools have run; `max(0, budget - used)` is the
  -- truncated difference.
  unfoldable pub after_burst : TriageState → ExtractedEntities → Burst → TriageState
  after_burst s entities b =
      let compressed = map compress_entry b.enrichment_data in
      let new_budget = s.tool_budget - length b.records in
      record s {
        enrichment_data = compressed;
        tool_records = s.tool_records ++ b.records;
        tools_called = s.tools_called ++ tool_names b.records;
        tool_budget = new_budget;
        messages = human s.alert s.severity entities compressed new_budget ∷ [];
        phase = Phase.react;
      }

  abbrev pub burst_with : TriageState → Option ExtractedEntities → W → TriageState × W
  burst_with s none w = (s, w)
  burst_with s (some entities) w =
      let (b, w1) = run_burst_enrichment env.tools s.alert entities s.technique_ids w in
      (after_burst s entities b, w1)

  -- `burst_enrichment_node`; `extract_entities` has always set the entities before it.
  unfoldable pub burst_enrichment_node : TriageState → W → TriageState × W
  burst_enrichment_node s w = burst_with s s.entities w

  -- The tool calls of the plans, each with a fresh id.
  unfoldable pub tool_calls_of : List AgentThinkToolPlan → W → List ToolCall × W
  tool_calls_of [] w = ([], w)
  tool_calls_of (p ∷ ps) w =
      let (i, w1) = call_id w in
      let (calls, w2) = tool_calls_of ps w1 in
      (
        record { name = p.name; args = parse_agent_think_arguments json_loads p.arguments; id = i }
            ∷ calls,
        w2,
      )

  -- The part of `agent_think_node` after an answer of the model.
  unfoldable pub after_answer : TriageState → AgentThinkResponse → W → TriageState × W
  after_answer s out w =
      let valid_plans = take s.tool_budget (known_plans out.planned_tools) in
      let can_execute = out.tocontinue && (ltb 0 s.tool_budget && not_empty valid_plans) in
      let (tool_calls, w1) = tool_calls_of (if can_execute then valid_plans else []) w in
      (
        record s {
          messages = s.messages ++ ai (content_of out.reasoning can_execute) tool_calls ∷ [];
          tocontinue = out.tocontinue;
        },
        w1,
      )

  -- Both providers failed.
  unfoldable pub no_answer : TriageState → TriageState
  no_answer s = record s {
    messages =
        s.messages ++ ai "LLM unavailable. Generating verdict from burst enrichment." [] ∷ [];
    tool_budget = 0;
    tocontinue = false;
  }

  abbrev pub think_with : TriageState → Option AgentThinkResponse × W → TriageState × W
  think_with s (none, w) = (no_answer s, w)
  think_with s (some out, w) = after_answer s out w

  -- `agent_think_node`
  unfoldable pub agent_think_node : TriageState → W → TriageState × W
  agent_think_node s w =
      let (stop, w1) = is_cancelled s.alert.alert_id w in
      let answered = think_with s (first_answer (think_ollama s w1) (think_openai s)) in
      if stop
      then (record s { cancelled = true; tocontinue = false; tool_budget = 0 }, w1)
      else answered
