-- ===== src/Pipeline/Graph.antt =====
-- services/triage_pipeline.py: the conditional edges, the graph, and `run_triage`.
use cyber_security_alert_tri.Common.{
  ℕ, zero, suc, Bool, false, Option, none, some, nat_eq, not, if◌then◌else◌,
}
use cyber_security_alert_tri.Schema.{NormalizedAlert, TriageVerdict}
use cyber_security_alert_tri.Pipeline.State.{TriageState, PipelineEnv, initial_state}
use cyber_security_alert_tri.Pipeline.Nodes.{
  normalise_alert_node, extract_entities_node, route_tools_node, burst_enrichment_node,
  agent_think_node, not_empty,
}
use cyber_security_alert_tri.Pipeline.Finish.{
  last_calls, execute_tool_node, generate_verdict_node, fallback_verdict,
}

-- The nodes of `build_triage_graph`
pub data Node : Type 0 where
  normalise extract_entities route_tools burst_enrichment agent_think execute_tool
        generate_verdict :
      Node

-- `should_continue_react`: true for `"execute"`, false for `"verdict"`.
unfoldable pub should_continue_react : TriageState → Bool
unfolding last_calls
should_continue_react s =
    if nat_eq s.tool_budget 0
    then false
    else if not s.tocontinue
    then false
    else not_empty (last_calls s.messages)

-- `after_execute_tool`: true for `"think"`, false for `"verdict"`.
unfoldable pub after_execute_tool : TriageState → Bool
after_execute_tool s = not (nat_eq s.tool_budget 0)

-- The edges; `none` is `END`.
unfoldable pub next_node : Node → TriageState → Option Node
unfolding should_continue_react after_execute_tool
next_node normalise s = some extract_entities
next_node extract_entities s = some route_tools
next_node route_tools s = some burst_enrichment
next_node burst_enrichment s = some agent_think
next_node agent_think s =
    if should_continue_react s then some execute_tool else some generate_verdict
next_node execute_tool s = if after_execute_tool s then some agent_think else some generate_verdict
next_node generate_verdict s = none

abbrev pub or_fallback : TriageState → NormalizedAlert → Option TriageVerdict → TriageVerdict
or_fallback s alert none = fallback_verdict s alert
or_fallback s alert (some v) = v

abbrev pub finish_run :
    {W : Type 0} → NormalizedAlert → Option (TriageState × W) → Option (TriageVerdict × TriageState)
finish_run alert none = none
finish_run alert (some (s, w)) = some (or_fallback s alert s.verdict, s)

module _ {W : Type 0} (env : PipelineEnv W) where
  unfoldable pub run_node : Node → TriageState → W → TriageState × W
  run_node normalise s w = (normalise_alert_node s, w)
  run_node extract_entities s w = extract_entities_node env s w
  run_node route_tools s w = (route_tools_node env s, w)
  run_node burst_enrichment s w = burst_enrichment_node env s w
  run_node agent_think s w = agent_think_node env s w
  run_node execute_tool s w = execute_tool_node env s w
  run_node generate_verdict s w = generate_verdict_node env s w

  -- The execution of the graph, one node for each unit of fuel. The fuel is LangGraph's recursion
  -- limit, and `none` is the error that LangGraph raises beyond it.
  unfoldable pub run_graph : ℕ → Node → TriageState → W → Option (TriageState × W)
  run_graph zero node s w = none
  run_graph (suc fuel) node s w =
      let (s1, w1) = run_node node s w in
      elim (next_node node s1) [ none ↦ some (s1, w1) | some after ↦ run_graph fuel after s1 w1 ]

  -- `run_triage`, with the final state beside the verdict.
  unfoldable pub run_triage : ℕ → NormalizedAlert → W → Option (TriageVerdict × TriageState)
  unfolding run_graph initial_state
  run_triage fuel alert w = finish_run alert (run_graph fuel normalise (initial_state alert) w)
