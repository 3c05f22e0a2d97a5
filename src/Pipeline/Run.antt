-- ===== src/Pipeline/Run.antt =====
-- services/triage_pipeline.py: whole runs of `run_triage`.
use mathlib.Core.Path.{subst}
use Prim.Native.Nat.{max}
use cyber_security_alert_tri.Common.{
  ℕ, suc, ◌+◌, ◌≤◌, ◌<◌, Option, none, some, ◌≡◌, refl, ◌∙◌, ap, sym, arith, length, length-append,
  length-map, if_both,
}
use cyber_security_alert_tri.Schema.{
  NormalizedAlert, ExtractedEntities, ToolCallRecord, TriageVerdict, severity_value,
}
use cyber_security_alert_tri.Router.{get_budget}
use cyber_security_alert_tri.Router.Bounds.{get_budget_bounds}
use cyber_security_alert_tri.Router.Count.{length-get_tools_le}
use cyber_security_alert_tri.Enrichment.{Burst, run_burst_enrichment}
use cyber_security_alert_tri.Enrichment.Records.{length-run_burst_enrichment-le}
use cyber_security_alert_tri.Pipeline.State.{TriageState, PipelineEnv, initial_state}
use cyber_security_alert_tri.Pipeline.Nodes.{
  agent_think_node, normalise_alert_node, extract_entities_node, route_tools_node,
  burst_enrichment_node, after_burst, tool_names, first_answer,
}
use cyber_security_alert_tri.Pipeline.Finish.{
  last_calls, execute_tool_node, generate_verdict_node, cancelled_verdict, settle_verdict, settled,
  done_with,
}
use cyber_security_alert_tri.Pipeline.Graph.{
  agent_think, normalise, next_node, run_node, run_graph, run_triage, finish_run, or_fallback,
}
use cyber_security_alert_tri.Pipeline.Loop.{agent_think-ThinkStep, execute_tool-ExecuteStep}
use cyber_security_alert_tri.Pipeline.Termination.{Ends, loop-Ends}

-- The verdict of a final state is about the alert and counts the tool calls of the run.
abbrev pub Concerns : NormalizedAlert → TriageState → Option TriageVerdict → Type 0
Concerns alert s none = ⊥
Concerns alert s (some v) =
    (v.alert_id ≡ alert.alert_id) × (v.total_tool_calls ≡ length s.tools_called)

module _ {W : Type 0} (env : PipelineEnv W) (alert : NormalizedAlert) where
  -- The most tool calls of a run: the budget of the severity, or the nine tools of the largest burst.
  abbrev pub call_limit : ℕ
  call_limit = max (get_budget env.upper (severity_value alert.severity)) 9

  record Running (s : TriageState) : Type 0 where
    same_alert : s.alert ≡ alert
    within : length s.tools_called + s.tool_budget ≤ call_limit

  record Finished (s : TriageState) : Type 0 where
    concerns : Concerns alert s s.verdict
    within : length s.tools_called ≤ call_limit

  think-Running : (s : TriageState) (w : W) → Running s → Running (agent_think_node env s w).0
  think-Running s w h =
      let st = agent_think-ThinkStep env s w in
      record {
        same_alert = st.same_alert ∙ h.same_alert;
        within = omega (arith, h.within, st.budget, ap length st.called);
      }

  execute-Running :
      (s : TriageState) (w : W)
      → Running s
      → 0 < length (last_calls s.messages)
      → length (last_calls s.messages) ≤ s.tool_budget
      → Running (execute_tool_node env s w).0
  execute-Running s w h some_call planned =
      let st = execute_tool-ExecuteStep env s w some_call planned in
      record {
        same_alert = st.same_alert ∙ h.same_alert;
        within = omega (arith, h.within, st.spent);
      }

  done-Finished :
      (s : TriageState) (v : TriageVerdict)
      → Running s
      → v.alert_id ≡ s.alert.alert_id
      → v.total_tool_calls ≡ length s.tools_called
      → Finished (done_with env s v)
  done-Finished s v h same total = record {
    concerns = (same ∙ ap (λ (a : NormalizedAlert). a.alert_id) h.same_alert, total);
    within = omega (arith, h.within);
  }

  settled-Finished :
      (s : TriageState) (r : Option TriageVerdict × W) → Running s → Finished (settled env s r).0
  unfolding settle_verdict
  settled-Finished s (none, w) h = done-Finished s (settle_verdict s none) h refl refl
  settled-Finished s (some v, w) h = done-Finished s (settle_verdict s (some v)) h refl refl

  verdict-Finished :
      (s : TriageState) (w : W) → Running s → Finished (generate_verdict_node env s w).0
  unfolding generate_verdict_node
  verdict-Finished s w h =
      if_both (λ (t : TriageState × W). Finished t.0) s.cancelled
        (done_with env s (cancelled_verdict s), w)
        (settled env s (first_answer (env.verdict_ollama s w) (env.verdict_openai s)))
        (done-Finished s (cancelled_verdict s) h (unfold cancelled_verdict in refl)
          (unfold cancelled_verdict in refl))
        (settled-Finished s (first_answer (env.verdict_ollama s w) (env.verdict_openai s)) h)

  -- The state in which the loop starts.
  abbrev routed : W → TriageState × W
  routed w =
      let (s, w1) = extract_entities_node env (normalise_alert_node (initial_state alert)) w in
      (route_tools_node env s, w1)

  unfoldable pub burst_state : W → TriageState × W
  burst_state w = let (s, w1) = routed w in burst_enrichment_node env s w1

  pub run_graph-burst :
      (f : ℕ) (w : W)
      → let (s, w1) = burst_state w in
        run_graph env (suc (suc (suc (suc f)))) normalise (initial_state alert) w
        ≡ run_graph env f agent_think s w1
  unfolding run_graph next_node run_node burst_state
  run_graph-burst f w = refl

  after_burst-Running :
      (s : TriageState) (entities : ExtractedEntities) (b : Burst)
      → s.alert ≡ alert
      → length s.tools_called ≡ 0
      → s.tool_budget ≡ get_budget env.upper (severity_value alert.severity)
      → length b.records ≤ 9
      → Running (after_burst env s entities b)
  unfolding after_burst
  after_burst-Running s entities b same none_called budget few = record {
    same_alert = same;
    within = omega (
      arith,
      length-append s.tools_called (tool_names b.records),
      length-map (λ (r : ToolCallRecord). r.tool_name) b.records,
    );
  }

  burst-Running : (w : W) → Running (burst_state w).0
  unfolding burst_state burst_enrichment_node extract_entities_node route_tools_node
      normalise_alert_node initial_state
  burst-Running w =
      let (s, w1) = routed w in
      let (entities, w0) = env.extract_entities alert w in
      after_burst-Running s entities
        (run_burst_enrichment env.tools alert entities s.technique_ids w1).0 refl refl refl
        (omega (
          arith,
          length-run_burst_enrichment-le env.tools alert entities s.technique_ids w1,
          length-get_tools_le s.technique_ids,
        ))

  or_fallback-Concerns :
      (s : TriageState) (o : Option TriageVerdict)
      → Concerns alert s o
      → Concerns alert s (some (or_fallback s alert o))
  or_fallback-Concerns s none h = absurd h
  or_fallback-Concerns s (some v) h = h

  finish_run-Finished :
      (r : Option (TriageState × W))
      → Ends Finished r
      → (v : TriageVerdict) × (s : TriageState) × (finish_run alert r ≡ some (v, s))
        × Concerns alert s (some v)
        × (length s.tools_called ≤ call_limit)
  finish_run-Finished none h = absurd h
  finish_run-Finished (some (s, w)) h = (
    or_fallback s alert s.verdict,
    s,
    refl,
    or_fallback-Concerns s s.verdict h.concerns,
    h.within,
  )

  budget_le : (s : TriageState) → Running s → s.tool_budget ≤ 15
  budget_le s h =
      omega (arith, h.within, get_budget_bounds env.upper (severity_value alert.severity))

  pub burst_budget-le : (w : W) → (burst_state w).0.tool_budget ≤ 15
  burst_budget-le w = budget_le (burst_state w).0 (burst-Running w)

  -- Where the graph may run 36 nodes, `run_triage` returns, whatever the models, the tools and the
  -- cancel flag answer: a verdict that carries the alert's id and counts the tool calls of the run,
  -- which are at most the budget of the severity, or the nine tools of the largest burst where that is
  -- more.
  pub run_triage-returns :
      (fuel : ℕ) (w : W)
      → 36 ≤ fuel
      → (v : TriageVerdict) × (s : TriageState) × (run_triage env fuel alert w ≡ some (v, s))
        × Concerns alert s (some v)
        × (length s.tools_called ≤ call_limit)
  unfolding run_triage
  run_triage-returns (suc (suc (suc (suc f)))) w room =
      let (s, w1) = burst_state w in
      let start = burst-Running w in
      finish_run-Finished
        (run_graph env (suc (suc (suc (suc f)))) normalise (initial_state alert) w)
        (subst (Ends Finished) (sym (run_graph-burst f w)) (
          loop-Ends env Running Finished think-Running execute-Running verdict-Finished 15 f s w1
            start (budget_le s start) (omega arith)))
  run_triage-returns _ w room = absurd (omega arith)
