-- ===== src/Pipeline/Safety.antt =====
-- services/triage_pipeline.py: runs with the cancel flag up.
use cyber_security_alert_tri.Common.{
  ℕ, suc, ◌≤◌, true, false, some, ◌≡◌, refl, ◌∙◌, ap, arith, length, if◌then◌else◌,
}
use cyber_security_alert_tri.Schema.{NormalizedAlert, TriageVerdict, monitor}
use cyber_security_alert_tri.Pipeline.State.{TriageState, PipelineEnv}
use cyber_security_alert_tri.Pipeline.Nodes.{agent_think_node}
use cyber_security_alert_tri.Pipeline.Finish.{generate_verdict_node, cancelled_verdict, done_with}
use cyber_security_alert_tri.Pipeline.Graph.{
  agent_think, generate_verdict, next_node, run_node, run_graph, run_triage, finish_run,
  should_continue_react, execute_tool,
}
use cyber_security_alert_tri.Pipeline.Loop.{think_step}
use cyber_security_alert_tri.Pipeline.Run.{burst_state, run_graph-burst}

module _ {W : Type 0} (env : PipelineEnv W) where
  abbrev stopped : TriageState → TriageState
  stopped s = record s { cancelled = true; tocontinue = false; tool_budget = 0 }

  agent_think_stopped :
      (s : TriageState) (w : W)
      → (env.is_cancelled s.alert.alert_id w).0 ≡ true
      → agent_think_node env s w ≡ (stopped s, (env.is_cancelled s.alert.alert_id w).1)
  unfolding agent_think_node
  agent_think_stopped s w up = rw up

  stopped_end :
      (f : ℕ) (s : TriageState) (w : W)
      → (if should_continue_react (stopped s)
          then run_graph env (suc f) execute_tool (stopped s) w
          else run_graph env (suc f) generate_verdict (stopped s) w)
        ≡ some (done_with env (stopped s) (cancelled_verdict (stopped s)), w)
  unfolding should_continue_react run_graph next_node run_node generate_verdict_node
  stopped_end f s w = refl

  -- The two nodes that are left when the flag is up.
  cancelled_end :
      (f : ℕ) (s : TriageState) (w : W)
      → (env.is_cancelled s.alert.alert_id w).0 ≡ true
      → run_graph env (suc (suc f)) agent_think s w
        ≡ some (
          done_with env (stopped s) (cancelled_verdict (stopped s)),
          (env.is_cancelled s.alert.alert_id w).1,
        )
  cancelled_end f s w up =
      think_step env (suc f) s w
      ∙ ap
          (λ (t : TriageState × W).
            if should_continue_react t.0
            then run_graph env (suc f) execute_tool t.0 t.1
            else run_graph env (suc f) generate_verdict t.0 t.1)
          (agent_think_stopped s w up)
      ∙ stopped_end f s (env.is_cancelled s.alert.alert_id w).1

  -- Where the cancel flag is up when the loop starts, `run_triage` asks no model and calls no tool
  -- after the burst: it returns the cancelled verdict, for the alert's tenant, with the burst's tools.
  pub run_triage-cancelled :
      (fuel : ℕ) (alert : NormalizedAlert) (w : W)
      → 6 ≤ fuel
      → (env.is_cancelled (burst_state env alert w).0.alert.alert_id (burst_state env alert w).1).0
        ≡ true
      → let s = (burst_state env alert w).0 in
        (v : TriageVerdict) × (t : TriageState) × (run_triage env fuel alert w ≡ some (v, t))
        × (v.status ≡ some "cancelled")
        × (v.tools_called ≡ s.tools_called)
        × (v.total_tool_calls ≡ length s.tools_called)
        × (t.tool_records ≡ s.tool_records)
        × (v.tenant_id ≡ s.alert.tenant_id)
        × (v.escalation ≡ monitor)
  unfolding run_triage cancelled_verdict
  run_triage-cancelled (suc (suc (suc (suc (suc (suc f)))))) alert w room up =
      let (s, w1) = burst_state env alert w in
      (
        cancelled_verdict (stopped s),
        done_with env (stopped s) (cancelled_verdict (stopped s)),
        ap (finish_run alert) (run_graph-burst env alert (suc (suc f)) w ∙ cancelled_end f s w1 up),
        refl,
        refl,
        refl,
        refl,
        refl,
        refl,
      )
  run_triage-cancelled _ alert w room up = absurd (omega arith)
