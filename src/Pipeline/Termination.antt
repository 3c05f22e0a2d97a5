-- ===== src/Pipeline/Termination.antt =====
-- services/triage_pipeline.py: the loop of `agent_think` and `execute_tool`.
use mathlib.Core.Path.{subst}
use cyber_security_alert_tri.Common.{
  ℕ, zero, suc, ◌+◌, ◌≤◌, ◌<◌, Bool, true, false, Option, none, some, ◌≡◌, refl, sym, arith, length,
  if◌then◌else◌,
}
use cyber_security_alert_tri.Pipeline.State.{TriageState, PipelineEnv}
use cyber_security_alert_tri.Pipeline.Nodes.{agent_think_node}
use cyber_security_alert_tri.Pipeline.Finish.{last_calls, execute_tool_node, generate_verdict_node}
use cyber_security_alert_tri.Pipeline.Graph.{
  agent_think, execute_tool, generate_verdict, next_node, should_continue_react, after_execute_tool,
  run_node, run_graph,
}
use cyber_security_alert_tri.Pipeline.Loop.{
  agent_think-ThinkStep, execute_tool-ExecuteStep, think_step, execute_step,
}

-- The run ended, in a state with the property.
abbrev pub Ends : {W : Type 0} → (TriageState → Type 0) → Option (TriageState × W) → Type 0
Ends P none = ⊥
Ends P (some (s, w)) = P s

Ends-if :
    {W : Type 0} (P : TriageState → Type 0) (b : Bool) (x y : Option (TriageState × W))
    → (b ≡ true → Ends P x)
    → (b ≡ false → Ends P y)
    → Ends P (if b then x else y)
Ends-if P true x y hx hy = hx refl
Ends-if P false x y hx hy = hy refl

-- What is true at `agent_think`, kept by both nodes of the loop, gives what is true at the end.
module _ {W : Type 0} (env : PipelineEnv W) (P Q : TriageState → Type 0)
    (think : (s : TriageState) (w : W) → P s → P (agent_think_node env s w).0)
    (execute : (s : TriageState) (w : W)
      → P s
      → 0 < length (last_calls s.messages)
      → length (last_calls s.messages) ≤ s.tool_budget
      → P (execute_tool_node env s w).0)
    (verdict : (s : TriageState) (w : W) → P s → Q (generate_verdict_node env s w).0) where
  verdict-Ends :
      (f : ℕ) (s : TriageState) (w : W)
      → 0 < f
      → P s
      → Ends Q (run_graph env f generate_verdict s w)
  unfolding run_graph next_node run_node
  verdict-Ends zero s w room h = absurd (omega arith)
  verdict-Ends (suc f) s w room h = verdict s w h

  -- Two nodes for each call that the budget allows, and two more.
  pub loop-Ends :
      (b f : ℕ) (s : TriageState) (w : W)
      → P s
      → s.tool_budget ≤ b
      → b + b + 2 ≤ f
      → Ends Q (run_graph env f agent_think s w)
  loop-Ends b zero s w h k room = absurd (omega arith)
  loop-Ends b (suc zero) s w h k room = absurd (omega arith)
  loop-Ends zero (suc (suc g)) s w h k room =
      let (t, w1) = agent_think_node env s w in
      let st = agent_think-ThinkStep env s w in
      subst (Ends Q) (sym (think_step env (suc g) s w)) (
        Ends-if Q (should_continue_react t) (run_graph env (suc g) execute_tool t w1)
          (run_graph env (suc g) generate_verdict t w1)
          (λ go. absurd (omega (arith, st.budget, st.planned go, st.some_call go)))
          (λ _. verdict-Ends (suc g) t w1 (omega arith) (think s w h)))
  loop-Ends (suc b) (suc (suc g)) s w h k room =
      let (t, w1) = agent_think_node env s w in
      let st = agent_think-ThinkStep env s w in
      let (u, w2) = execute_tool_node env t w1 in
      subst (Ends Q) (sym (think_step env (suc g) s w)) (
        Ends-if Q (should_continue_react t) (run_graph env (suc g) execute_tool t w1)
          (run_graph env (suc g) generate_verdict t w1)
          (λ go.
            let ex = execute_tool-ExecuteStep env t w1 (st.some_call go) (st.planned go) in
            let pu = execute t w1 (think s w h) (st.some_call go) (st.planned go) in
            subst (Ends Q) (sym (execute_step env g t w1)) (
              Ends-if Q (after_execute_tool u) (run_graph env g agent_think u w2)
                (run_graph env g generate_verdict u w2)
                (λ _. loop-Ends b g u w2 pu (omega (arith, st.budget, ex.budget)) (omega arith))
                (λ _. verdict-Ends g u w2 (omega arith) pu)))
          (λ _. verdict-Ends (suc g) t w1 (omega arith) (think s w h)))
