-- ===== src/Pipeline/Loop.antt =====
-- services/triage_pipeline.py: one pass of `agent_think` and one of `execute_tool`.
use cyber_security_alert_tri.Common.{
  ℕ, suc, ◌+◌, ◌≤◌, ◌<◌, Bool, true, false, Option, none, some, List, [], ◌∷◌, ◌++◌, ◌≡◌, refl, ◌∙◌,
  ap, arith, length, length-append, length-take-le, take, if_both, ltb, ◌&&◌, if◌then◌else◌,
}
use cyber_security_alert_tri.Schema.{AgentThinkToolPlan, AgentThinkResponse}
use cyber_security_alert_tri.Enrichment.{TaskResult, finished, raised}
use cyber_security_alert_tri.Pipeline.State.{TriageState, PipelineEnv, Message, ToolCall, ai}
use cyber_security_alert_tri.Pipeline.Nodes.{
  agent_think_node, after_answer, no_answer, tool_calls_of, known_plans, first_answer, content_of,
  think_with, not_empty,
}
use cyber_security_alert_tri.Pipeline.Finish.{
  last_calls, calls_of, execute_tool_node, execute_calls, execute_loop, note_result, run_call,
}
use cyber_security_alert_tri.Pipeline.Graph.{
  agent_think, execute_tool, generate_verdict, next_node, should_continue_react, after_execute_tool,
  run_node, run_graph,
}

pub last_calls-append : (ms : List Message) (m : Message) → last_calls (ms ++ m ∷ []) ≡ calls_of m
unfolding last_calls
last_calls-append [] m = refl
last_calls-append (n ∷ []) m = refl
last_calls-append (n ∷ k ∷ ms) m = last_calls-append (k ∷ ms) m

module _ {W : Type 0} (env : PipelineEnv W) where
  length-tool_calls_of :
      (ps : List AgentThinkToolPlan) (w : W) → length (tool_calls_of env ps w).0 ≡ length ps
  unfolding tool_calls_of
  length-tool_calls_of [] w = refl
  length-tool_calls_of (p ∷ ps) w = ap suc (length-tool_calls_of ps (env.call_id w).1)

  -- What one pass of `agent_think` leaves: it spends nothing, calls nothing, and where the graph goes
  -- on to `execute_tool` the last message asks for at most the budget's number of calls.
  pub record ThinkStep (s t : TriageState) : Type 0 where
    pub budget : t.tool_budget ≤ s.tool_budget
    pub called : t.tools_called ≡ s.tools_called
    pub same_alert : t.alert ≡ s.alert
    pub planned : should_continue_react t ≡ true → length (last_calls t.messages) ≤ t.tool_budget
    pub some_call : should_continue_react t ≡ true → 0 < length (last_calls t.messages)

  length-calls-le :
      (can : Bool) (n : ℕ) (ps : List AgentThinkToolPlan) (w : W)
      → length (tool_calls_of env (if can then take n ps else []) w).0 ≤ n
  length-calls-le true n ps w =
      omega (arith, length-tool_calls_of (take n ps) w, length-take-le n ps)
  length-calls-le false n ps w = omega (arith, length-tool_calls_of [] w)

  should_continue-some_call :
      (t : TriageState) → should_continue_react t ≡ true → 0 < length (last_calls t.messages)
  unfolding should_continue_react
  should_continue-some_call t h = ground arith

  after_answer-ThinkStep :
      (s : TriageState) (out : AgentThinkResponse) (w : W)
      → ThinkStep s (after_answer env s out w).0
  after_answer-ThinkStep s out w = record {
    budget = unfold after_answer in omega arith;
    called = unfold after_answer in refl;
    same_alert = unfold after_answer in refl;
    planned = λ _.
        unfold after_answer in
        let valid = take s.tool_budget (known_plans out.planned_tools) in
        let can = out.tocontinue && (ltb 0 s.tool_budget && not_empty valid) in
        rw
          (last_calls-append s.messages
            (ai (content_of out.reasoning can) (tool_calls_of env (if can then valid else []) w).0))
          (length-calls-le can s.tool_budget (known_plans out.planned_tools) w);
    some_call = should_continue-some_call (after_answer env s out w).0;
  }

  no_answer-ThinkStep : (s : TriageState) → ThinkStep s (no_answer env s)
  unfolding no_answer should_continue_react
  no_answer-ThinkStep s = record {
    budget = omega arith;
    called = refl;
    same_alert = refl;
    planned = λ h. cc;
    some_call = λ h. cc;
  }

  think_with-ThinkStep :
      (s : TriageState) (r : Option AgentThinkResponse × W) → ThinkStep s (think_with env s r).0
  think_with-ThinkStep s (none, w) = no_answer-ThinkStep s
  think_with-ThinkStep s (some out, w) = after_answer-ThinkStep s out w

  stop-ThinkStep :
      (s : TriageState)
      → ThinkStep s (record s { cancelled = true; tocontinue = false; tool_budget = 0 })
  unfolding should_continue_react
  stop-ThinkStep s = record {
    budget = omega arith;
    called = refl;
    same_alert = refl;
    planned = λ h. cc;
    some_call = λ h. cc;
  }

  pub agent_think-ThinkStep : (s : TriageState) (w : W) → ThinkStep s (agent_think_node env s w).0
  unfolding agent_think_node
  agent_think-ThinkStep s w =
      let (stop, w1) = env.is_cancelled s.alert.alert_id w in
      let answered = first_answer (env.think_ollama s w1) (env.think_openai s) in
      if_both (λ (t : TriageState × W). ThinkStep s t.0) stop
        (record s { cancelled = true; tocontinue = false; tool_budget = 0 }, w1)
        (think_with env s answered) (stop-ThinkStep s) (think_with-ThinkStep s answered)

  -- What one pass of `execute_tool` leaves, where the last message asks for at most the budget's
  -- number of calls, and for at least one: every call is noted and paid for, or the run is cancelled.
  pub record ExecuteStep (s t : TriageState) : Type 0 where
    pub budget : t.tool_budget < s.tool_budget
    pub spent : length t.tools_called + t.tool_budget ≤ length s.tools_called + s.tool_budget
    pub same_alert : t.alert ≡ s.alert

  note_result_fields :
      (tc : ToolCall) (r : TaskResult) (s : TriageState)
      → let t = note_result env tc r s in
        (t.tools_called ≡ s.tools_called ++ tc.name ∷ []) × (t.alert ≡ s.alert)
  unfolding note_result
  note_result_fields tc (finished name raw rec) s = (refl, refl)
  note_result_fields tc (raised e) s = (refl, refl)

  execute_loop_fields :
      (tcs : List ToolCall) (s : TriageState) (w : W)
      → let t = (execute_loop env tcs s w).0 in
        (length t.tools_called ≡ length s.tools_called + length tcs) × (t.alert ≡ s.alert)
  unfolding execute_loop
  execute_loop_fields [] s w = (omega arith, refl)
  execute_loop_fields (tc ∷ tcs) s w =
      let (r, w1) = run_call env tc w in
      let (called, same) = note_result_fields tc r s in
      let (later, kept) = execute_loop_fields tcs (note_result env tc r s) w1 in
      (
        omega (arith, later, ap length called, length-append s.tools_called (tc.name ∷ [])),
        kept ∙ same,
      )

  execute_calls-ExecuteStep :
      (tcs : List ToolCall) (s : TriageState) (w : W)
      → 0 < length tcs
      → length tcs ≤ s.tool_budget
      → ExecuteStep s (execute_calls env tcs s w).0
  execute_calls-ExecuteStep [] s w h k = absurd (omega arith)
  execute_calls-ExecuteStep (tc ∷ tcs) s w h k =
      let (called, same) = execute_loop_fields (tc ∷ tcs) s w in
      unfold execute_calls in
      record { budget = omega arith; spent = omega (arith, called); same_alert = same }

  pub execute_tool-ExecuteStep :
      (s : TriageState) (w : W)
      → 0 < length (last_calls s.messages)
      → length (last_calls s.messages) ≤ s.tool_budget
      → ExecuteStep s (execute_tool_node env s w).0
  execute_tool-ExecuteStep s w h k =
      let (stop, w1) = env.is_cancelled s.alert.alert_id w in
      unfold execute_tool_node in
      if_both (λ (t : TriageState × W). ExecuteStep s t.0) stop
        (record s { cancelled = true; tool_budget = 0 }, w1)
        (execute_calls env (last_calls s.messages) s w1)
        (record { budget = omega arith; spent = omega arith; same_alert = refl })
        (execute_calls-ExecuteStep (last_calls s.messages) s w1 h k)

  pub think_step :
      (f : ℕ) (s : TriageState) (w : W)
      → let t = agent_think_node env s w in
        run_graph env (suc f) agent_think s w ≡ (
          if should_continue_react t.0
          then run_graph env f execute_tool t.0 t.1
          else run_graph env f generate_verdict t.0 t.1)
  unfolding run_graph next_node run_node
  think_step f s w = ground arith

  pub execute_step :
      (f : ℕ) (s : TriageState) (w : W)
      → let t = execute_tool_node env s w in
        run_graph env (suc f) execute_tool s w ≡ (
          if after_execute_tool t.0
          then run_graph env f agent_think t.0 t.1
          else run_graph env f generate_verdict t.0 t.1)
  unfolding run_graph next_node run_node
  execute_step f s w = ground arith
