-- ===== src/Pipeline/Registered.antt =====
-- services/triage_pipeline.py: which tools a run calls.
use mathlib.Core.Path.{subst}
use cyber_security_alert_tri.Common.{
  ℕ, zero, suc, ◌≤◌, String, true, false, ◌&&◌, Option, none, some, List, [], ◌∷◌, ◌++◌, ◌≡◌, refl,
  ◌∙◌, sym, ap, arith, contains, take, if_both, Bool-cases, inl, inr, if◌then◌else◌, ltb,
}
use cyber_security_alert_tri.Schema.{
  NormalizedAlert, AgentThinkToolPlan, AgentThinkResponse, TriageVerdict,
}
use cyber_security_alert_tri.Router.Bounds.{registered_tools}
use cyber_security_alert_tri.Enrichment.{TaskResult, finished, raised}
use cyber_security_alert_tri.Enrichment.Records.{
  AllRegistered, append-AllRegistered, run_burst_enrichment-AllRegistered,
}
use cyber_security_alert_tri.Pipeline.State.{
  TriageState, PipelineEnv, Message, ToolCall, ai, tool, initial_state,
}
use cyber_security_alert_tri.Pipeline.Nodes.{
  react_tool_names, known_plans, tool_calls_of, after_answer, no_answer, content_of, think_with,
  first_answer, not_empty, agent_think_node, after_burst, burst_enrichment_node,
  extract_entities_node, route_tools_node, normalise_alert_node,
}
use cyber_security_alert_tri.Pipeline.Finish.{
  last_calls, calls_of, run_call, note_result, execute_loop, execute_calls, execute_tool_node,
  generate_verdict_node, done_with, settled, cancelled_verdict,
}
use cyber_security_alert_tri.Pipeline.Graph.{normalise, run_graph, run_triage, finish_run}
use cyber_security_alert_tri.Pipeline.Loop.{last_calls-append}
use cyber_security_alert_tri.Pipeline.Termination.{Ends, loop-Ends}
use cyber_security_alert_tri.Pipeline.Run.{burst_state, run_graph-burst, burst_budget-le}

react-registered :
    (n : String) → contains n react_tool_names ≡ true → contains n registered_tools ≡ true
unfolding contains
react-registered n h = ground arith

abbrev CallsRegistered : List ToolCall → Type 0
CallsRegistered [] = Unit
CallsRegistered (tc ∷ tcs) = (contains tc.name registered_tools ≡ true) × CallsRegistered tcs

abbrev PlansRegistered : List AgentThinkToolPlan → Type 0
PlansRegistered [] = Unit
PlansRegistered (p ∷ ps) = (contains p.name registered_tools ≡ true) × PlansRegistered ps

known_plans-PlansRegistered : (ps : List AgentThinkToolPlan) → PlansRegistered (known_plans ps)
unfolding known_plans
known_plans-PlansRegistered [] = tt
known_plans-PlansRegistered (p ∷ ps) = elim (Bool-cases (contains p.name react_tool_names)) [
  | inl known ↦ rw known (react-registered p.name known, known_plans-PlansRegistered ps)
  | inr other ↦ rw other (known_plans-PlansRegistered ps)
]

take-PlansRegistered :
    (n : ℕ) (ps : List AgentThinkToolPlan) → PlansRegistered ps → PlansRegistered (take n ps)
take-PlansRegistered zero ps h = tt
take-PlansRegistered (suc n) [] h = tt
take-PlansRegistered (suc n) (p ∷ ps) h = (h.0, take-PlansRegistered n ps h.1)

-- The tools called so far, and those that the last message asks for, are in the registry.
record Running (s : TriageState) : Type 0 where
  called : AllRegistered s.tools_called
  asked : CallsRegistered (last_calls s.messages)

module _ {W : Type 0} (env : PipelineEnv W) where
  tool_calls_of-CallsRegistered :
      (ps : List AgentThinkToolPlan) (w : W)
      → PlansRegistered ps
      → CallsRegistered (tool_calls_of env ps w).0
  unfolding tool_calls_of
  tool_calls_of-CallsRegistered [] w h = tt
  tool_calls_of-CallsRegistered (p ∷ ps) w h =
      (h.0, tool_calls_of-CallsRegistered ps (env.call_id w).1 h.1)

  -- A message at the end whose calls are in the registry.
  append-Running :
      (s t : TriageState) (m : Message)
      → t.tools_called ≡ s.tools_called
      → t.messages ≡ s.messages ++ m ∷ []
      → CallsRegistered (calls_of m)
      → Running s
      → Running t
  append-Running s t m same new k h = record {
    called = subst AllRegistered (sym same) h.called;
    asked = subst CallsRegistered (sym (ap last_calls new ∙ last_calls-append s.messages m)) k;
  }

  after_answer-Running :
      (s : TriageState) (out : AgentThinkResponse) (w : W)
      → Running s
      → Running (after_answer env s out w).0
  unfolding after_answer
  after_answer-Running s out w h =
      let valid = take s.tool_budget (known_plans out.planned_tools) in
      let can = out.tocontinue && (ltb 0 s.tool_budget && not_empty valid) in
      let plans = if can then valid else [] in
      let known =
        take-PlansRegistered s.tool_budget (known_plans out.planned_tools)
          (known_plans-PlansRegistered out.planned_tools) in
      append-Running s (after_answer env s out w).0
        (ai (content_of out.reasoning can) (tool_calls_of env plans w).0) refl refl
        (tool_calls_of-CallsRegistered plans w (if_both PlansRegistered can valid [] known tt)) h

  think_with-Running :
      (s : TriageState) (r : Option AgentThinkResponse × W)
      → Running s
      → Running (think_with env s r).0
  think_with-Running s (some out, w) h = after_answer-Running s out w h
  think_with-Running s (none, w) h =
      unfold no_answer in
      append-Running s (no_answer env s)
        (ai "LLM unavailable. Generating verdict from burst enrichment." []) refl refl tt h

  think-Running : (s : TriageState) (w : W) → Running s → Running (agent_think_node env s w).0
  unfolding agent_think_node
  think-Running s w h =
      let (stop, w1) = env.is_cancelled s.alert.alert_id w in
      let answered = first_answer (env.think_ollama s w1) (env.think_openai s) in
      if_both (λ (t : TriageState × W). Running t.0) stop
        (record s { cancelled = true; tocontinue = false; tool_budget = 0 }, w1)
        (think_with env s answered) (record { called = h.called; asked = h.asked })
        (think_with-Running s answered h)

  -- One result noted: its tool is called, and the last message is no request.
  note_result-Running :
      (tc : ToolCall) (r : TaskResult) (s : TriageState)
      → contains tc.name registered_tools ≡ true
      → AllRegistered s.tools_called
      → Running (note_result env tc r s)
  unfolding note_result
  note_result-Running tc (raised e) s k h = record {
    called = append-AllRegistered s.tools_called (tc.name ∷ []) h (k, tt);
    asked = subst CallsRegistered (sym (last_calls-append s.messages (tool _ tc.id tc.name))) tt;
  }
  note_result-Running tc (finished name raw rec) s k h = record {
    called = append-AllRegistered s.tools_called (tc.name ∷ []) h (k, tt);
    asked = subst CallsRegistered (sym (last_calls-append s.messages (tool _ tc.id tc.name))) tt;
  }

  execute_loop-Running :
      (tcs : List ToolCall) (s : TriageState) (w : W)
      → CallsRegistered tcs
      → Running s
      → Running (execute_loop env tcs s w).0
  unfolding execute_loop
  execute_loop-Running [] s w k h = h
  execute_loop-Running (tc ∷ tcs) s w k h =
      let (r, w1) = run_call env tc w in
      execute_loop-Running tcs (note_result env tc r s) w1 k.1
        (note_result-Running tc r s k.0 h.called)

  execute_calls-Running :
      (tcs : List ToolCall) (s : TriageState) (w : W)
      → CallsRegistered tcs
      → Running s
      → Running (execute_calls env tcs s w).0
  unfolding execute_calls
  execute_calls-Running [] s w k h = record { called = h.called; asked = h.asked }
  execute_calls-Running (tc ∷ tcs) s w k h =
      let done = execute_loop-Running (tc ∷ tcs) s w k h in
      record { called = done.called; asked = done.asked }

  execute-Running : (s : TriageState) (w : W) → Running s → Running (execute_tool_node env s w).0
  unfolding execute_tool_node
  execute-Running s w h =
      let (stop, w1) = env.is_cancelled s.alert.alert_id w in
      if_both (λ (t : TriageState × W). Running t.0) stop
        (record s { cancelled = true; tool_budget = 0 }, w1)
        (execute_calls env (last_calls s.messages) s w1)
        (record { called = h.called; asked = h.asked })
        (execute_calls-Running (last_calls s.messages) s w1 h.asked h)

  abbrev Finished : TriageState → Type 0
  Finished s = AllRegistered s.tools_called

  settled-Finished :
      (s : TriageState) (r : Option TriageVerdict × W) → Finished s → Finished (settled env s r).0
  settled-Finished s (none, w) h = h
  settled-Finished s (some v, w) h = h

  verdict-Finished :
      (s : TriageState) (w : W) → Running s → Finished (generate_verdict_node env s w).0
  unfolding generate_verdict_node
  verdict-Finished s w h =
      let answered = first_answer (env.verdict_ollama s w) (env.verdict_openai s) in
      if_both (λ (t : TriageState × W). Finished t.0) s.cancelled
        (done_with env s (cancelled_verdict s), w) (settled env s answered) h.called
        (settled-Finished s answered h.called)

  burst-Running : (alert : NormalizedAlert) (w : W) → Running (burst_state env alert w).0
  unfolding burst_state burst_enrichment_node extract_entities_node route_tools_node
      normalise_alert_node initial_state after_burst
  burst-Running alert w = record {
    called =
        run_burst_enrichment-AllRegistered env.tools alert (env.extract_entities alert w).0
          (extract_entities_node env (normalise_alert_node (initial_state alert)) w).0.technique_ids
          (env.extract_entities alert w).1;
    asked = unfold last_calls in tt;
  }

  -- The names of the tools of a run's final state.
  abbrev pub OnlyRegistered : Option (TriageVerdict × TriageState) → Type 0
  OnlyRegistered none = ⊥
  OnlyRegistered (some (v, s)) = AllRegistered s.tools_called

  finish_run-OnlyRegistered :
      (alert : NormalizedAlert) (r : Option (TriageState × W))
      → Ends Finished r
      → OnlyRegistered (finish_run alert r)
  finish_run-OnlyRegistered alert none h = absurd h
  finish_run-OnlyRegistered alert (some (s, w)) h = h

  -- Whatever the models ask for, a run that may take 36 nodes ends having called registered tools only,
  -- in the burst and in the loop.
  pub run_triage-OnlyRegistered :
      (fuel : ℕ) (alert : NormalizedAlert) (w : W)
      → 36 ≤ fuel
      → OnlyRegistered (run_triage env fuel alert w)
  unfolding run_triage
  run_triage-OnlyRegistered (suc (suc (suc (suc f)))) alert w room =
      let (s, w1) = burst_state env alert w in
      finish_run-OnlyRegistered alert
        (run_graph env (suc (suc (suc (suc f)))) normalise (initial_state alert) w)
        (subst (Ends Finished) (sym (run_graph-burst env alert f w)) (
          loop-Ends env Running Finished think-Running (λ t u h _ _. execute-Running t u h)
            verdict-Finished 15 f s w1 (burst-Running alert w) (burst_budget-le env alert w)
            (omega arith)))
  run_triage-OnlyRegistered _ alert w room = absurd (omega arith)
