-- ===== src/Pipeline/Tests.antt =====
-- services/triage_pipeline.py: runs with models that ask for tools for ever, and with a cancel flag.
use cyber_security_alert_tri.Common.{
  ℕ, ◌≤◌, Bool, true, false, none, some, [], ◌∷◌, ◌≡◌, refl, arith, length,
}
use cyber_security_alert_tri.Json.{obj, end}
use cyber_security_alert_tri.Schema.{AgentThinkResponse, TriageVerdict, monitor}
use cyber_security_alert_tri.Pipeline.State.{TriageState, PipelineEnv}
use cyber_security_alert_tri.Pipeline.Nodes.{parse_agent_think_arguments}
use cyber_security_alert_tri.Ingest.Texts.{is_blank, is_space}
use cyber_security_alert_tri.Pipeline.Graph.{run_triage}
use cyber_security_alert_tri.Pipeline.Run.{run_triage-returns, Concerns, call_limit, burst_state}
use cyber_security_alert_tri.Pipeline.Registered.{OnlyRegistered, run_triage-OnlyRegistered}
use cyber_security_alert_tri.Pipeline.Safety.{run_triage-cancelled}
use cyber_security_alert_tri.Samples.{sample_alert, sample_entities, sample_tools}

-- A model that always asks for one more query.
abbrev eager : AgentThinkResponse
eager = record {
  tocontinue = true;
  planned_tools = record { name = "query_splunk"; arguments = "{}" } ∷ [];
  reasoning = "";
}

-- The local model is down, the cloud model thinks, and neither gives a verdict.
abbrev outside : Bool → PipelineEnv ℕ
outside flag = record {
  tools = sample_tools;
  extract_entities = λ alert w. (sample_entities, w);
  is_cancelled = λ id w. (flag, w);
  think_ollama = λ s w. (none, w);
  think_openai = λ s w. (some eager, w);
  verdict_ollama = λ s w. (none, w);
  verdict_openai = λ s w. (none, w);
  json_loads = λ text. some (obj end);
  call_id = λ w. ("call", w);
  upper = λ text. text;
}

-- Arguments that are blank are an empty dictionary, as are those that do not decode.
blank_arguments : parse_agent_think_arguments (λ text. none) " " ≡ obj end
unfolding parse_agent_think_arguments is_blank is_space
blank_arguments = refl

run_triage-returns_example :
    (v : TriageVerdict) × (s : TriageState) × (run_triage (outside false) 36 sample_alert 0
      ≡ some (v, s))
    × Concerns sample_alert s (some v)
    × (length s.tools_called ≤ call_limit (outside false) sample_alert)
run_triage-returns_example = run_triage-returns (outside false) sample_alert 36 0 (omega arith)

run_triage-cancelled_example :
    let s = (burst_state (outside true) sample_alert 0).0 in
    (v : TriageVerdict) × (t : TriageState) × (run_triage (outside true) 6 sample_alert 0
      ≡ some (v, t))
    × (v.status ≡ some "cancelled")
    × (v.tools_called ≡ s.tools_called)
    × (v.total_tool_calls ≡ length s.tools_called)
    × (t.tool_records ≡ s.tool_records)
    × (v.tenant_id ≡ s.alert.tenant_id)
    × (v.escalation ≡ monitor)
run_triage-cancelled_example =
    run_triage-cancelled (outside true) 6 sample_alert 0 (omega arith) refl

run_triage-OnlyRegistered_example :
    OnlyRegistered (outside false) (run_triage (outside false) 36 sample_alert 0)
run_triage-OnlyRegistered_example =
    run_triage-OnlyRegistered (outside false) 36 sample_alert 0 (omega arith)
