-- ===== src/Pipeline/State.antt =====
-- services/triage_pipeline.py: the graph's state, its messages, and what the nodes use of the world.
use cyber_security_alert_tri.Common.{ℕ, String, Bool, false, Option, none, List, []}
use cyber_security_alert_tri.Json.{Json}
use cyber_security_alert_tri.Schema.{
  Severity, NormalizedAlert, ExtractedEntities, ToolCallRecord, AgentThinkResponse, TriageVerdict,
}
use cyber_security_alert_tri.Enrichment.{ToolEnv}

-- An entry of `AIMessage.tool_calls`.
pub record ToolCall : Type 0 where
  pub name : String
  pub args : Json
  pub id : String

-- The messages that the nodes append. The first one keeps the parts of its text: the alert, the
-- severity, the entities, the summaries and the budget that is left.
pub data Message : Type 0 where
  human : NormalizedAlert → Severity → ExtractedEntities → List (String × String) → ℕ → Message
  ai : String → List ToolCall → Message
  tool : String → String → String → Message

pub data Phase : Type 0 where
  normalise extract route burst react verdict done : Phase

-- `TriageState`; a missing `tocontinue` or `cancelled` reads as false. `tool_budget` is a Python
-- integer that the code keeps at 0 or more.
pub record TriageState : Type 0 where
  pub alert : NormalizedAlert
  pub entities : Option ExtractedEntities
  pub technique_ids : List String
  pub severity : Severity
  pub tool_budget : ℕ
  pub tools_called : List String
  pub tool_records : List ToolCallRecord
  pub enrichment_data : List (String × String)
  pub messages : List Message
  pub verdict : Option TriageVerdict
  pub phase : Phase
  pub error : Option String
  pub tocontinue : Bool
  pub cancelled : Bool

-- The outside of the pipeline, over the world's state `W`: the tools, the extractor, the cancel flag,
-- the two LLM providers (`none` where one is not configured or raises), and Python's own functions.
pub record PipelineEnv (W : Type 0) : Type 0 where
  pub tools : ToolEnv W
  pub extract_entities : NormalizedAlert → W → ExtractedEntities × W
  pub is_cancelled : String → W → Bool × W
  pub think_ollama : TriageState → W → Option AgentThinkResponse × W
  pub think_openai : TriageState → W → Option AgentThinkResponse × W
  pub verdict_ollama : TriageState → W → Option TriageVerdict × W
  pub verdict_openai : TriageState → W → Option TriageVerdict × W
  pub json_loads : String → Option Json
  pub call_id : W → String × W
  pub upper : String → String

-- `initial_state` of `run_triage`
unfoldable pub initial_state : NormalizedAlert → TriageState
initial_state alert = record {
  alert = alert;
  entities = none;
  technique_ids = [];
  severity = alert.severity;
  tool_budget = 5;
  tools_called = [];
  tool_records = [];
  enrichment_data = [];
  messages = [];
  verdict = none;
  phase = Phase.normalise;
  error = none;
  tocontinue = false;
  cancelled = false;
}
