-- ===== src/Enrichment/Tests.antt =====
-- agents/enrichment_node.py: runs of single tools.
use cyber_security_alert_tri.Common.{true, false, none, some, [], ◌∷◌, ◌≡◌, refl, contains}
use cyber_security_alert_tri.Json.{bool, obj, str, end, field, null, get, get_field}
use cyber_security_alert_tri.Enrichment.{
  finished, timed_out, call_registered, execute_single_tool, not_registered, run_tool, finish,
  cacheable, source_available, result_of, primary_technique, task_params,
}
use cyber_security_alert_tri.Samples.{sample_alert, sample_entities, sample_tools}

-- A tool that the registry lacks is recorded, and nothing is called.
unknown_tool :
    execute_single_tool sample_tools "rm_rf" null 3 ≡ (not_registered sample_tools "rm_rf" null, 3)
unfolding execute_single_tool run_tool contains
unknown_tool = refl

-- A registered tool is called once.
known_tool : execute_single_tool sample_tools "query_splunk" null 3 ≡ (
  finished "query_splunk" (obj (field "name" (str "query_splunk") end)) (record {
    tool_name = "query_splunk";
    input_params = null;
    result_summary = "query_splunk";
    raw_result = obj (field "name" (str "query_splunk") end);
    source_available = true;
    error = none;
  }),
  4,
)
unfolding execute_single_tool run_tool call_registered finish source_available result_of get
    get_field contains cacheable
known_tool = refl

-- A timeout is a result that says that the source is not available, and it is not cached.
timeout_not_cached : cacheable sample_tools (result_of "Timeout after 20s" timed_out) ≡ false
unfolding cacheable source_available result_of get get_field
timeout_not_cached = refl

unregistered_record : not_registered sample_tools "rm_rf" null ≡ (
    let error = str "Tool 'rm_rf' not registered" in
    finish sample_tools "rm_rf" null
      (obj (field "error" error (field "source_available" (bool false) end)))
      "[rm_rf] NOT REGISTERED"
      true
      (some error))
unfolding not_registered
unregistered_record = refl

-- With no technique the parameters are built for the default one.
default_technique :
    task_params sample_tools sample_alert sample_entities [] "query_splunk"
    ≡ task_params sample_tools sample_alert sample_entities ("T1082" ∷ []) "query_splunk"
unfolding task_params primary_technique
default_technique = refl
