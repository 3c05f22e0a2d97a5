-- ===== src/Enrichment/Records.antt =====
-- agents/enrichment_node.py: what the burst over the prescribed tools leaves.
use Prim.Native.String.{◌++◌ as ◌+s◌}
use mathlib.Core.Path.{subst}
use cyber_security_alert_tri.Common.{
  suc, ◌≤◌, String, Bool, true, Option, none, some, List, [], ◌∷◌, ◌++◌, ◌≡◌, refl, arith, length,
  map, contains, eq_refl, sym, if_both,
}
use cyber_security_alert_tri.Json.{Json, get}
use cyber_security_alert_tri.Schema.{NormalizedAlert, ExtractedEntities, ToolCallRecord}
use cyber_security_alert_tri.Router.{get_tools_for_techniques}
use cyber_security_alert_tri.Router.Bounds.{registered_tools, get_tools_for_techniques-exact}
use cyber_security_alert_tri.Enrichment.{
  ToolEnv, Burst, TaskResult, finished, raised, burst_loop, task_params, run_task, collect_task,
  run_burst_enrichment, finish, checked, not_registered, call_registered, run_tool,
  execute_single_tool, result_of, source_available, usable, value_or_null,
}

-- Every name is in the registry.
abbrev pub AllRegistered : List String → Type 0
AllRegistered [] = Unit
AllRegistered (n ∷ ns) = (contains n registered_tools ≡ true) × AllRegistered ns

pub append-AllRegistered :
    (xs ys : List String) → AllRegistered xs → AllRegistered ys → AllRegistered (xs ++ ys)
append-AllRegistered [] ys h k = k
append-AllRegistered (x ∷ xs) ys h k = (h.0, append-AllRegistered xs ys h.1 k)

all-AllRegistered :
    (xs : List String)
    → ((t : String) → contains t xs ≡ true → contains t registered_tools ≡ true)
    → AllRegistered xs
all-AllRegistered [] h = tt
all-AllRegistered (x ∷ xs) h = (
  h x (unfold contains in ground (arith, eq_refl x)),
  all-AllRegistered xs (λ t k. h t (unfold contains in ground arith)),
)

-- The record of a task is about the task's tool.
abbrev About : String → TaskResult → Type 0
About tool (finished name result rec) = rec.tool_name ≡ tool
About tool (raised e) = Unit

module _ {W : Type 0} (env : ToolEnv W) where
  length-collect_task :
      (r : Option TaskResult) (b : Burst)
      → length (collect_task env r b).records ≤ suc (length b.records)
  length-collect_task none b = omega arith
  length-collect_task (some (finished name result rec)) b = omega arith
  length-collect_task (some (raised e)) b = omega arith

  length-burst_loop-le :
      (alert : NormalizedAlert) (entities : ExtractedEntities) (ids tools : List String) (w : W)
      → length (burst_loop env alert entities ids tools w).0.records ≤ length tools
  unfolding burst_loop
  length-burst_loop-le alert entities ids [] w = omega arith
  length-burst_loop-le alert entities ids (tool ∷ tools) w =
      let (r, w1) = run_task env (task_params env alert entities ids tool) tool w in
      omega (
        arith,
        length-burst_loop-le alert entities ids tools w1,
        length-collect_task r (burst_loop env alert entities ids tools w1).0,
      )

  pub length-run_burst_enrichment-le :
      (alert : NormalizedAlert) (entities : ExtractedEntities) (ids : List String) (w : W)
      → length (run_burst_enrichment env alert entities ids w).0.records
        ≤ length (get_tools_for_techniques ids)
  unfolding run_burst_enrichment
  length-run_burst_enrichment-le alert entities ids w =
      length-burst_loop-le alert entities ids (get_tools_for_techniques ids) w

  checked-About :
      (tool : String) (o : Option String) (result : Json) (rec : ToolCallRecord)
      → rec.tool_name ≡ tool
      → About tool (checked o tool result rec)
  checked-About tool none result rec h = h
  checked-About tool (some e) result rec h = tt

  finish-About :
      (tool : String) (params result : Json) (summary : String) (available : Bool)
      (error : Option Json)
      → About tool (finish env tool params result summary available error)
  unfolding finish
  finish-About tool params result summary available error =
      let rec : ToolCallRecord = record {
        tool_name = tool;
        input_params = params;
        result_summary = summary;
        raw_result = result;
        source_available = available;
        error = error;
      } in
      checked-About tool (env.record_error rec) result rec refl

  run_tool-About :
      (tool : String) (params : Json) (w : W) → About tool (run_tool env tool params w).0
  unfolding run_tool call_registered not_registered
  run_tool-About tool params w =
      if_both (λ (x : TaskResult × W). About tool x.0) (contains tool registered_tools)
        (call_registered env tool params w) (not_registered env tool params, w)
        (let result = result_of env.timeout_error (env.call_tool tool params w).0 in
          finish-About tool params result (env.compress tool result) (source_available result)
            (get "error" result))
        (finish-About tool params _ _ true _)

  execute_single_tool-About :
      (tool : String) (params : Json) (w : W) → About tool (execute_single_tool env tool params w).0
  unfolding execute_single_tool
  execute_single_tool-About tool params w =
      let (cached, w1) = env.cache_get tool params w in
      if_both (λ (x : TaskResult × W). About tool x.0) (usable cached)
        (
          finish env tool params (value_or_null cached)
              (env.compress tool (value_or_null cached) +s " [CACHED]") true none,
          w1,
        )
        (run_tool env tool params w1) (finish-About tool params _ _ true none)
        (run_tool-About tool params w1)

  run_task-About :
      (params : Option Json) (tool : String) (w : W) (b : Burst)
      → contains tool registered_tools ≡ true
      → AllRegistered (map (λ r. r.tool_name) b.records)
      → AllRegistered
          (map (λ r. r.tool_name) (collect_task env (run_task env params tool w).0 b).records)
  run_task-About none tool w b h k = k
  run_task-About (some params) tool w b h k =
      collected (execute_single_tool env tool params w).0 (execute_single_tool-About tool params w)
    where
      collected :
          (r : TaskResult)
          → About tool r
          → AllRegistered (map (λ r. r.tool_name) (collect_task env (some r) b).records)
      collected (finished name result rec) same =
          (subst (λ (n : String). contains n registered_tools ≡ true) (sym same) h, k)
      collected (raised e) same = k

  burst_loop-AllRegistered :
      (alert : NormalizedAlert) (entities : ExtractedEntities) (ids tools : List String) (w : W)
      → AllRegistered tools
      → AllRegistered (map (λ r. r.tool_name) (burst_loop env alert entities ids tools w).0.records)
  unfolding burst_loop
  burst_loop-AllRegistered alert entities ids [] w h = tt
  burst_loop-AllRegistered alert entities ids (tool ∷ tools) w h =
      let params = task_params env alert entities ids tool in
      let (r, w1) = run_task env params tool w in
      run_task-About params tool w (burst_loop env alert entities ids tools w1).0 h.0
        (burst_loop-AllRegistered alert entities ids tools w1 h.1)

  pub run_burst_enrichment-AllRegistered :
      (alert : NormalizedAlert) (entities : ExtractedEntities) (ids : List String) (w : W)
      → AllRegistered
          (map (λ r. r.tool_name) (run_burst_enrichment env alert entities ids w).0.records)
  unfolding run_burst_enrichment
  run_burst_enrichment-AllRegistered alert entities ids w =
      burst_loop-AllRegistered alert entities ids (get_tools_for_techniques ids) w (
        all-AllRegistered (get_tools_for_techniques ids)
          (λ t. (get_tools_for_techniques-exact ids).2 t))
