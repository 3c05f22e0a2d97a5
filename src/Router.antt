-- ===== src/Router.antt =====
-- services/mitre_router.py: routing of MITRE techniques to tools, and the tool budget.
pub mod Table
pub mod Order
pub mod Bounds
pub mod Count
mod Tests
use Prim.Native.Char.{code}
use cyber_security_alert_tri.Common.{
  ℕ, ◌+◌, ◌-◌, String, Bool, true, false, ◌&&◌, ◌||◌, Option, none, some, List, [], ◌∷◌, ◌++◌, ◌==◌,
  contains, assoc, nat_eq, leb, if◌then◌else◌,
}
use Table.{RoutingEntry, TimeWindow, technique_to_tools, default_routing}

-- `technique_id.split(".")[0]`: the text before the first dot, or all of it.
pub before_dot : String → String
before_dot String.[] = String.[]
before_dot (String.◌∷◌ c s) =
    let rest = before_dot s in if nat_eq (code c) b'.' then String.[] else String.◌∷◌ c rest

-- `d.get(k, d)` on an optional value.
abbrev pub or_else {ℓ} : {A : Type ℓ} → Option A → A → A
or_else none d = d
or_else (some a) d = a

-- `get_routing`
pub get_routing : String → RoutingEntry
get_routing technique_id =
    or_else (assoc technique_id technique_to_tools)
      (or_else (assoc (before_dot technique_id) technique_to_tools) default_routing)

-- What the two loops of `get_tools_for_techniques` carry: `ordered`, and the set `seen`.
pub record Found : Type 0 where
  pub seen : List String
  pub ordered : List String

-- `if tool not in seen: ordered.append(tool); seen.add(tool)`
pub add_tool : String → Found → Found
add_tool t f =
    if contains t f.seen then f else record { seen = t ∷ f.seen; ordered = f.ordered ++ t ∷ [] }

-- `entry.priority_tool and entry.priority_tool not in seen`; an empty text is no tool.
pub add_priority : Option String → Found → Found
add_priority none f = f
add_priority (some t) f = if t == "" then f else add_tool t f

-- The inner loop over `entry.tools`.
pub add_tools : List String → Found → Found
add_tools [] f = f
add_tools (t ∷ ts) f = add_tools ts (add_tool t f)

-- The first loop: the priority tools.
pub priority_loop : List String → Found → Found
priority_loop [] f = f
priority_loop (tid ∷ ids) f = priority_loop ids (add_priority (get_routing tid).priority_tool f)

-- The second loop: all remaining tools.
pub tools_loop : List String → Found → Found
tools_loop [] f = f
tools_loop (tid ∷ ids) f = tools_loop ids (add_tools (get_routing tid).tools f)

-- `get_tools_for_techniques`
unfoldable pub get_tools_for_techniques : List String → List String
get_tools_for_techniques ids =
    (tools_loop ids (priority_loop ids (record { seen = []; ordered = [] }))).ordered

-- `get_time_window`
unfoldable pub get_time_window : String → TimeWindow
get_time_window technique_id = (get_routing technique_id).time_window

-- `SEVERITY_BUDGET`
abbrev pub severity_budget : List (String × ℕ)
severity_budget = ("LOW", 3) ∷ ("MEDIUM", 5) ∷ ("HIGH", 8) ∷ ("CRITICAL", 15) ∷ []

-- `get_budget` of a severity that `str.upper` has put in capitals.
unfoldable pub get_budget : (String → String) → String → ℕ
get_budget upper severity = or_else (assoc (upper severity) severity_budget) 5
