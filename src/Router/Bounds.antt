-- ===== src/Router/Bounds.antt =====
-- services/mitre_router.py: what holds of the routing of every technique id, known or not.
use cyber_security_alert_tri.Common.{
  ◌≤◌, String, Bool, true, false, ◌&&◌, Option, none, some, List, [], ◌∷◌, ◌++◌, ◌≡◌, refl, sym, ap,
  ◌∙◌, eq_iff, inl, inr, arith, contains, contains-append, distinct, assoc, leb, Option-cases,
}
use cyber_security_alert_tri.Router.{
  get_routing, get_tools_for_techniques, get_time_window, get_budget, before_dot, or_else,
}
use cyber_security_alert_tri.Router.Table.{RoutingEntry, technique_to_tools, default_routing}
use cyber_security_alert_tri.Router.Order.{
  named, priority_tools, prescribed_tools, get_tools_for_techniques-eq-first_occurrences,
  contains-first_occurrences, distinct-first_occurrences,
}

-- The names for which the burst enrichment has a parameter builder and a registered tool.
abbrev pub registered_tools : List String
registered_tools =
    "query_splunk" ∷ "query_crowdstrike" ∷ "lookup_threat_intel" ∷ "query_aws" ∷ "query_cmdb"
    ∷ "query_netflow" ∷ "query_dns_logs" ∷ "query_backup_systems" ∷ "lookup_vulncheck" ∷ []

abbrev all_in : List String → List String → Bool
all_in [] ys = true
all_in (x ∷ xs) ys = contains x ys && all_in xs ys

-- The checks on one entry: it has a tool, the tools are registered and differ, the priority tool is
-- one of them, and the window is between two days and a year.
abbrev some_tool : List String → Bool
some_tool [] = false
some_tool (t ∷ ts) = true

abbrev priority_in : Option String → List String → Bool
priority_in none ts = true
priority_in (some t) ts = contains t ts

well_formed : RoutingEntry → Bool
well_formed e =
    some_tool e.tools
    && all_in e.tools registered_tools
    && priority_in e.priority_tool e.tools
    && leb 48 e.time_window.hours
    && leb e.time_window.hours 2160

all_entries : (RoutingEntry → Bool) → List (String × RoutingEntry) → Bool
all_entries p [] = true
all_entries p ((k, e) ∷ m) = p e && all_entries p m

table_well_formed :
    (all_entries well_formed technique_to_tools ≡ true) × (well_formed default_routing ≡ true)
unfolding all_entries well_formed technique_to_tools default_routing contains
table_well_formed = (refl, refl)

assoc-all_entries :
    (p : RoutingEntry → Bool) (k : String) (m : List (String × RoutingEntry)) (e : RoutingEntry)
    → all_entries p m ≡ true
    → assoc k m ≡ some e
    → p e ≡ true
unfolding all_entries assoc
assoc-all_entries p k [] e h q = cc
assoc-all_entries p k ((j, x) ∷ m) e h q = ground (arith, assoc-all_entries p k m e)

or_else-well_formed :
    (k : String) (d : RoutingEntry)
    → well_formed d ≡ true
    → well_formed (or_else (assoc k technique_to_tools) d) ≡ true
or_else-well_formed k d h = elim (Option-cases (assoc k technique_to_tools)) [
  | inl missing ↦ rw missing h
  | inr (e, found) ↦
      rw found (assoc-all_entries well_formed k technique_to_tools e table_well_formed.0 found)
]

get_routing-well_formed : (tid : String) → well_formed (get_routing tid) ≡ true
unfolding get_routing
get_routing-well_formed tid =
    or_else-well_formed tid (or_else (assoc (before_dot tid) technique_to_tools) default_routing)
      (or_else-well_formed (before_dot tid) default_routing table_well_formed.1)

window_of_well_formed :
    (e : RoutingEntry)
    → well_formed e ≡ true
    → (48 ≤ e.time_window.hours) × (e.time_window.hours ≤ 2160)
unfolding well_formed
window_of_well_formed e h = ground arith

tools_of_well_formed :
    (e : RoutingEntry)
    → well_formed e ≡ true
    → (some_tool e.tools ≡ true)
      × (all_in e.tools registered_tools ≡ true)
      × (priority_in e.priority_tool e.tools ≡ true)
unfolding well_formed
tools_of_well_formed e h = ground arith

-- The look-back window of any technique id, known or not, is between two days and ninety days.
pub get_time_window_bounds :
    (tid : String) → (48 ≤ (get_time_window tid).hours) × ((get_time_window tid).hours ≤ 2160)
unfolding get_time_window
get_time_window_bounds tid = window_of_well_formed (get_routing tid) (get_routing-well_formed tid)

contains-named :
    (t : String) (o : Option String) (ts : List String)
    → priority_in o ts ≡ true
    → contains t (named o) ≡ true
    → contains t ts ≡ true
unfolding contains
contains-named t none ts h c = cc
contains-named t (some p) ts h c = ground (arith, eq_iff p t)

priority_prescribed :
    (t : String) (ids : List String)
    → contains t (priority_tools ids) ≡ true
    → contains t (prescribed_tools ids) ≡ true
priority_prescribed t [] h = h
priority_prescribed t (tid ∷ ids) h =
    let e = get_routing tid in
    ground (
      arith,
      contains-append t (named e.priority_tool) (priority_tools ids),
      contains-append t e.tools (prescribed_tools ids),
      contains-named t e.priority_tool e.tools
          (tools_of_well_formed e (get_routing-well_formed tid)).2,
      priority_prescribed t ids,
    )

all_in-append : (xs ys zs : List String) → all_in (xs ++ ys) zs ≡ (all_in xs zs && all_in ys zs)
all_in-append [] ys zs = refl
all_in-append (x ∷ xs) ys zs = ground (arith, all_in-append xs ys zs)

contains_of_all_in :
    (t : String) (xs ys : List String)
    → all_in xs ys ≡ true
    → contains t xs ≡ true
    → contains t ys ≡ true
unfolding contains
contains_of_all_in t [] ys h c = cc
contains_of_all_in t (x ∷ xs) ys h c = ground (arith, contains_of_all_in t xs ys, eq_iff x t)

prescribed-all_in : (ids : List String) → all_in (prescribed_tools ids) registered_tools ≡ true
prescribed-all_in [] = refl
prescribed-all_in (tid ∷ ids) =
    let e = get_routing tid in
    ground (
      arith,
      all_in-append e.tools (prescribed_tools ids) registered_tools,
      prescribed-all_in ids,
      tools_of_well_formed e (get_routing-well_formed tid),
    )

contains-get_tools :
    (t : String) (ids : List String)
    → contains t (get_tools_for_techniques ids) ≡ contains t (prescribed_tools ids)
contains-get_tools t ids =
    ap (contains t) (get_tools_for_techniques-eq-first_occurrences ids)
    ∙ contains-first_occurrences t (priority_tools ids ++ prescribed_tools ids)
    ∙ ground (
      arith,
      contains-append t (priority_tools ids) (prescribed_tools ids),
      priority_prescribed t ids,
    )

-- The tools fired for a list of techniques are exactly those that the routing entries prescribe,
-- each once, and every one of them is registered with a parameter builder.
pub get_tools_for_techniques-exact :
    (ids : List String)
    → (distinct (get_tools_for_techniques ids) ≡ true)
      × ((t : String)
          → contains t (get_tools_for_techniques ids) ≡ contains t (prescribed_tools ids))
      × ((t : String)
          → contains t (get_tools_for_techniques ids) ≡ true
          → contains t registered_tools ≡ true)
get_tools_for_techniques-exact ids = (
  ap distinct (get_tools_for_techniques-eq-first_occurrences ids)
      ∙ distinct-first_occurrences (priority_tools ids ++ prescribed_tools ids),
  λ t. contains-get_tools t ids,
  λ t h.
      contains_of_all_in t (prescribed_tools ids) registered_tools (prescribed-all_in ids)
        (sym (contains-get_tools t ids) ∙ h),
)

-- The tool budget is between 3 and 15 for every severity text, known or not.
pub get_budget_bounds :
    (upper : String → String) (severity : String)
    → (3 ≤ get_budget upper severity) × (get_budget upper severity ≤ 15)
unfolding get_budget assoc
get_budget_bounds upper severity = ground arith
