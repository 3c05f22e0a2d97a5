-- ===== src/Router/Order.antt =====
-- services/mitre_router.py: the order of the tools that `get_tools_for_techniques` returns.
use mathlib.Core.List.{append-nil, append_assoc}
use cyber_security_alert_tri.Common.{
  String, true, false, ◌&&◌, not, Option, none, some, List, [], ◌∷◌, ◌++◌, ◌≡◌, refl, sym, ap, ◌∙◌,
  ◌==◌, eq_iff, inl, inr, arith, contains, distinct, Bool-cases, if◌then◌else◌,
}
use cyber_security_alert_tri.Router.{
  Found, add_tool, add_priority, add_tools, priority_loop, tools_loop, get_routing,
  get_tools_for_techniques,
}

-- Every priority tool of the techniques, in the order of the techniques.
abbrev pub named : Option String → List String
named none = []
named (some t) = if t == "" then [] else t ∷ []

abbrev pub priority_tools : List String → List String
priority_tools [] = []
priority_tools (tid ∷ ids) = named (get_routing tid).priority_tool ++ priority_tools ids

-- Every prescribed tool of the techniques, in the order of the techniques and their entries.
abbrev pub prescribed_tools : List String → List String
prescribed_tools [] = []
prescribed_tools (tid ∷ ids) = (get_routing tid).tools ++ prescribed_tools ids

drop_all : String → List String → List String
drop_all x [] = []
drop_all x (y ∷ ys) = let rest = drop_all x ys in if y == x then rest else y ∷ rest

-- The first occurrence of each text, in order.
unfoldable pub first_occurrences : List String → List String
unfolding drop_all
first_occurrences [] = []
first_occurrences (x ∷ xs) = x ∷ drop_all x (first_occurrences xs)

minus : List String → List String → List String
minus seen [] = []
minus seen (y ∷ ys) = let rest = minus seen ys in if contains y seen then rest else y ∷ rest

minus-nil : (ys : List String) → minus [] ys ≡ ys
unfolding minus contains
minus-nil [] = refl
minus-nil (y ∷ ys) = rw (minus-nil ys)

minus-cons : (x : String) (seen ys : List String) → minus (x ∷ seen) ys ≡ minus seen (drop_all x ys)
unfolding minus drop_all contains
minus-cons x seen [] = refl
minus-cons x seen (y ∷ ys) = ground (arith, minus-cons x seen ys, eq_iff x y, eq_iff y x)

minus-drop_all :
    (x : String) (seen ys : List String)
    → contains x seen ≡ true
    → minus seen (drop_all x ys) ≡ minus seen ys
unfolding minus drop_all
minus-drop_all x seen [] h = refl
minus-drop_all x seen (y ∷ ys) h = ground (arith, minus-drop_all x seen ys h, eq_iff y x)

add_tool_old : (x : String) (f : Found) → contains x f.seen ≡ true → add_tool x f ≡ f
unfolding add_tool
add_tool_old x f old = rw old

add_tool_new :
    (x : String) (f : Found)
    → contains x f.seen ≡ false
    → add_tool x f ≡ record { seen = x ∷ f.seen; ordered = f.ordered ++ x ∷ [] }
unfolding add_tool
add_tool_new x f new = rw new

minus-old :
    (x : String) (seen ys : List String)
    → contains x seen ≡ true
    → minus seen (x ∷ drop_all x ys) ≡ minus seen ys
unfolding minus
minus-old x seen ys old = rw old (minus-drop_all x seen ys old)

minus-new :
    (x : String) (seen ys : List String)
    → contains x seen ≡ false
    → minus seen (x ∷ drop_all x ys) ≡ x ∷ minus (x ∷ seen) ys
unfolding minus
minus-new x seen ys new = rw new (rw (minus-cons x seen ys))

add_tools-ordered :
    (xs : List String) (f : Found)
    → (add_tools xs f).ordered ≡ f.ordered ++ minus f.seen (first_occurrences xs)
unfolding add_tools first_occurrences
add_tools-ordered [] f = unfold minus in rw append-nil
add_tools-ordered (x ∷ xs) f = elim (Bool-cases (contains x f.seen)) [
  | inl old ↦
      ap (λ (g : Found). (add_tools xs g).ordered) (add_tool_old x f old)
      ∙ add_tools-ordered xs f
      ∙ ap (λ (r : List String). f.ordered ++ r)
          (sym (minus-old x f.seen (first_occurrences xs) old))
  | inr new ↦
      ap (λ (g : Found). (add_tools xs g).ordered) (add_tool_new x f new)
      ∙ add_tools-ordered xs (record { seen = x ∷ f.seen; ordered = f.ordered ++ x ∷ [] })
      ∙ append_assoc f.ordered (x ∷ []) (minus (x ∷ f.seen) (first_occurrences xs))
      ∙ ap (λ (r : List String). f.ordered ++ r)
          (sym (minus-new x f.seen (first_occurrences xs) new))
]

add_tools-append :
    (xs ys : List String) (f : Found) → add_tools (xs ++ ys) f ≡ add_tools ys (add_tools xs f)
unfolding add_tools
add_tools-append [] ys f = refl
add_tools-append (x ∷ xs) ys f = add_tools-append xs ys (add_tool x f)

add_priority_lem : (o : Option String) (f : Found) → add_priority o f ≡ add_tools (named o) f
unfolding add_priority add_tools
add_priority_lem none f = refl
add_priority_lem (some t) f = ground arith

priority_loop_lem :
    (ids : List String) (f : Found) → priority_loop ids f ≡ add_tools (priority_tools ids) f
unfolding priority_loop add_tools
priority_loop_lem [] f = refl
priority_loop_lem (tid ∷ ids) f =
    rw
      (
        add_tools-append (named (get_routing tid).priority_tool) (priority_tools ids) f,
        ← add_priority_lem (get_routing tid).priority_tool f,
      )
      (priority_loop_lem ids (add_priority (get_routing tid).priority_tool f))

tools_loop_lem :
    (ids : List String) (f : Found) → tools_loop ids f ≡ add_tools (prescribed_tools ids) f
unfolding tools_loop
tools_loop_lem [] f = unfold add_tools in refl
tools_loop_lem (tid ∷ ids) f =
    rw (add_tools-append (get_routing tid).tools (prescribed_tools ids) f)
      (tools_loop_lem ids (add_tools (get_routing tid).tools f))

abbrev nothing_found : Found
nothing_found = record { seen = []; ordered = [] }

loops_lem :
    (ids : List String)
    → tools_loop ids (priority_loop ids nothing_found)
      ≡ add_tools (priority_tools ids ++ prescribed_tools ids) nothing_found
loops_lem ids =
    tools_loop_lem ids (priority_loop ids nothing_found)
    ∙ ap (add_tools (prescribed_tools ids)) (priority_loop_lem ids nothing_found)
    ∙ sym (add_tools-append (priority_tools ids) (prescribed_tools ids) nothing_found)

-- The two loops over a shared set `seen` return the first occurrences in the list of all priority
-- tools followed by all prescribed tools: priority tools first, then the order of the techniques.
pub get_tools_for_techniques-eq-first_occurrences :
    (ids : List String)
    → get_tools_for_techniques ids ≡ first_occurrences (priority_tools ids ++ prescribed_tools ids)
unfolding get_tools_for_techniques
get_tools_for_techniques-eq-first_occurrences ids =
    ap (λ (f : Found). f.ordered) (loops_lem ids)
    ∙ add_tools-ordered (priority_tools ids ++ prescribed_tools ids) nothing_found
    ∙ minus-nil (first_occurrences (priority_tools ids ++ prescribed_tools ids))

contains-drop_all :
    (t x : String) (ys : List String) → contains t (drop_all x ys) ≡ (not (x == t) && contains t ys)
unfolding contains drop_all
contains-drop_all t x [] = ground arith
contains-drop_all t x (y ∷ ys) =
    ground (arith, contains-drop_all t x ys, eq_iff y x, eq_iff y t, eq_iff x t)

distinct-drop_all :
    (x : String) (ys : List String) → distinct ys ≡ true → distinct (drop_all x ys) ≡ true
unfolding drop_all
distinct-drop_all x [] h = refl
distinct-drop_all x (y ∷ ys) h = ground (arith, distinct-drop_all x ys, contains-drop_all y x ys)

pub contains-first_occurrences :
    (t : String) (xs : List String) → contains t (first_occurrences xs) ≡ contains t xs
unfolding contains first_occurrences
contains-first_occurrences t [] = refl
contains-first_occurrences t (x ∷ xs) =
    ground (arith, contains-first_occurrences t xs, contains-drop_all t x (first_occurrences xs))

pub distinct-first_occurrences : (xs : List String) → distinct (first_occurrences xs) ≡ true
unfolding first_occurrences
distinct-first_occurrences [] = refl
distinct-first_occurrences (x ∷ xs) = ground (
  arith,
  contains-drop_all x x (first_occurrences xs),
  eq_iff x x,
  distinct-drop_all x (first_occurrences xs) (distinct-first_occurrences xs),
)
