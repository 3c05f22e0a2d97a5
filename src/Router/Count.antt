-- ===== src/Router/Count.antt =====
-- services/mitre_router.py: how many tools one list of techniques can prescribe.
use cyber_security_alert_tri.Common.{
  ◌+◌, ◌≤◌, String, true, false, List, [], ◌∷◌, ◌≡◌, ◌==◌, eq_iff, eq_refl, arith, contains,
  distinct, length, if◌then◌else◌,
}
use cyber_security_alert_tri.Router.{get_tools_for_techniques}
use cyber_security_alert_tri.Router.Bounds.{registered_tools, get_tools_for_techniques-exact}

-- The list without its first occurrence of a text.
erase : String → List String → List String
erase x [] = []
erase x (y ∷ ys) = let rest = erase x ys in if y == x then ys else y ∷ rest

length-erase :
    (x : String) (ys : List String) → contains x ys ≡ true → length (erase x ys) + 1 ≡ length ys
unfolding erase contains
length-erase x [] h = cc
length-erase x (y ∷ ys) h = ground (arith, length-erase x ys)

contains-erase :
    (t x : String) (ys : List String)
    → contains t ys ≡ true
    → (x == t) ≡ false
    → contains t (erase x ys) ≡ true
unfolding erase contains
contains-erase t x [] h k = cc
contains-erase t x (y ∷ ys) h k =
    ground (arith, contains-erase t x ys, eq_iff y x, eq_iff y t, eq_iff x t)

not_head :
    (x t : String) (xs : List String)
    → contains x xs ≡ false
    → contains t xs ≡ true
    → (x == t) ≡ false
unfolding contains
not_head x t [] h k = cc
not_head x t (y ∷ xs) h k = ground (arith, not_head x t xs, eq_iff x t, eq_iff y x, eq_iff y t)

-- Distinct texts out of a list are at most as many as the list has.
length-le_of_distinct :
    (xs ys : List String)
    → distinct xs ≡ true
    → ((t : String) → contains t xs ≡ true → contains t ys ≡ true)
    → length xs ≤ length ys
length-le_of_distinct [] ys d h = omega arith
length-le_of_distinct (x ∷ xs) ys d h =
    let fresh : contains x xs ≡ false = ground arith in
    let here : contains x ys ≡ true = h x (unfold contains in ground (arith, eq_refl x)) in
    omega (
      arith,
      length-erase x ys here,
      length-le_of_distinct xs (erase x ys) (ground arith) (λ t c.
          contains-erase t x ys (h t (unfold contains in ground arith)) (not_head x t xs fresh c)),
    )

-- No list of techniques prescribes more than the nine registered tools.
pub length-get_tools_le : (ids : List String) → length (get_tools_for_techniques ids) ≤ 9
length-get_tools_le ids =
    let exact = get_tools_for_techniques-exact ids in
    length-le_of_distinct (get_tools_for_techniques ids) registered_tools exact.0 exact.2
