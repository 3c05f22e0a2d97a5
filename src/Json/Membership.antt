-- ===== src/Json/Membership.antt =====
-- Python's `in` on JSON values.
use text.Mathlib.Text.{find?}
use cyber_security_alert_tri.Common.{
  ℕ, String, Bool, true, false, ◌||◌, Option, none, some, List, [], ◌∷◌, contains, ◌==◌,
}
use cyber_security_alert_tri.Json.{Json, Items, Fields, str, arr, obj, nil, cons, end, field}
use cyber_security_alert_tri.Effects.{Result, ok, raised, type_error}

abbrev found : Option ℕ → Bool
found none = false
found (some n) = true

-- `t in s` for texts.
abbrev pub occurs : String → String → Bool
occurs t s = found (find? s t)

unfoldable pub any_occurs : List String → String → Bool
any_occurs [] s = false
any_occurs (t ∷ ts) s = occurs t s || any_occurs ts s

unfoldable pub element_of : List String → Items → Bool
element_of ts nil = false
element_of ts (cons (str s) xs) = let rest = element_of ts xs in contains s ts || rest
element_of ts (cons v xs) = element_of ts xs

unfoldable pub key_of : List String → Fields → Bool
key_of ts end = false
key_of ts (field k v fs) = let rest = key_of ts fs in contains k ts || rest

-- `any(target in v for target in ts)` where there is a target: `in` of a value that holds nothing raises.
abbrev pub any_in : List String → Json → Result Bool
any_in ts (str s) = ok (any_occurs ts s)
any_in ts (arr xs) = ok (element_of ts xs)
any_in ts (obj fs) = ok (key_of ts fs)
any_in ts v = raised type_error

-- `k in d` for a dictionary.
unfoldable pub has_key : String → Fields → Bool
has_key k end = false
has_key k (field j v fs) = let rest = has_key k fs in j == k || rest
