-- ===== src/Json.antt =====
-- The JSON values that alerts, tool parameters and tool results are made of (Python's `dict`, `list`,
-- `str`, `int`, `bool`, `None`). A float stands for its printed form, which the program passes on.
pub mod Membership
use cyber_security_alert_tri.Common.{
  ℕ, String, Bool, true, false, not, ◌||◌, Option, none, some, ◌==◌, if◌then◌else◌, nat_eq,
}

mutual
  pub data Json : Type 0 where
    null : Json
    bool : Bool → Json
    int : ℕ → Json
    negative : ℕ → Json
    float : String → Json
    str : String → Json
    arr : Items → Json
    obj : Fields → Json

  pub data Items : Type 0 where
    nil : Items
    cons : Json → Items → Items

  pub data Fields : Type 0 where
    end : Fields
    field : String → Json → Fields → Fields

-- `d.get(k)` of the fields of a dictionary.
unfoldable pub get_field : String → Fields → Option Json
get_field k end = none
get_field k (field j v fs) = if j == k then some v else get_field k fs

-- `d.get(k)` where `d` may be no dictionary.
unfoldable pub get : String → Json → Option Json
unfolding get_field
get k (obj fs) = get_field k fs
get k _ = none

-- Python's truth value of an optional JSON value, where `negative n` is not zero: a float is false only if
-- it is zero, of either sign.
abbrev pub truthy : Json → Bool
truthy null = false
truthy (bool b) = b
truthy (int n) = not (nat_eq n 0)
truthy (negative n) = true
truthy (float s) = not (s == "0.0" || s == "-0.0")
truthy (str s) = not (s == "")
truthy (arr nil) = false
truthy (arr (cons x xs)) = true
truthy (obj end) = false
truthy (obj (field k v fs)) = true

abbrev pub is_truthy : Option Json → Bool
is_truthy none = false
is_truthy (some v) = truthy v

abbrev pub is_obj : Json → Bool
is_obj (obj fs) = true
is_obj _ = false

-- A text, or `None`.
abbrev pub opt_str : Option String → Json
opt_str none = null
opt_str (some s) = str s
