-- ===== src/Security/Content.antt =====
-- security/content_filter.py: the parameters that a model asks to call a tool with.
mod Tests
use text.Mathlib.Text.{find?}
use cyber_security_alert_tri.Common.{
  ℕ, String, Bool, true, false, ◌||◌, Option, none, some, List, [], ◌∷◌, ◌==◌, ltb, contains,
  if◌then◌else◌,
}
use cyber_security_alert_tri.Json.Membership.{any_in}
use cyber_security_alert_tri.Json.{
  Json, Items, Fields, str, arr, obj, int, nil, cons, end, field, get_field, is_truthy,
}
use cyber_security_alert_tri.Effects.{Result, ok, raised, type_error}

-- The reasons of `validate_tool_params`, without the excerpts in their texts.
pub data Reason : Type 0 where
  fine dangerous_spl ssrf_target too_many_hours : Reason

-- `_SSRF_TARGETS`
abbrev pub ssrf_targets : List String
ssrf_targets =
    "169.254.169.254" ∷ "metadata.google.internal" ∷ "localhost" ∷ "127.0.0.1" ∷ "0.0.0.0" ∷ []

-- `a or b`, on what `get` gives.
abbrev pub or_else : Option Json → Option Json → Option Json
or_else a b = if is_truthy a then a else b

abbrev pub value_or : Json → Option Json → Json
value_or d none = d
value_or d (some v) = v

-- `isinstance(hours_back, int) and hours_back > 8760`
abbrev pub over_a_year : Option Json → Bool
over_a_year (some (int n)) = ltb 8760 n
over_a_year _ = false

module _ (dangerous : String → Bool) where
  -- `raw_spl and _DANGEROUS_SPL_RE.search(raw_spl)`: only a text can be searched.
  abbrev pub spl_found : Option Json → Result Bool
  spl_found (some (str s)) = if s == "" then ok false else ok (dangerous s)
  spl_found v = if is_truthy v then raised type_error else ok false

  abbrev pub checked : Result Bool → Reason → Result (Bool × Reason) → Result (Bool × Reason)
  checked (raised e) reason rest = raised e
  checked (ok true) reason rest = ok (false, reason)
  checked (ok false) reason rest = rest

  -- The value that is looked at for an address.
  abbrev pub looked_at : Fields → Json
  looked_at params =
      let last = or_else (get_field "dst_ip" params) (some (str "")) in
      value_or (str "")
        (or_else (get_field "ioc_value" params) (or_else (get_field "src_ip" params) last))

  -- `validate_tool_params`; `dangerous` tells whether `_DANGEROUS_SPL_RE` is found in a text.
  pub validate_tool_params : String → Fields → Result (Bool × Reason)
  validate_tool_params tool_name params =
      let spl =
        if tool_name == "query_splunk" then spl_found (get_field "raw_spl" params) else ok false in
      let address =
        if contains tool_name ("lookup_threat_intel" ∷ "query_netflow" ∷ [])
        then any_in ssrf_targets (looked_at params)
        else ok false in
      checked spl dangerous_spl (
        checked address ssrf_target (
          if over_a_year (get_field "hours_back" params)
          then ok (false, too_many_hours)
          else ok (true, fine)))
