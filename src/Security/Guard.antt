-- ===== src/Security/Guard.antt =====
-- security/input_guard.py: the key of a request, the size of its body and the texts of its payload.
pub mod Keys
pub mod Clean
mod Tests
use Prim.Native.Char.{code}
use cyber_security_alert_tri.Common.{
  ℕ, suc, String, Bool, true, false, ◌||◌, Option, none, some, ◌==◌, ltb, nat_eq, if◌then◌else◌,
}
use cyber_security_alert_tri.Json.{Json, Items, Fields, obj, arr, str, end, field, nil, cons}
use cyber_security_alert_tri.Effects.{Result, ok, raised, http_error}

-- The two headers of a request that carry a key, where they are there.
pub record Headers : Type 0 where
  pub x_api_key : Option String
  pub authorization : Option String

-- What is left of a text after a prefix.
unfoldable pub after_prefix : String → String → Option String
after_prefix String.[] s = some s
after_prefix (String.◌∷◌ c p) String.[] = none
after_prefix (String.◌∷◌ c p) (String.◌∷◌ d s) =
    let rest = after_prefix p s in if nat_eq (code c) (code d) then rest else none

abbrev pub or_whole : String → Option String → String
or_whole s none = s
or_whole s (some t) = t

-- `s.removeprefix(p)`
abbrev pub remove_prefix : String → String → String
remove_prefix p s = or_whole s (after_prefix p s)

abbrev pub text_of : Option String → String
text_of none = ""
text_of (some t) = t

-- The key that a request provides.
unfoldable pub provided_key : Headers → String
provided_key headers =
    if text_of headers.x_api_key == ""
    then remove_prefix "Bearer " (text_of headers.authorization)
    else text_of headers.x_api_key

-- `validate_api_key`; the first argument is the key of the settings.
unfoldable pub validate_api_key : String → Headers → Result (Unit {0})
validate_api_key api_key headers =
    if provided_key headers == api_key then ok tt else raised (http_error 401)

-- `MAX_PAYLOAD_BYTES`
abbrev pub max_payload_bytes : ℕ
max_payload_bytes = 1000000

-- `check_payload_size`, on the number of bytes.
unfoldable pub check_payload_size : ℕ → Result (Unit {0})
check_payload_size n = if ltb max_payload_bytes n then raised (http_error 413) else ok tt

-- The two regular expressions: `strip_scripts` replaces what `_SCRIPT_RE` matches by nothing, and
-- `injection` tells whether `_INJECTION_RE` matches.
pub record Patterns : Type 0 where
  pub strip_scripts : String → String
  pub injection : String → Bool

module _ (patterns : Patterns) where
  -- `sanitise_string`
  unfoldable pub sanitise_string : String → String
  sanitise_string value =
      let stripped = patterns.strip_scripts value in
      if patterns.injection stripped then "[REDACTED]" else stripped

  -- `sanitise_payload`, with the loop over the elements of a list; the depth is the same for every pair
  -- of a dictionary.
  unfoldable mutual
    pub sanitise_payload : ℕ → Fields → Fields
    sanitise_payload depth end = end
    sanitise_payload depth (field key value fs) =
        let cleaned = field key (sanitise_value depth value) (sanitise_payload depth fs) in
        if ltb 5 depth then field key value fs else cleaned

    pub sanitise_value : ℕ → Json → Json
    sanitise_value depth (str s) = str (sanitise_string s)
    sanitise_value depth (obj fs) = obj (sanitise_payload (suc depth) fs)
    sanitise_value depth (arr xs) = arr (sanitise_elements depth xs)
    sanitise_value depth v = v

    pub sanitise_elements : ℕ → Items → Items
    sanitise_elements depth nil = nil
    sanitise_elements depth (cons (obj fs) xs) =
        cons (obj (sanitise_payload (suc depth) fs)) (sanitise_elements depth xs)
    sanitise_elements depth (cons (str s) xs) =
        cons (str (sanitise_string s)) (sanitise_elements depth xs)
    sanitise_elements depth (cons v xs) = cons v (sanitise_elements depth xs)
