-- ===== src/Security/Guard/Tests.antt =====
-- security/input_guard.py: requests and payloads, and the theorems about them.
use Prim.Native.String.{◌++◌ as ◌+s◌}
use cyber_security_alert_tri.Common.{String, false, none, some, [], ◌∷◌, ◌≡◌, ◌⊎◌, refl, ◌==◌, leb}
use cyber_security_alert_tri.Json.{Fields, str, arr, obj, nil, cons, end, field, get_field, get}
use cyber_security_alert_tri.Effects.{ok, raised, http_error}
use cyber_security_alert_tri.Security.Guard.{
  Headers, Patterns, after_prefix, provided_key, validate_api_key, check_payload_size,
  sanitise_string, sanitise_payload,
}
use cyber_security_alert_tri.Security.Guard.Keys.{validate_api_key-exact}
use cyber_security_alert_tri.Security.Guard.Clean.{text_at, cleaned_if, sanitise_payload-text_at}

abbrev bearer : Headers
bearer = record { x_api_key = none; authorization = some "Bearer k-1" }

abbrev header : Headers
header = record { x_api_key = some "k-1"; authorization = none }

bearer_passes : validate_api_key "k-1" bearer ≡ ok tt
unfolding validate_api_key provided_key after_prefix
bearer_passes = refl

other_key : validate_api_key "k-2" header ≡ raised (http_error 401)
unfolding validate_api_key provided_key
other_key = refl

-- With an empty key in the settings a request without headers passes.
no_key : validate_api_key "" (record { x_api_key = none; authorization = none }) ≡ ok tt
unfolding validate_api_key provided_key after_prefix
no_key = refl

largest_body : check_payload_size 1000000 ≡ ok tt
unfolding check_payload_size
largest_body = refl

larger_body : check_payload_size 1000001 ≡ raised (http_error 413)
unfolding check_payload_size
larger_body = refl

validate_api_key-exact_example :
    (validate_api_key "k-1" bearer ≡ ok tt
      → (bearer.x_api_key ≡ some "k-1")
        ⊎ (bearer.authorization ≡ some "k-1")
        ⊎ (bearer.authorization ≡ some ("Bearer " +s "k-1"))
        ⊎ (◌≡◌ {A = String} "k-1" ""))
    × (("k-1" == "") ≡ false
        → bearer.x_api_key ≡ some "k-1"
        → validate_api_key "k-1" bearer ≡ ok tt)
    × (bearer.x_api_key ≡ none
        → bearer.authorization ≡ some ("Bearer " +s "k-1")
        → validate_api_key "k-1" bearer ≡ ok tt)
    × ((t : String)
        → bearer.x_api_key ≡ some t
        → (t == "") ≡ false
        → (t == "k-1") ≡ false
        → validate_api_key "k-1" bearer ≡ raised (http_error 401))
    × ((validate_api_key "k-1" bearer ≡ ok tt)
        ⊎ (validate_api_key "k-1" bearer ≡ raised (http_error 401)))
validate_api_key-exact_example = validate_api_key-exact "k-1" bearer

-- One text is an attack.
abbrev patterns : Patterns
patterns = record { strip_scripts = λ s. s; injection = λ s. s == "DROP TABLE x" }

abbrev nested : Fields → Fields
nested fs = field "a" (obj fs) end

abbrev attack : Fields
attack = field "q" (str "DROP TABLE x") end

abbrev shallow : Fields
shallow = nested (nested (nested (nested (nested attack))))

shallow_cleaned :
    sanitise_payload patterns 0 shallow
    ≡ nested (nested (nested (nested (nested (field "q" (str "[REDACTED]") end)))))
unfolding sanitise_payload sanitise_string
shallow_cleaned = refl

-- One level below, and in a list in a list, the attack stays.
deep_kept : sanitise_payload patterns 0 (nested shallow) ≡ nested shallow
unfolding sanitise_payload
deep_kept = refl

abbrev in_list : Fields
in_list = field "q" (arr (cons (arr (cons (str "DROP TABLE x") nil)) nil)) end

list_kept : sanitise_payload patterns 0 in_list ≡ in_list
unfolding sanitise_payload
list_kept = refl

sanitise_payload-text_at_example :
    text_at ("a" ∷ "q" ∷ []) (obj (sanitise_payload patterns 0 (nested attack)))
    ≡ cleaned_if patterns (leb 2 6) (text_at ("a" ∷ "q" ∷ []) (obj (nested attack)))
sanitise_payload-text_at_example = sanitise_payload-text_at patterns "a" ("q" ∷ []) (nested attack)

found_there :
    text_at ("a" ∷ "q" ∷ []) (obj (sanitise_payload patterns 0 (nested attack))) ≡ some "[REDACTED]"
unfolding text_at get get_field sanitise_payload sanitise_string
found_there = refl
