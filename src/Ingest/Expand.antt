-- ===== src/Ingest/Expand.antt =====
-- components/alert_normalizer.py: the envelopes that are taken off a payload.
pub mod Nested
mod Tests
use cyber_security_alert_tri.Common.{
  ℕ, zero, suc, String, Bool, true, false, ◌&&◌, ◌||◌, not, Option, none, some, List, [], ◌∷◌, ◌==◌,
  contains, if◌then◌else◌,
}
use cyber_security_alert_tri.Json.{Json, Items, Fields, obj, arr, nil, cons, end, field, get_field}
use cyber_security_alert_tri.Schema.{AlertSource, source_value, generic}
use cyber_security_alert_tri.Effects.{Result, ok, raised}
use cyber_security_alert_tri.Ingest.Detect.{is_detection_finding_payload, detect_source}

-- The keys of the envelopes, and of those that are taken off where nothing else is there.
abbrev envelope_keys : List String
envelope_keys = "data" ∷ "alert" ∷ "body" ∷ "payload" ∷ "properties" ∷ "resource" ∷ []

abbrev sole_keys : List String
sole_keys = "alert" ∷ "data" ∷ "body" ∷ "payload" ∷ "event" ∷ "result" ∷ "resource" ∷ []

-- `a is b` for sources.
abbrev pub same_source : AlertSource → AlertSource → Bool
same_source a b = source_value a == source_value b

-- What a try to unwrap gives: the inner dictionary, or none.
abbrev pub Unwrapped : Type 0
Unwrapped = Result (Option Fields)

-- The two tests of an inner dictionary by its source.
abbrev by_source : AlertSource → Fields → Result AlertSource → Unwrapped
by_source outer inner (raised e) = raised e
by_source outer inner (ok source) =
    if not (same_source source generic) && same_source outer generic
    then ok (some inner)
    else if not (same_source source outer) && not (same_source source generic)
    then ok (some inner)
    else ok none

abbrev try_inner : AlertSource → Option Json → Unwrapped
try_inner outer (some (obj inner)) =
    if is_detection_finding_payload inner
    then ok (some inner)
    else by_source outer inner (detect_source inner)
try_inner outer _ = ok none

-- The `for` over the keys, which stops at the first that unwraps.
abbrev or_next : Unwrapped → Unwrapped → Unwrapped
or_next (raised e) rest = raised e
or_next (ok (some inner)) rest = ok (some inner)
or_next (ok none) rest = rest

unfoldable pub try_keys : AlertSource → Fields → List String → Unwrapped
try_keys outer p [] = ok none
try_keys outer p (key ∷ keys) =
    let rest = try_keys outer p keys in or_next (try_inner outer (get_field key p)) rest

-- The single pair of a dictionary, where its key is one of an envelope; `lower` is `str.lower`.
abbrev pub try_sole : (String → String) → Fields → Unwrapped
try_sole lower (field key (obj inner) end) =
    if contains (lower key) sole_keys then ok (some inner) else ok none
try_sole lower p = ok none

abbrev with_outer : (String → String) → Fields → Result AlertSource → Unwrapped
with_outer lower p (raised e) = raised e
with_outer lower p (ok outer) = or_next (try_keys outer p envelope_keys) (try_sole lower p)

-- One round of the `while`: the inner dictionary where something changed.
unfoldable pub unwrap_once : (String → String) → Fields → Unwrapped
unfolding try_keys
unwrap_once lower p =
    if is_detection_finding_payload p then ok none else with_outer lower p (detect_source p)

-- The rounds, where `n` more are allowed.
unfoldable pub unwrap_rounds : (String → String) → ℕ → Fields → Result Fields
unwrap_rounds lower zero p = ok p
unwrap_rounds lower (suc n) p = elim (unwrap_once lower p) [
  | raised e ↦ raised e
  | ok none ↦ ok p
  | ok (some inner) ↦ unwrap_rounds lower n inner
]

-- The first of the records, where they are a list of dictionaries.
abbrev pub first_record : Fields → Option Json → Fields
first_record p (some (arr (cons (obj r) xs))) = r
first_record p _ = p

-- `expand_auto_ingest_payload`
unfoldable pub expand_auto_ingest_payload : (String → String) → Fields → Result Fields
expand_auto_ingest_payload lower payload =
    unwrap_rounds lower 6 (first_record payload (get_field "records" payload))
