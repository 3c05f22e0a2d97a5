-- ===== src/Ingest/Expand/Nested.antt =====
-- components/alert_normalizer.py: what is left of a payload when its envelopes are off.
use mathlib.Core.Path.{subst}
use cyber_security_alert_tri.Common.{
  ℕ, zero, suc, ◌≤◌, ◌<◌, String, Bool, true, false, ◌&&◌, not, Option, none, some, List, [], ◌∷◌,
  ◌≡◌, refl, eq_refl, contains, arith, if◌then◌else◌,
}
use cyber_security_alert_tri.Json.{
  Json, Fields, null, bool, int, negative, float, str, obj, arr, end, field, get_field,
}
use cyber_security_alert_tri.Schema.{AlertSource, generic}
use cyber_security_alert_tri.Effects.{Result, ok, raised}
use cyber_security_alert_tri.Ingest.Detect.{is_detection_finding_payload, detect_source}
use cyber_security_alert_tri.Ingest.Expand.{
  Unwrapped, same_source, by_source, try_inner, or_next, try_keys, try_sole, with_outer, sole_keys,
  envelope_keys, unwrap_once, unwrap_rounds, first_record, expand_auto_ingest_payload,
}

-- The second dictionary is reached from the first through `n` keys.
pub data Nested : ℕ → Fields → Fields → Type 0 where
  here : {p : Fields} → Nested zero p p
  below :
      {n : ℕ} {p r q : Fields} (key : String)
      → get_field key p ≡ some (obj r)
      → Nested n r q
      → Nested (suc n) p q

-- A dictionary of `p` that was unwrapped.
abbrev From : Fields → Unwrapped → Type 0
From p (raised e) = Unit {0}
From p (ok none) = Unit {0}
From p (ok (some r)) = (key : String) × (get_field key p ≡ some (obj r))

or_next-From : (p : Fields) (a b : Unwrapped) → From p a → From p b → From p (or_next a b)
or_next-From p (raised e) b h k = tt
or_next-From p (ok (some r)) b h k = h
or_next-From p (ok none) b h k = k

if-From :
    (p : Fields) (b : Bool) (x y : Unwrapped) → From p x → From p y → From p (if b then x else y)
if-From p true x y h k = h
if-From p false x y h k = k

by_source-From :
    (p inner : Fields) (key : String) (outer : AlertSource) (r : Result AlertSource)
    → get_field key p ≡ some (obj inner)
    → From p (by_source outer inner r)
by_source-From p inner key outer (raised e) h = tt
by_source-From p inner key outer (ok source) h =
    let new = not (same_source source outer) && not (same_source source generic) in
    if-From p (not (same_source source generic) && same_source outer generic) (ok (some inner))
      (if new then ok (some inner) else ok none) (key, h)
      (if-From p new (ok (some inner)) (ok none) (key, h) tt)

try_inner-From :
    (p : Fields) (key : String) (outer : AlertSource) (o : Option Json)
    → get_field key p ≡ o
    → From p (try_inner outer o)
try_inner-From p key outer none h = tt
try_inner-From p key outer (some (obj inner)) h =
    if-From p (is_detection_finding_payload inner) (ok (some inner))
      (by_source outer inner (detect_source inner)) (key, h)
      (by_source-From p inner key outer (detect_source inner) h)
try_inner-From p key outer (some null) h = tt
try_inner-From p key outer (some (bool b)) h = tt
try_inner-From p key outer (some (int n)) h = tt
try_inner-From p key outer (some (negative n)) h = tt
try_inner-From p key outer (some (float s)) h = tt
try_inner-From p key outer (some (str s)) h = tt
try_inner-From p key outer (some (arr xs)) h = tt

try_keys-From :
    (p : Fields) (outer : AlertSource) (keys : List String) → From p (try_keys outer p keys)
unfolding try_keys
try_keys-From p outer [] = tt
try_keys-From p outer (key ∷ keys) =
    or_next-From p (try_inner outer (get_field key p)) (try_keys outer p keys)
      (try_inner-From p key outer (get_field key p) refl) (try_keys-From p outer keys)

sole-get : (key : String) (v : Json) → get_field key (field key v end) ≡ some v
unfolding get_field
sole-get key v = ground (arith, eq_refl key)

try_sole-From : (lower : String → String) (p : Fields) → From p (try_sole lower p)
try_sole-From lower end = tt
try_sole-From lower (field key (obj inner) end) =
    if-From (field key (obj inner) end) (contains (lower key) sole_keys) (ok (some inner)) (ok none)
      (key, sole-get key (obj inner)) tt
try_sole-From lower (field key (obj inner) (field k v fs)) = tt
try_sole-From lower (field key null fs) = tt
try_sole-From lower (field key (bool b) fs) = tt
try_sole-From lower (field key (int n) fs) = tt
try_sole-From lower (field key (negative n) fs) = tt
try_sole-From lower (field key (float s) fs) = tt
try_sole-From lower (field key (str s) fs) = tt
try_sole-From lower (field key (arr xs) fs) = tt

with_outer-From :
    (lower : String → String) (p : Fields) (r : Result AlertSource) → From p (with_outer lower p r)
with_outer-From lower p (raised e) = tt
with_outer-From lower p (ok outer) =
    or_next-From p (try_keys outer p envelope_keys) (try_sole lower p)
      (try_keys-From p outer envelope_keys) (try_sole-From lower p)

unwrap_once-From : (lower : String → String) (p : Fields) → From p (unwrap_once lower p)
unfolding unwrap_once
unwrap_once-From lower p =
    if-From p (is_detection_finding_payload p) (ok none) (with_outer lower p (detect_source p)) tt
      (with_outer-From lower p (detect_source p))

-- Below `p` there is `q`, through at most `n` keys; with fewer, another round leaves `q` as it is.
abbrev pub Reached : (String → String) → ℕ → Fields → Fields → Type 0
Reached lower n p q = (k : ℕ) × Nested k p q × (k ≤ n) × (k < n → unwrap_once lower q ≡ ok none)

went_on :
    (lower : String → String) (n : ℕ) (p r q : Fields)
    → From p (ok (some r))
    → Reached lower n r q
    → Reached lower (suc n) p q
went_on lower n p r q (key, at) (k, nested, few, settled) =
    (suc k, below key at nested, omega (arith, few), λ less. settled (omega (arith, less)))

after_round :
    (lower : String → String) (n : ℕ) (p q : Fields) (u : Unwrapped)
    → unwrap_once lower p ≡ u
    → From p u
    → ((r : Fields) → unwrap_rounds lower n r ≡ ok q → Reached lower n r q)
    → (elim u [
      | raised e ↦ raised e
      | ok none ↦ ok p
      | ok (some inner) ↦ unwrap_rounds lower n inner
    ])
      ≡ ok q
    → Reached lower (suc n) p q
after_round lower n p q (raised e) h from rest given = absurd (ground arith)
after_round lower n p q (ok none) h from rest given =
    let same : p ≡ q = ground arith in
    subst (λ r. Reached lower (suc n) p r) same (zero, here, omega arith, λ less. h)
after_round lower n p q (ok (some r)) h from rest given = went_on lower n p r q from (rest r given)

unwrap_rounds-Reached :
    (lower : String → String) (n : ℕ) (p q : Fields)
    → unwrap_rounds lower n p ≡ ok q
    → Reached lower n p q
unfolding unwrap_rounds
unwrap_rounds-Reached lower zero p q given =
    let same : p ≡ q = ground arith in
    subst (λ r. Reached lower zero p r) same
      (zero, here, omega arith, λ less. absurd (omega (arith, less)))
unwrap_rounds-Reached lower (suc n) p q given =
    after_round lower n p q (unwrap_once lower p) refl (unwrap_once-From lower p)
      (λ r. unwrap_rounds-Reached lower n r q) given

-- What expand_auto_ingest_payload makes of a payload is a dictionary of that payload: it is reached from the
-- payload, or from the first of its records, through at most six keys. Where it took fewer than six,
-- another round would unwrap nothing.
pub expand_auto_ingest_payload-Reached :
    (lower : String → String) (payload q : Fields)
    → expand_auto_ingest_payload lower payload ≡ ok q
    → Reached lower 6 (first_record payload (get_field "records" payload)) q
unfolding expand_auto_ingest_payload
expand_auto_ingest_payload-Reached lower payload q given =
    unwrap_rounds-Reached lower 6 (first_record payload (get_field "records" payload)) q given
