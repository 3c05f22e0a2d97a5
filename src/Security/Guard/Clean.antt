-- ===== src/Security/Guard/Clean.antt =====
-- security/input_guard.py: which texts of a payload are cleaned.
use cyber_security_alert_tri.Common.{
  ℕ, suc, ◌+◌, ◌≤◌, String, Bool, true, false, Option, none, some, List, [], ◌∷◌, ◌≡◌, refl, ap,
  sym, ◌∙◌, ◌⊎◌, inl, inr, leb, length, arith, if◌then◌else◌,
}
use cyber_security_alert_tri.Json.{
  Json, Fields, null, bool, int, negative, float, obj, arr, str, end, field, get_field, get,
}
use cyber_security_alert_tri.Security.Guard.{
  Patterns, sanitise_string, sanitise_payload, sanitise_value,
}

abbrev text_of_value : Json → Option String
text_of_value (str s) = some s
text_of_value _ = none

-- The text that is found in a value along a path of keys.
unfoldable pub text_at : List String → Json → Option String
text_at [] v = text_of_value v
text_at (k ∷ ks) v = elim (get k v) [ none ↦ none | some w ↦ text_at ks w ]

abbrev pub map_option {ℓ κ} : {A : Type ℓ} {B : Type κ} → (A → B) → Option A → Option B
map_option f none = none
map_option f (some a) = some (f a)

low_or_deep : (d : ℕ) → (d ≤ 5) ⊎ (6 ≤ d)
low_or_deep d = omega arith

module _ (patterns : Patterns) where
  abbrev pub cleaned_if : Bool → Option String → Option String
  cleaned_if b o = if b then map_option (sanitise_string patterns) o else o

  get_field-sanitise_payload :
      (k : String) (d : ℕ) (fs : Fields)
      → d ≤ 5
      → get_field k (sanitise_payload patterns d fs)
        ≡ map_option (sanitise_value patterns d) (get_field k fs)
  unfolding get_field sanitise_payload
  get_field-sanitise_payload k d end low = refl
  get_field-sanitise_payload k d (field j v fs) low =
      ground (arith, get_field-sanitise_payload k d fs low)

  deep-sanitise_payload : (d : ℕ) (fs : Fields) → 6 ≤ d → sanitise_payload patterns d fs ≡ fs
  unfolding sanitise_payload
  deep-sanitise_payload d end deep = refl
  deep-sanitise_payload d (field j v fs) deep = ground arith

  -- What is claimed of a value below a dictionary at depth `d`.
  abbrev CleanBelow : List String → ℕ → Json → Type 0
  CleanBelow ks d v =
      text_at ks (sanitise_value patterns d v) ≡ cleaned_if (leb (d + length ks) 5) (text_at ks v)

  found :
      (ks : List String) (d : ℕ) (o : Option Json)
      → ((v : Json) → CleanBelow ks d v)
      → (elim (map_option (sanitise_value patterns d) o) [ none ↦ none | some w ↦ text_at ks w ])
        ≡ cleaned_if (leb (d + length ks) 5) (elim o [ none ↦ none | some w ↦ text_at ks w ])
  found ks d none below = ground arith
  found ks d (some v) below = below v

  -- From the values below a dictionary to the dictionary.
  in_payload :
      (k : String) (ks : List String) (d : ℕ) (fs : Fields)
      → (d ≤ 5 → (v : Json) → CleanBelow ks d v)
      → text_at (k ∷ ks) (obj (sanitise_payload patterns d fs))
        ≡ cleaned_if (leb (d + length ks) 5) (text_at (k ∷ ks) (obj fs))
  unfolding text_at get
  in_payload k ks d fs below = elim (low_or_deep d) [
    | inl low ↦
        ap (λ o. elim o [ none ↦ none | some w ↦ text_at ks w ])
          (get_field-sanitise_payload k d fs low)
        ∙ found ks d (get_field k fs) (below low)
    | inr deep ↦
        let e = deep-sanitise_payload d fs deep in
        let skipped : leb (d + length ks) 5 ≡ false = ground arith in
        ap (λ gs. text_at (k ∷ ks) (obj gs)) e
        ∙ sym (ap (λ b. cleaned_if b (text_at (k ∷ ks) (obj fs))) skipped)
  ]

  in_value : (ks : List String) (d : ℕ) → d ≤ 5 → (v : Json) → CleanBelow ks d v
  unfolding text_at get sanitise_payload
  in_value [] d low (str s) = ground arith
  in_value [] d low null = ground arith
  in_value [] d low (bool b) = ground arith
  in_value [] d low (int n) = ground arith
  in_value [] d low (negative n) = ground arith
  in_value [] d low (float s) = ground arith
  in_value [] d low (arr xs) = ground arith
  in_value [] d low (obj fs) = ground arith
  in_value (k ∷ ks) d low (obj fs) =
      let below = in_payload k ks (suc d) fs (λ h. in_value ks (suc d) h) in
      let deeper : suc d + length ks ≡ d + suc (length ks) = omega arith in
      below ∙ ap (λ n. cleaned_if (leb n 5) (text_at (k ∷ ks) (obj fs))) deeper
  in_value (k ∷ ks) d low (str s) = ground arith
  in_value (k ∷ ks) d low null = ground arith
  in_value (k ∷ ks) d low (bool b) = ground arith
  in_value (k ∷ ks) d low (int n) = ground arith
  in_value (k ∷ ks) d low (negative n) = ground arith
  in_value (k ∷ ks) d low (float s) = ground arith
  in_value (k ∷ ks) d low (arr xs) = ground arith

  -- The text at the end of a path of keys is cleaned by sanitise_payload exactly where the path has at most
  -- six keys; below that the payload stays as it came. A path with no text at its end gains none.
  pub sanitise_payload-text_at :
      (k : String) (ks : List String) (fs : Fields)
      → text_at (k ∷ ks) (obj (sanitise_payload patterns 0 fs))
        ≡ cleaned_if (leb (length (k ∷ ks)) 6) (text_at (k ∷ ks) (obj fs))
  sanitise_payload-text_at k ks fs =
      in_payload k ks 0 fs (in_value ks 0)
      ∙ ap (λ b. cleaned_if b (text_at (k ∷ ks) (obj fs))) (ground arith)

  sanitise_string-Harmless :
      (s : String)
      → patterns.injection "[REDACTED]" ≡ false
      → patterns.injection (sanitise_string patterns s) ≡ false
  unfolding sanitise_string
  sanitise_string-Harmless s h = ground arith

  cleaned-Harmless :
      (o : Option String) (t : String)
      → patterns.injection "[REDACTED]" ≡ false
      → map_option (sanitise_string patterns) o ≡ some t
      → patterns.injection t ≡ false
  cleaned-Harmless none t h e = ground arith
  cleaned-Harmless (some s) t h e = ground (arith, sanitise_string-Harmless s h)

  -- In a payload that sanitise_payload has cleaned no text on a path of at most six keys matches the injection
  -- pattern, if that pattern does not match "[REDACTED]".
  pub sanitise_payload-Harmless :
      (k : String) (ks : List String) (fs : Fields) (t : String)
      → patterns.injection "[REDACTED]" ≡ false
      → length (k ∷ ks) ≤ 6
      → text_at (k ∷ ks) (obj (sanitise_payload patterns 0 fs)) ≡ some t
      → patterns.injection t ≡ false
  sanitise_payload-Harmless k ks fs t h few found_t =
      let shallow : leb (length (k ∷ ks)) 6 ≡ true = ground arith in
      cleaned-Harmless (text_at (k ∷ ks) (obj fs)) t h (
        ap (λ b. cleaned_if b (text_at (k ∷ ks) (obj fs))) (sym shallow)
        ∙ sym (sanitise_payload-text_at k ks fs)
        ∙ found_t)
