-- ===== src/Security/Guard/Keys.antt =====
-- security/input_guard.py: which requests the key check lets through.
use mathlib.Core.Path.{subst}
use text.Mathlib.TextLemmas.{cons-append, nil-append}
use text.Mathlib.TextEquality.{Char-path}
use Prim.Native.Char.{Char, code}
use Prim.Native.String.{◌++◌ as ◌+s◌}
use cyber_security_alert_tri.Common.{
  String, false, Option, none, some, ◌≡◌, refl, sym, ap, ◌∙◌, ◌⊎◌, inl, inr, ◌==◌, arith, eq_iff,
  if_both,
}
use cyber_security_alert_tri.Effects.{ok, raised, http_error}
use cyber_security_alert_tri.Security.Guard.{
  Headers, after_prefix, remove_prefix, or_whole, text_of, provided_key, validate_api_key,
}

prepend : (c d : Char) (s u : String) → code c ≡ code d → s ≡ u → String.◌∷◌ d s ≡ String.◌∷◌ c u
prepend c d s u e h = ap (λ x. String.◌∷◌ x s) (sym (Char-path c d e)) ∙ ap (String.◌∷◌ c) h

after_prefix_sound : (p s t : String) → after_prefix p s ≡ some t → s ≡ p +s t
unfolding after_prefix
after_prefix_sound String.[] s t h = ground (arith, nil-append t)
after_prefix_sound (String.◌∷◌ c p) String.[] t h = ground arith
after_prefix_sound (String.◌∷◌ c p) (String.◌∷◌ d s) t h =
    let same : code c ≡ code d = ground arith in
    let rest : after_prefix p s ≡ some t = ground arith in
    prepend c d s (p +s t) same (after_prefix_sound p s t rest) ∙ sym (cons-append c p t)

after_prefix-append : (p t : String) → after_prefix p (p +s t) ≡ some t
unfolding after_prefix
after_prefix-append String.[] t = ap some (nil-append t)
after_prefix-append (String.◌∷◌ c p) t =
    ap (after_prefix (String.◌∷◌ c p)) (cons-append c p t) ∙ ground (arith, after_prefix-append p t)

remove_prefix-cases : (p s : String) → (remove_prefix p s ≡ s) ⊎ (s ≡ p +s remove_prefix p s)
remove_prefix-cases p s = prefix_or_whole (after_prefix p s) (after_prefix_sound p s)
  where
    prefix_or_whole :
        (o : Option String)
        → ((t : String) → o ≡ some t → s ≡ p +s t)
        → (or_whole s o ≡ s) ⊎ (s ≡ p +s or_whole s o)
    prefix_or_whole none h = inl refl
    prefix_or_whole (some t) h = inr (h t refl)

abbrev provided : Option String → Option String → String
provided x a = provided_key (record { x_api_key = x; authorization = a })

authorization-cases :
    (a : Option String)
    → (a ≡ some (remove_prefix "Bearer " (text_of a)))
      ⊎ (a ≡ some ("Bearer " +s remove_prefix "Bearer " (text_of a)))
      ⊎ (remove_prefix "Bearer " (text_of a) ≡ "")
unfolding after_prefix
authorization-cases none = inr (inr refl)
authorization-cases (some t) = elim (remove_prefix-cases "Bearer " t) [
  | inl e ↦ inl (ap some (sym e))
  | inr e ↦ inr (inl (ap some e))
]

provided_key-cases :
    (x a : Option String)
    → (x ≡ some (provided x a))
      ⊎ (a ≡ some (provided x a))
      ⊎ (a ≡ some ("Bearer " +s provided x a))
      ⊎ (provided x a ≡ "")
unfolding provided_key
provided_key-cases none a = inr (authorization-cases a)
provided_key-cases (some t) a =
    if_both (λ k. (some t ≡ some k) ⊎ (a ≡ some k) ⊎ (a ≡ some ("Bearer " +s k)) ⊎ (k ≡ ""))
      (t == "") (remove_prefix "Bearer " (text_of a)) t (inr (authorization-cases a)) (inl refl)

module _ (api_key : String) (headers : Headers) where
  validate_api_key-provided :
      validate_api_key api_key headers ≡ ok tt → provided_key headers ≡ api_key
  unfolding validate_api_key
  validate_api_key-provided h = (eq_iff (provided_key headers) api_key).0 (ground arith)

  provided-validate_api_key :
      provided_key headers ≡ api_key → validate_api_key api_key headers ≡ ok tt
  unfolding validate_api_key
  provided-validate_api_key h = ground (arith, (eq_iff (provided_key headers) api_key).1 h)

  x_api_key-provided :
      (api_key == "") ≡ false → headers.x_api_key ≡ some api_key → provided_key headers ≡ api_key
  unfolding provided_key
  x_api_key-provided filled h = ground arith

  bearer-provided :
      headers.x_api_key ≡ none
      → headers.authorization ≡ some ("Bearer " +s api_key)
      → provided_key headers ≡ api_key
  unfolding provided_key
  bearer-provided h k =
      ap (λ x. provided x headers.authorization) h
      ∙ ap (provided none) k
      ∙ ap (or_whole ("Bearer " +s api_key)) (after_prefix-append "Bearer " api_key)

  wrong-refused :
      (t : String)
      → headers.x_api_key ≡ some t
      → (t == "") ≡ false
      → (t == api_key) ≡ false
      → validate_api_key api_key headers ≡ raised (http_error 401)
  unfolding validate_api_key provided_key
  wrong-refused t h filled other = ground arith

  validate_api_key-reply :
      (validate_api_key api_key headers ≡ ok tt)
      ⊎ (validate_api_key api_key headers ≡ raised (http_error 401))
  unfolding validate_api_key
  validate_api_key-reply = ground arith

-- A request that passes the check of its key carries it: the X-API-Key header is the key of the settings, or
-- the Authorization header is that key, alone or after "Bearer ", unless the settings have an empty key.
-- A request with the key in X-API-Key passes, if the key is not empty, and so does one without that header
-- with "Bearer " and the key in the other. A request with another text in X-API-Key that is not empty is
-- refused with 401, whatever its Authorization holds. Where a request does not pass the answer is 401.
pub validate_api_key-exact :
    (api_key : String) (headers : Headers)
    → (validate_api_key api_key headers ≡ ok tt
        → (headers.x_api_key ≡ some api_key)
          ⊎ (headers.authorization ≡ some api_key)
          ⊎ (headers.authorization ≡ some ("Bearer " +s api_key))
          ⊎ (api_key ≡ ""))
      × ((api_key == "") ≡ false
          → headers.x_api_key ≡ some api_key
          → validate_api_key api_key headers ≡ ok tt)
      × (headers.x_api_key ≡ none
          → headers.authorization ≡ some ("Bearer " +s api_key)
          → validate_api_key api_key headers ≡ ok tt)
      × ((t : String)
          → headers.x_api_key ≡ some t
          → (t == "") ≡ false
          → (t == api_key) ≡ false
          → validate_api_key api_key headers ≡ raised (http_error 401))
      × ((validate_api_key api_key headers ≡ ok tt)
          ⊎ (validate_api_key api_key headers ≡ raised (http_error 401)))
validate_api_key-exact api_key headers = (
  λ h.
      subst
        (λ k.
          (headers.x_api_key ≡ some k)
          ⊎ (headers.authorization ≡ some k)
          ⊎ (headers.authorization ≡ some ("Bearer " +s k))
          ⊎ (k ≡ ""))
        (validate_api_key-provided api_key headers h)
        (provided_key-cases headers.x_api_key headers.authorization),
  λ filled h.
      provided-validate_api_key api_key headers (x_api_key-provided api_key headers filled h),
  λ h k. provided-validate_api_key api_key headers (bearer-provided api_key headers h k),
  wrong-refused api_key headers,
  validate_api_key-reply api_key headers,
)
