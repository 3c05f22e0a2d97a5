-- ===== src/Ingest/Texts.antt =====
-- The slices of texts that the normalizer and the builder of findings cut, and texts that are blank.
use Prim.Native.String.{◌++◌ as ◌+s◌}
use text.Mathlib.TextLemmas.{cons-append, nil-append}
use Prim.Native.Char.{code}
use cyber_security_alert_tri.Common.{
  ℕ, zero, suc, ◌+◌, ◌≤◌, String, Bool, true, ◌&&◌, ◌||◌, ◌≡◌, ap, ◌∙◌, arith, leb, nat_eq,
}

-- The white space that `str.strip` removes, by its code point.
unfoldable pub is_space : ℕ → Bool
is_space c =
    (leb 9 c && leb c 13)
    || (leb 28 c && leb c 32)
    || nat_eq c 133
    || nat_eq c 160
    || nat_eq c 5760
    || (leb 8192 c && leb c 8202)
    || nat_eq c 8232
    || nat_eq c 8233
    || nat_eq c 8239
    || nat_eq c 8287
    || nat_eq c 12288

-- `not s.strip()`
unfoldable pub is_blank : String → Bool
is_blank String.[] = true
is_blank (String.◌∷◌ c s) = is_space (code c) && is_blank s

-- `len(s)`
unfoldable pub chars : String → ℕ
chars String.[] = 0
chars (String.◌∷◌ c s) = suc (chars s)

-- `s[:n]`
unfoldable pub take_chars : ℕ → String → String
take_chars zero s = ""
take_chars (suc n) String.[] = ""
take_chars (suc n) (String.◌∷◌ c s) = String.◌∷◌ c (take_chars n s)

pub chars-take_chars-le : (n : ℕ) (s : String) → chars (take_chars n s) ≤ n
unfolding chars take_chars
chars-take_chars-le zero s = omega arith
chars-take_chars-le (suc n) String.[] = omega arith
chars-take_chars-le (suc n) (String.◌∷◌ c s) = omega (arith, chars-take_chars-le n s)

pub chars-append : (s t : String) → chars (s +s t) ≡ chars s + chars t
unfolding chars
chars-append String.[] t = ap chars (nil-append t) ∙ omega arith
chars-append (String.◌∷◌ c s) t = ap chars (cons-append c s t) ∙ omega (arith, chars-append s t)
