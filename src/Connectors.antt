-- ===== src/Connectors.antt =====
-- agents/tools/: the connectors that the tools of the registry call, and what they share.
pub mod Flow
pub mod Intel
pub mod Falcon
pub mod Sample
mod Tests
use cyber_security_alert_tri.Common.{
  ℕ, zero, suc, ◌+◌, ◌-◌, String, Bool, true, false, Option, none, some, List, leb, if◌then◌else◌,
  ◌≡◌, refl, ap, ◌∙◌, arith,
}
use cyber_security_alert_tri.Json.{
  Json, Items, Fields, null, bool, int, negative, float, str, arr, obj, nil, cons, end, field,
  get_field,
}
use cyber_security_alert_tri.Json.Membership.{has_key}
use cyber_security_alert_tri.Effects.{
  Exec, Result, Exception, ok, raised, type_error, key_error, other, pure, handle, catch, ◌>>=◌,
  continue,
}
use cyber_security_alert_tri.Ingest.Texts.{chars, take_chars}

-- A response of httpx: `json` is what `resp.json()` gives and `check` what `resp.raise_for_status()` does.
pub record Response : Type 0 where
  pub status : ℕ
  pub text : String
  pub json : Result Json
  pub check : Result (Unit {0})

-- httpx, the clock and the texts of values. `connect` makes the client, and a request is given its method,
-- its address, its headers and its parameters or body; `is_timeout` tells `httpx.TimeoutException` from the
-- other exceptions, `message` is `str(exc)`, and `show` is `f"{v}"`. A float is known by its text only, so
-- adding one and comparing one with a natural number are functions of it, and so are its thousandths. The
-- clock counts thousandths of a second, and `utc_text` prints a time of it.
pub record Http (S : Type 0) : Type 0 where
  pub connect : Exec S (Unit {0})
  pub request : String → String → Fields → Json → Exec S Response
  pub is_timeout : Exception → Bool
  pub message : Exception → String
  pub show : Json → String
  pub strip : String → String
  pub base64 : String → String
  pub float_add : Json → Json → Json
  pub float_ge : String → ℕ → Bool
  pub float_millis : String → ℕ
  pub utc_text : ℕ → String
  pub clock : S → ℕ × S

module _ {ℓ} {S : Type 0} {A : Type ℓ} where
  abbrev pub lift : Result A → Exec S A
  lift r s = (r, s)

-- `int(b) - int(a)` of two times.
abbrev pub elapsed : ℕ → ℕ → Json
elapsed a b = if leb a b then int (b - a) else negative (a - b)

-- `d.setdefault(k, v)`
unfoldable pub append_field : String → Json → Fields → Fields
append_field k v end = field k v end
append_field k v (field j w fs) = field j w (append_field k v fs)

abbrev pub set_default : String → Json → Fields → Fields
set_default k v fs = if has_key k fs then fs else append_field k v fs

-- `v[:n]` of a list.
unfoldable pub take_items : ℕ → Items → Items
take_items zero xs = nil
take_items (suc n) nil = nil
take_items (suc n) (cons x xs) = cons x (take_items n xs)

-- `v[:n]` of a list or a text.
abbrev pub slice : ℕ → Json → Result Json
slice n (arr xs) = ok (arr (take_items n xs))
slice n (str s) = ok (str (take_chars n s))
slice n v = raised type_error

abbrev item_count : Items → ℕ
item_count nil = 0
item_count (cons x xs) = suc (item_count xs)

abbrev field_count : Fields → ℕ
field_count end = 0
field_count (field k v fs) = suc (field_count fs)

-- `len(v)`
abbrev pub len_of : Json → Result ℕ
len_of (arr xs) = ok (item_count xs)
len_of (str s) = ok (chars s)
len_of (obj fs) = ok (field_count fs)
len_of v = raised type_error

-- `d[k]` where `d` may be no dictionary.
abbrev item_of : Option Json → Result Json
item_of none = raised key_error
item_of (some v) = ok v

abbrev pub subscript : String → Json → Result Json
subscript k (obj fs) = item_of (get_field k fs)
subscript k v = raised type_error

-- `s or ""`
abbrev pub or_empty : Option String → String
or_empty none = ""
or_empty (some s) = s

-- An action that never raises, from any state, and whose answers a predicate holds of.
abbrev pub Gives : {S A : Type 0} → (A → Type 0) → Exec S A → Type 0
Gives {S} {A} P m = (s : S) → (a : A) × ((m s).0 ≡ ok a) × P a

module _ {S A B : Type 0} where
  pub Gives-bind :
      (P : A → Type 0) (Q : B → Type 0) (m : Exec S A) (k : A → Exec S B)
      → Gives P m
      → ((a : A) → P a → Gives Q (k a))
      → Gives Q (m >>= k)
  Gives-bind P Q m k hm hk s =
      let (a, e, p) = hm s in
      let (b, f, q) = hk a p (m s).1 in (b, ap (λ r. (continue r k (m s).1).0) e ∙ f, q)

-- An answer that is made of an exception.
module _ {S : Type 0} where
  abbrev pub answering : Exec S Fields → (Exception → Fields) → Exec S Fields
  answering m failed = catch m (λ e. pure (failed e))

  -- What holds of every answer and of what every exception is made into, holds of the answer.
  pub answering-Gives :
      (P : Fields → Type 0) (m : Exec S Fields) (failed : Exception → Fields)
      → ((s : S) (fs : Fields) → (m s).0 ≡ ok fs → P fs)
      → ((e : Exception) → P (failed e))
      → Gives P (answering m failed)
  answering-Gives P m failed good bad s = go (m s).0 refl
    where
      go :
          (r : Result Fields)
          → (m s).0 ≡ r
          → (fs : Fields) × ((handle r (λ e. pure (failed e)) (m s).1).0 ≡ ok fs) × P fs
      go (ok fs) h = (fs, refl, good s fs h)
      go (raised e) h = (failed e, refl, bad e)

module _ {S A B : Type 0} where
  -- What an answer of `m >>= k` comes from.
  pub >>=-eq-ok :
      (m : Exec S A) (k : A → Exec S B) (s : S) (b : B)
      → ((m >>= k) s).0 ≡ ok b
      → (a : A) × ((m s).0 ≡ ok a) × ((k a (m s).1).0 ≡ ok b)
  >>=-eq-ok m k s b h = go (m s).0 refl h
    where
      go :
          (r : Result A)
          → (m s).0 ≡ r
          → (continue r k (m s).1).0 ≡ ok b
          → (a : A) × ((m s).0 ≡ ok a) × ((k a (m s).1).0 ≡ ok b)
      go (ok a) e g = (a, e, g)
      go (raised f) e g = absurd (ground (arith, g))
