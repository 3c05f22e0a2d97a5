-- ===== src/Ingest/Parsers.antt =====
-- components/alert_normalizer.py: what the parsers of the sources share.
pub mod Ocsf
pub mod Splunk
pub mod Crowdstrike
pub mod Guardduty
pub mod Generic
pub mod Normalize
pub mod Kept
use Prim.Native.Char.{code}
use Prim.Native.String.{◌++◌ as ◌+s◌}
use cyber_security_alert_tri.Common.{
  ℕ, String, Bool, true, false, Option, none, some, [], ◌∷◌, ◌==◌, nat_eq, if◌then◌else◌,
}
use cyber_security_alert_tri.Json.{
  Json, Items, Fields, null, bool, int, negative, float, str, arr, obj, end, field, get_field,
  is_truthy,
}
use cyber_security_alert_tri.Json.Membership.{any_in}
use cyber_security_alert_tri.Schema
use cyber_security_alert_tri.Schema.{NormalizedAlert, low, medium}
use cyber_security_alert_tri.Effects.{Result, ok, raised, type_error, other}
use cyber_security_alert_tri.Ingest.Texts.{take_chars}
use cyber_security_alert_tri.Ingest.Severity.{severity_of_text, severity_of_number}

-- Python's library and pydantic: `str`, `str.lower`, `json.dumps` with and without sorted keys,
-- `datetime.fromisoformat` of a text whose "Z" is replaced, `datetime.fromtimestamp` of a thousandth of a
-- float, the time now, `int` and the comparisons of `float`, the SHA-256 digest, and the construction of an
-- alert from its keyword arguments. `none` stands for an exception that the code catches.
pub record Python : Type 0 where
  pub to_text : Json → String
  pub lower : String → String
  pub dumps : Json → String
  pub dumps_sorted : Json → String
  pub iso_time : String → Option String
  pub epoch_time : Json → Option String
  pub now : String
  pub int_of : Json → Option Json
  pub float_of : Json → Result (ℕ → Bool)
  pub sha256 : String → String
  pub construct : Fields → Result NormalizedAlert

module _ {ℓ κ} {A : Type ℓ} {B : Type κ} where
  infixl 10 ◌>>=◌
  unfoldable pub ◌>>=◌ : Result A → (A → Result B) → Result B
  raised e >>= f = raised e
  ok a >>= f = f a

-- `v.get`, which only a dictionary has.
abbrev pub as_fields : Json → Result Fields
as_fields (obj fs) = ok fs
as_fields v = raised (other "AttributeError")

abbrev pub value_or : Json → Option Json → Json
value_or d none = d
value_or d (some v) = v

-- `fs.get(k, d)` and `fs.get(k)`
abbrev pub get_or : String → Json → Fields → Json
get_or k d fs = value_or d (get_field k fs)

abbrev pub get_value : String → Fields → Json
get_value k fs = get_or k null fs

-- `a or b`
abbrev pub or_value : Json → Json → Json
or_value a b = if is_truthy (some a) then a else b

abbrev pub truth : Json → Bool
truth v = is_truthy (some v)

-- The number that a float is equal to, among the keys of the maps.
abbrev float_number : String → ℕ
float_number s =
    if s == "1.0"
    then 1
    else if s == "2.0"
    then 2
    else if s == "3.0"
    then 3
    else if s == "4.0"
    then 4
    else if s == "5.0"
    then 5
    else 0

-- `_SPLUNK_SEV_MAP.get(v, Severity.MEDIUM)`: a list or a dictionary is no key.
abbrev pub mapped_severity : Json → Result Schema.Severity
mapped_severity (str s) = ok (severity_of_text s medium)
mapped_severity (int n) = ok (severity_of_number n medium)
mapped_severity (bool true) = ok low
mapped_severity (float s) = ok (severity_of_number (float_number s) medium)
mapped_severity (arr xs) = raised type_error
mapped_severity (obj fs) = raised type_error
mapped_severity _ = ok medium

-- The text before the first occurrence of a character, and the text after it.
unfoldable pub before : ℕ → String → String
before c String.[] = ""
before c (String.◌∷◌ d s) =
    let rest = before c s in if nat_eq (code d) c then "" else String.◌∷◌ d rest

unfoldable pub after : ℕ → String → String
after c String.[] = ""
after c (String.◌∷◌ d s) = let rest = after c s in if nat_eq (code d) c then s else rest

-- The text after the last occurrence, the whole text where there is none.
unfoldable pub after_last : ℕ → String → String → String
after_last c s String.[] = s
after_last c s (String.◌∷◌ d t) = after_last c (if nat_eq (code d) c then t else s) t

module _ (py : Python) where
  -- `_stable_alert_id`
  unfoldable pub stable_alert_id : String → String → String
  stable_alert_id source source_id = take_chars 16 (py.sha256 (source +s ":" +s source_id))

  abbrev or_now : Option String → String
  or_now none = py.now
  or_now (some t) = t

  -- The time of a text, or now where it is none.
  abbrev pub iso_or_now : Json → Json
  iso_or_now v = str (or_now (py.iso_time (py.to_text v)))

  abbrev pub epoch_or_now : Json → Json
  epoch_or_now v = str (or_now (py.epoch_time v))

  -- `_int_or_none`
  abbrev pub int_or_none : Json → Json
  int_or_none v = value_or null (py.int_of v)

  -- `raw.lower()` where the value is a text.
  abbrev pub lowered : Json → Json
  lowered (str s) = str (py.lower s)
  lowered v = v
