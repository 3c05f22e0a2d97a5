-- ===== src/Ingest/Sample.antt =====
-- components/: a Python whose constructor takes the id, the payload and the class of its arguments.
use cyber_security_alert_tri.Common.{ℕ, String, Option, none, some, ◌≡◌, sym, ap, ◌∙◌, arith, true}
use cyber_security_alert_tri.Json.{Json, Fields, str, int, obj, end, get_field}
use cyber_security_alert_tri.Schema.{NormalizedAlert}
use cyber_security_alert_tri.Effects.{Result, ok}
use cyber_security_alert_tri.Ingest.Parsers.{Python}
use cyber_security_alert_tri.Ingest.Parsers.Kept.{Constructs}
use cyber_security_alert_tri.Samples.{sample_alert}

abbrev text_of : Option Json → String
text_of (some (str s)) = s
text_of _ = "a-0"

abbrev json_of : Option Json → Json
json_of none = obj end
json_of (some v) = v

abbrev class_of : Option Json → Option ℕ
class_of (some (int n)) = some n
class_of _ = none

unfoldable pub built : Fields → NormalizedAlert
built kw = record sample_alert {
  alert_id = text_of (get_field "alert_id" kw);
  raw_payload = json_of (get_field "raw_payload" kw);
  class_uid = class_of (get_field "class_uid" kw);
}

abbrev pub python : Python
python = record {
  to_text = λ v. elim v [ str s ↦ s | _ ↦ "1" ];
  lower = λ t. t;
  dumps = λ v. "{}";
  dumps_sorted = λ v. "{}";
  iso_time = λ t. none;
  epoch_time = λ v. none;
  now = "2026-01-01T00:00:00";
  int_of = λ v. none;
  float_of = λ v. ok (λ n. true);
  sha256 = λ t. t;
  construct = λ kw. ok (built kw);
}

injected :
    (kw : Fields) (a : NormalizedAlert)
    → ◌≡◌ {A = Result NormalizedAlert} (ok (built kw)) (ok a)
    → built kw ≡ a
injected kw a h = ground arith

pub python-Constructs : Constructs python
unfolding built
python-Constructs = record {
  raw_lem = λ kw a h e. sym (ap (λ b. b.raw_payload) (injected kw a h)) ∙ ap json_of e;
  class_lem = λ kw a h e. sym (ap (λ b. b.class_uid) (injected kw a h)) ∙ ap class_of e;
  id_lem = λ kw a h e. sym (ap (λ b. b.alert_id) (injected kw a h)) ∙ ap text_of e;
}
