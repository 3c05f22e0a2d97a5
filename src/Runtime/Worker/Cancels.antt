-- ===== src/Runtime/Worker/Cancels.antt =====
-- services/_runtime/triage_worker.py: the requests to cancel a triage, `_run_cancel_loop`.
pub mod Handled
mod Tests
use Prim.Native.Char.{Char, code}
use cyber_security_alert_tri.Common.{
  ℕ, String, Bool, true, false, ◌&&◌, Option, none, some, List, [], ◌∷◌, ◌==◌, nat_eq,
  if◌then◌else◌,
}
use cyber_security_alert_tri.Json.{Json, str, obj, end, is_truthy, get_field}
use cyber_security_alert_tri.Effects.{
  Exec, Result, ok, raised, pure, ◌>>=◌, ◌>>◌, continue, quietly,
}
use cyber_security_alert_tri.Ingest.Parsers.{as_fields}

-- `subject.split(".")`
abbrev pub prepend : Char → List String → List String
prepend c [] = String.◌∷◌ c "" ∷ []
prepend c (p ∷ ps) = String.◌∷◌ c p ∷ ps

unfoldable pub split_dots : String → List String
split_dots String.[] = "" ∷ []
split_dots (String.◌∷◌ c s) =
    let rest = split_dots s in if nat_eq (code c) 46 then "" ∷ rest else prepend c rest

abbrev last_part : String → List String → String
last_part p [] = p
last_part p (q ∷ qs) = last_part q qs

abbrev pub id_of_parts : List String → Option String
id_of_parts (a ∷ b ∷ c ∷ d ∷ e ∷ rest) =
    if a == "triage" && b == "cancel" then some (last_part e rest) else none
id_of_parts parts = none

-- `_alert_id_from_subject`
unfoldable pub alert_id_from_subject : String → Option String
alert_id_from_subject subject = id_of_parts (split_dots subject)

-- A message of the CONTROL stream; `none` is an empty body.
pub record CancelMessage (B : Type 0) : Type 0 where
  pub body : Option B
  pub subject : String

-- The cancel registry, the acknowledgement and `json.loads`; each call may raise.
pub record CancelEnv (S B : Type 0) : Type 0 where
  pub loads : B → Result Json
  pub request_cancel : Json → Exec S (Unit {0})
  pub ack : Exec S (Unit {0})

abbrev pub subject_id : Option String → Option Json
subject_id none = none
subject_id (some t) = if t == "" then none else some (str t)

-- `payload.get("alert_id") or _alert_id_from_subject(msg.subject)`, where it is true.
abbrev pub id_or_subject : Option Json → String → Option Json
id_or_subject v subject = if is_truthy v then v else subject_id (alert_id_from_subject subject)

module _ {S B : Type 0} (env : CancelEnv S B) where
  abbrev payload_of : Option B → Result Json
  payload_of none = ok (obj end)
  payload_of (some b) = env.loads b

  abbrev pub request_if : Option Json → Exec S (Unit {0})
  request_if none = pure tt
  request_if (some id) = env.request_cancel id

  -- The `try` of one message, up to its acknowledgement.
  abbrev pub request_named : CancelMessage B → Exec S (Unit {0})
  request_named msg = do
    payload ← λ s. (payload_of msg.body, s)
    fields ← λ s. (as_fields payload, s)
    request_if (id_or_subject (get_field "alert_id" fields) msg.subject)

  -- One message: it is acknowledged at the end of the `try`, or by the `except`.
  unfoldable pub cancel_one : CancelMessage B → S → S
  cancel_one msg s = (quietly env.ack (request_named msg s).1).1

  -- The messages of one fetch.
  unfoldable pub cancel_batch : List (CancelMessage B) → S → S
  cancel_batch [] s = s
  cancel_batch (m ∷ ms) s = cancel_batch ms (cancel_one m s)
