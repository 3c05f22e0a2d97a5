-- ===== src/Runtime/Worker/Cancels/Handled.antt =====
-- services/_runtime/triage_worker.py with services/_runtime/nats_broker.py: published requests to cancel reach
-- the registry.
use Prim.Native.Char.{Char, code}
use Prim.Native.String.{◌++◌ as ◌+s◌}
use mathlib.Core.List.{append-nil, append_assoc as list_assoc}
use text.Mathlib.TextLemmas.{cons-append, nil-append, append_assoc}
use cyber_security_alert_tri.Common.{
  ℕ, suc, ◌+◌, String, Bool, true, false, not, ◌&&◌, none, some, List, [], ◌∷◌, ◌++◌, map, length,
  ◌≡◌, refl, sym, ap, ◌∙◌, arith, nat_eq, ◌==◌, Option, ◌⊎◌, inl, inr,
}
use cyber_security_alert_tri.Json.{Json, Fields, str, obj, get_field}
use cyber_security_alert_tri.Effects.{Exec, Result, ok, raised, quietly, handle, pure}
use cyber_security_alert_tri.Runtime.Subjects.{subj_triage_cancel}
use cyber_security_alert_tri.Runtime.Worker.Cancels.{
  split_dots, prepend, id_of_parts, alert_id_from_subject, CancelMessage, CancelEnv, request_named,
  cancel_one, cancel_batch,
}

-- A token of a subject: a text without a dot.
unfoldable pub is_token : String → Bool
is_token String.[] = true
is_token (String.◌∷◌ c s) = not (nat_eq (code c) 46) && is_token s

is_token-cons :
    (c : Char) (s : String)
    → is_token (String.◌∷◌ c s) ≡ true
    → (nat_eq (code c) 46 ≡ false) × (is_token s ≡ true)
unfolding is_token
is_token-cons c s h = (ground arith, ground arith)

split_dots-cons :
    (c : Char) (s : String)
    → nat_eq (code c) 46 ≡ false
    → split_dots (String.◌∷◌ c s) ≡ prepend c (split_dots s)
unfolding split_dots
split_dots-cons c s h = rw h refl

split_dots-token : (s : String) → is_token s ≡ true → split_dots s ≡ s ∷ []
unfolding split_dots
split_dots-token String.[] h = refl
split_dots-token (String.◌∷◌ c s) h =
    let (plain, rest) = is_token-cons c s h in
    split_dots-cons c s plain ∙ ap (prepend c) (split_dots-token s rest)

dot-append : (t : String) → "." +s t ≡ String.◌∷◌ "." t
dot-append t = cons-append "." "" t ∙ ap (String.◌∷◌ ".") (nil-append t)

dot_first : (t : String) → split_dots (String.◌∷◌ "." t) ≡ "" ∷ split_dots t
unfolding split_dots
dot_first t = refl

-- A token before a dot is the first part.
split_dots-dot : (s t : String) → is_token s ≡ true → split_dots (s +s "." +s t) ≡ s ∷ split_dots t
split_dots-dot String.[] t h =
    ap split_dots (nil-append ("." +s t)) ∙ ap split_dots (dot-append t) ∙ dot_first t
split_dots-dot (String.◌∷◌ c s) t h =
    let (plain, rest) = is_token-cons c s h in
    ap split_dots (cons-append c s ("." +s t))
    ∙ split_dots-cons c (s +s "." +s t) plain
    ∙ ap (prepend c) (split_dots-dot s t rest)

prefix_tokens : (is_token "triage" ≡ true) × (is_token "cancel" ≡ true) × (is_token "v1" ≡ true)
unfolding is_token
prefix_tokens = (refl, refl, refl)

-- The prefix of the subjects is two tokens, each with its dot.
prefix_parts :
    (t : String) → split_dots ("triage.cancel." +s t) ≡ "triage" ∷ "cancel" ∷ split_dots t
prefix_parts t =
    ap split_dots (append_assoc "triage." "cancel." t)
    ∙ ap split_dots (append_assoc "triage" "." ("cancel." +s t))
    ∙ split_dots-dot "triage" ("cancel." +s t) (prefix_tokens.0)
    ∙ ap (λ ps. "triage" ∷ ps)
        (ap split_dots (append_assoc "cancel" "." t) ∙ split_dots-dot "cancel" t (prefix_tokens.1))

-- The subject of a request to cancel, whose tenant and alert are tokens, gives back the alert.
alert_id_from_subject-subj_triage_cancel :
    (tenant id : String)
    → is_token tenant ≡ true
    → is_token id ≡ true
    → alert_id_from_subject (subj_triage_cancel tenant id) ≡ some id
unfolding alert_id_from_subject subj_triage_cancel
alert_id_from_subject-subj_triage_cancel tenant id tenant_plain id_plain = ap id_of_parts (
    prefix_parts ("v1" +s "." +s tenant +s "." +s id)
    ∙ ap (λ ps. "triage" ∷ "cancel" ∷ ps)
        (split_dots-dot "v1" (tenant +s "." +s id) (prefix_tokens.2)
          ∙ ap (λ ps. "v1" ∷ ps)
              (split_dots-dot tenant id tenant_plain
                ∙ ap (λ ps. tenant ∷ ps) (split_dots-token id id_plain))))

-- What can be seen of the worker: its acknowledgements, and the ids that the registry was asked to
-- cancel, in order. A call may raise once it has been made.
pub record Seen {S B : Type 0} (env : CancelEnv S B) (acks : S → ℕ) (requests : S → List Json)
    : Type 0 where
  pub acks-ack : (s : S) → acks (env.ack s).1 ≡ suc (acks s)
  pub requests-ack : (s : S) → requests (env.ack s).1 ≡ requests s
  pub acks-request : (id : Json) (s : S) → acks (env.request_cancel id s).1 ≡ acks s
  pub requests-request :
      (id : Json) (s : S) → requests (env.request_cancel id s).1 ≡ requests s ++ id ∷ []

-- A request to cancel as it is published: the alert and its tenant, and the body, where there is one.
pub record CancelRequest (B : Type 0) : Type 0 where
  pub tenant : String
  pub alert_id : String
  pub body : Option B

abbrev pub published : {B : Type 0} → CancelRequest B → CancelMessage B
published r = record { body = r.body; subject = subj_triage_cancel r.tenant r.alert_id }

abbrev pub alert_ids : {B : Type 0} → List (CancelRequest B) → List Json
alert_ids [] = []
alert_ids (r ∷ rs) = str r.alert_id ∷ alert_ids rs

module _ {S B : Type 0} (env : CancelEnv S B) where
  -- A body that is a JSON object with the alert's id in it, such as the one the frontend sends.
  abbrev pub Names : Option B → String → Type 0
  Names body id =
      (b : B) × (fs : Fields) × (body ≡ some b)
      × (env.loads b ≡ ok (obj fs))
      × (get_field "alert_id" fs ≡ some (str id))

  -- The alert's id is not empty, and the body names it, or there is no body and tenant and id are tokens
  -- of the subject.
  abbrev pub Addressed : CancelRequest B → Type 0
  Addressed r =
      ((r.alert_id == "") ≡ false)
      × (Names r.body r.alert_id
          ⊎ ((r.body ≡ none) × (is_token r.tenant ≡ true) × (is_token r.alert_id ≡ true)))

  abbrev pub AllAddressed : List (CancelRequest B) → Type 0
  AllAddressed [] = Unit {0}
  AllAddressed (r ∷ rs) = Addressed r × AllAddressed rs

  request_named-body :
      (id : String) (body : Option B) (subject : String) (s : S)
      → (id == "") ≡ false
      → Names body id
      → request_named env (record { body = body; subject = subject }) s
        ≡ env.request_cancel (str id) s
  request_named-body id body subject s filled (b, fs, here, parsed, named) =
      rw (here, parsed, named, filled) refl

  request_named-subject :
      (tenant id : String) (body : Option B) (s : S)
      → (id == "") ≡ false
      → body ≡ none
      → is_token tenant ≡ true
      → is_token id ≡ true
      → request_named env (record { body = body; subject = subj_triage_cancel tenant id }) s
        ≡ env.request_cancel (str id) s
  unfolding get_field
  request_named-subject tenant id body s filled empty tenant_plain id_plain =
      rw (empty, alert_id_from_subject-subj_triage_cancel tenant id tenant_plain id_plain, filled)
        refl

  request_named-published :
      (r : CancelRequest B) (s : S)
      → Addressed r
      → request_named env (published r) s ≡ env.request_cancel (str r.alert_id) s
  request_named-published r s (filled, inl named) =
      request_named-body r.alert_id r.body (subj_triage_cancel r.tenant r.alert_id) s filled named
  request_named-published r s (filled, inr (empty, tenant_plain, id_plain)) =
      request_named-subject r.tenant r.alert_id r.body s filled empty tenant_plain id_plain

  module _ {acks : S → ℕ} {requests : S → List Json} (seen : Seen env acks requests) where
    quietly-state : (m : Exec S (Unit {0})) (s : S) → (quietly m s).1 ≡ (m s).1
    quietly-state m s = go (m s).0
      where
        go : (r : Result (Unit {0})) → (handle r (λ _. pure tt) (m s).1).1 ≡ (m s).1
        go (ok t) = refl
        go (raised e) = refl

    cancel_one-published :
        (r : CancelRequest B) (s : S)
        → Addressed r
        → (acks (cancel_one env (published r) s) ≡ suc (acks s))
          × (requests (cancel_one env (published r) s) ≡ requests s ++ str r.alert_id ∷ [])
    unfolding cancel_one
    cancel_one-published r s h =
        let asked = (env.request_cancel (str r.alert_id) s).1 in
        let same =
          quietly-state env.ack (request_named env (published r) s).1
          ∙ ap (λ r. (env.ack r.1).1) (request_named-published r s h) in
        (
          ap acks same ∙ seen.acks-ack asked ∙ ap suc (seen.acks-request (str r.alert_id) s),
          ap requests same ∙ seen.requests-ack asked ∙ seen.requests-request (str r.alert_id) s,
        )

    -- The requests to cancel that are published for some alerts, of any tenants, are each acknowledged exactly
    -- once, and the registry is asked to cancel exactly these alerts, in order, whatever the registry and
    -- the acknowledgements raise. No alert's id is empty. A request's body is a JSON object that holds the
    -- id under "alert_id", or the request has no body, and its tenant and its alert are texts without a dot.
    pub cancel_batch-published :
        (rs : List (CancelRequest B)) (s : S)
        → AllAddressed rs
        → (acks (cancel_batch env (map published rs) s) ≡ acks s + length rs)
          × (requests (cancel_batch env (map published rs) s) ≡ requests s ++ alert_ids rs)
    unfolding cancel_batch
    cancel_batch-published [] s h = (omega arith, sym (append-nil (requests s)))
    cancel_batch-published (r ∷ rs) s (addressed, rest) =
        let (acked, asked) = cancel_one-published r s addressed in
        let (all_acked, all_asked) =
          cancel_batch-published rs (cancel_one env (published r) s) rest in
        (
          omega (arith, acked, all_acked),
          all_asked
              ∙ ap (λ js. js ++ alert_ids rs) asked
              ∙ list_assoc (requests s) (str r.alert_id ∷ []) (alert_ids rs),
        )
