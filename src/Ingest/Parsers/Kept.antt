-- ===== src/Ingest/Parsers/Kept.antt =====
-- components/alert_normalizer.py: what every parser keeps of its payload.
use mathlib.Core.Path.{subst}
use cyber_security_alert_tri.Common.{
  ℕ, String, Bool, true, false, some, ◌≡◌, refl, arith, ◌⊎◌, if◌then◌else◌,
}
use cyber_security_alert_tri.Json.{Json, Fields, str, int, obj, get_field}
use cyber_security_alert_tri.Schema.{
  NormalizedAlert, AlertSource, splunk, crowdstrike, aws_guardduty, sentinel, generic,
}
use cyber_security_alert_tri.Effects.{Result, ok, raised}
use cyber_security_alert_tri.Ingest.Finding.{attach_detection_finding}
use cyber_security_alert_tri.Ingest.Detect.{is_detection_finding_payload}
use cyber_security_alert_tri.Ingest.Parsers.{Python, ◌>>=◌, stable_alert_id}
use cyber_security_alert_tri.Ingest.Parsers.Splunk.{splunk_arguments, parse_splunk}
use cyber_security_alert_tri.Ingest.Parsers.Crowdstrike.{crowdstrike_arguments, parse_crowdstrike}
use cyber_security_alert_tri.Ingest.Parsers.Guardduty.{guardduty_arguments, parse_guardduty}
use cyber_security_alert_tri.Ingest.Parsers.Generic.{generic_arguments, parse_generic}
use cyber_security_alert_tri.Ingest.Parsers.Ocsf.{
  ocsf_arguments, parse_ocsf_detection_finding_payload,
}
use cyber_security_alert_tri.Ingest.Parsers.Normalize.{parser_of, normalize_alert}

-- What is relied on of pydantic: three fields of an alert that was constructed are the arguments.
pub record Constructs (py : Python) : Type 0 where
  pub raw_lem :
      (kw : Fields) (a : NormalizedAlert) {v : Json}
      → py.construct kw ≡ ok a
      → get_field "raw_payload" kw ≡ some v
      → a.raw_payload ≡ v
  pub class_lem :
      (kw : Fields) (a : NormalizedAlert) {n : ℕ}
      → py.construct kw ≡ ok a
      → get_field "class_uid" kw ≡ some (int n)
      → a.class_uid ≡ some n
  pub id_lem :
      (kw : Fields) (a : NormalizedAlert) {t : String}
      → py.construct kw ≡ ok a
      → get_field "alert_id" kw ≡ some (str t)
      → a.alert_id ≡ t

-- A result, where there is one, has a property.
unfoldable pub Yields : {A : Type 0} → (A → Type 0) → Result A → Type 0
Yields P (raised e) = Unit {0}
Yields P (ok a) = P a

Yields-after :
    {A B : Type 0} (P : B → Type 0) (m : Result A) (f : A → Result B)
    → ((a : A) → m ≡ ok a → Yields P (f a))
    → Yields P (m >>= f)
unfolding Yields ◌>>=◌
Yields-after P (raised e) f h = tt
Yields-after P (ok a) f h = h a refl

Yields-same : {A : Type 0} {P : A → Type 0} (m : Result A) → ((a : A) → m ≡ ok a → P a) → Yields P m
unfolding Yields
Yields-same (raised e) h = tt
Yields-same (ok a) h = h a refl

Yields-if :
    {A : Type 0} (P : A → Type 0) (b : Bool) (x y : Result A)
    → (b ≡ true → Yields P x)
    → (b ≡ false → Yields P y)
    → Yields P (if b then x else y)
Yields-if P true x y h k = h refl
Yields-if P false x y h k = k refl

pub yielded : {A : Type 0} (P : A → Type 0) (r : Result A) (a : A) → Yields P r → r ≡ ok a → P a
unfolding Yields
yielded P (raised e) a h given = absurd (ground arith)
yielded P (ok b) a h given = subst P (ground arith) h

module _ (py : Python) (c : Constructs py) (payload : Fields) where
  -- The payload and the class of finding.
  abbrev pub Kept : NormalizedAlert → Type 0
  Kept a = (a.raw_payload ≡ obj payload) × (a.class_uid ≡ some 2004)

  -- An id that is a digest of the source's own id.
  abbrev pub Stable : NormalizedAlert → Type 0
  Stable a = (source : String) × (id : String) × (a.alert_id ≡ stable_alert_id py source id)

  abbrev pub Both : NormalizedAlert → Type 0
  Both a = Kept a × Stable a

  constructed :
      (kw : Fields)
      → get_field "raw_payload" kw ≡ some (obj payload)
      → (source id : String) → get_field "alert_id" kw ≡ some (str (stable_alert_id py source id))
      → Yields Both (py.construct kw >>= λ a. ok (attach_detection_finding a))
  unfolding attach_detection_finding Yields
  constructed kw raw source id same =
      Yields-after Both (py.construct kw) (λ a. ok (attach_detection_finding a))
        (λ a h. ((c.raw_lem kw a h raw, refl), (source, id, c.id_lem kw a h same)))

  splunk-Both : Yields Both (parse_splunk py payload)
  unfolding parse_splunk splunk_arguments get_field
  splunk-Both = Yields-after Both _ _ (λ result _. Yields-after Both _ _ (λ sev _.
      Yields-after Both _ _
        (λ user _. constructed (splunk_arguments py payload result sev user) refl "splunk" _ refl)))

  crowdstrike-Both : Yields Both (parse_crowdstrike py payload)
  unfolding parse_crowdstrike crowdstrike_arguments get_field
  crowdstrike-Both = Yields-after Both _ _ (λ event _. Yields-after Both _ _ (λ sev _.
      Yields-after Both _ _ (λ meta _. Yields-after Both _ _ (λ user _.
        constructed (crowdstrike_arguments py payload event meta sev user) refl "crowdstrike" _
          refl))))

  guardduty-Both : Yields Both (parse_guardduty py payload)
  unfolding parse_guardduty guardduty_arguments get_field
  guardduty-Both = Yields-after Both _ _ (λ detail _. Yields-after Both _ _ (λ at_least _.
      Yields-after Both _ _ (λ service _. Yields-after Both _ _ (λ resource _.
        Yields-after Both _ _ (λ instance_details _. Yields-after Both _ _ (λ action _.
          Yields-after Both _ _ (λ network_conn _. Yields-after Both _ _ (λ remote_ip _.
            Yields-after Both _ _ (λ network _. constructed _ refl "guardduty" _ refl)))))))))

  generic-Kept : Yields Kept (parse_generic py payload)
  unfolding parse_generic generic_arguments get_field attach_detection_finding Yields
  generic-Kept =
      Yields-after Kept (py.construct (generic_arguments py payload)) _
        (λ a h. (c.raw_lem (generic_arguments py payload) a h refl, refl))

  ocsf-Both : Yields Both (parse_ocsf_detection_finding_payload py payload)
  unfolding parse_ocsf_detection_finding_payload ocsf_arguments get_field Yields
  ocsf-Both = Yields-after Both _ _ (λ fi_in _. Yields-after Both _ _ (λ obs _.
      Yields-after Both _ _ (λ atk_in _.
        Yields-same (py.construct (ocsf_arguments py payload fi_in atk_in obs)) (λ a h.
          let kw = ocsf_arguments py payload fi_in atk_in obs in
          (
            (c.raw_lem kw a h refl, c.class_lem kw a h refl),
            ("ocsf2004", _, c.id_lem kw a h refl),
          )))))

  Both-Kept : (r : Result NormalizedAlert) → Yields Both r → Yields Kept r
  unfolding Yields
  Both-Kept (raised e) h = tt
  Both-Kept (ok a) h = h.0

  parser-Kept : (source : AlertSource) → Yields Kept (parser_of py source payload)
  parser-Kept splunk = Both-Kept (parse_splunk py payload) splunk-Both
  parser-Kept crowdstrike = Both-Kept (parse_crowdstrike py payload) crowdstrike-Both
  parser-Kept aws_guardduty = Both-Kept (parse_guardduty py payload) guardduty-Both
  parser-Kept sentinel = generic-Kept
  parser-Kept generic = generic-Kept

  known-Both :
      (source : AlertSource)
      → (source ≡ splunk) ⊎ (source ≡ crowdstrike) ⊎ (source ≡ aws_guardduty)
      → Yields Both (parser_of py source payload)
  known-Both splunk known = splunk-Both
  known-Both crowdstrike known = crowdstrike-Both
  known-Both aws_guardduty known = guardduty-Both
  known-Both sentinel known = absurd (ground arith)
  known-Both generic known = absurd (ground arith)

  -- Every alert that normalize_alert makes, for any source and any payload, holds that payload as it came and
  -- is classified as a finding, 2004, under what is assumed of pydantic.
  pub normalize_alert-Kept :
      (source : AlertSource) (a : NormalizedAlert)
      → normalize_alert py source payload ≡ ok a
      → Kept a
  unfolding normalize_alert
  normalize_alert-Kept source a given =
      yielded Kept (normalize_alert py source payload) a
        (Yields-if Kept (is_detection_finding_payload payload)
          (parse_ocsf_detection_finding_payload py payload) (parser_of py source payload)
          (λ _. Both-Kept (parse_ocsf_detection_finding_payload py payload) ocsf-Both)
          (λ _. parser-Kept source))
        given

  -- The alerts of Splunk, CrowdStrike and GuardDuty have ids that are digests of the source's own id.
  pub normalize_alert-Stable :
      (source : AlertSource) (a : NormalizedAlert)
      → (source ≡ splunk) ⊎ (source ≡ crowdstrike) ⊎ (source ≡ aws_guardduty)
      → normalize_alert py source payload ≡ ok a
      → Stable a
  unfolding normalize_alert
  normalize_alert-Stable source a known given =
      (yielded Both (normalize_alert py source payload) a
        (Yields-if Both (is_detection_finding_payload payload)
          (parse_ocsf_detection_finding_payload py payload) (parser_of py source payload)
          (λ _. ocsf-Both) (λ _. known-Both source known))
        given).1
