-- ===== src/Ingest/Finding/Bounded.antt =====
-- components/detection_finding_builder.py: the bounds of a projection.
use cyber_security_alert_tri.Common.{
  ℕ, ◌+◌, ◌-◌, ◌≤◌, String, Bool, true, false, ◌&&◌, ◌||◌, Option, none, some, List, [], ◌∷◌, ◌++◌,
  ◌≡◌, refl, ap, sym, ◌∙◌, ◌==◌, eq_iff, eq_refl, length, length-append, arith, if◌then◌else◌,
  if_both, Bool-cases, inl, inr,
}
use cyber_security_alert_tri.Schema.{
  NormalizedAlert, NetworkActivity, UserActivity, ProcessActivity, ObservableEntry, EvidenceBundle,
}
use cyber_security_alert_tri.Ingest.Texts.{chars, take_chars, chars-take_chars-le, chars-append}
use cyber_security_alert_tri.Ingest.Finding.{
  trunc, observed, network_observables, named_user, user_observables, process_observables,
  observables_of, seen_in, dedupe, or_none, evidence_text, command_line,
  build_detection_finding_slice,
}

dots : chars "..." ≡ 3
unfolding chars
dots = refl

trunc-le : (s : String) (n : ℕ) → 3 ≤ n → chars (trunc s n) ≤ n
unfolding trunc
trunc-le s n h =
    ground (arith, chars-append (take_chars (n - 3) s) "...", chars-take_chars-le (n - 3) s, dots)

observed-length : (type : String) (o : Option String) → length (observed type o) ≤ 1
observed-length type none = omega arith
observed-length type (some v) = ground arith

-- No entry stands twice.
pub Distinct : List ObservableEntry → Type 0
Distinct [] = Unit {0}
Distinct (o ∷ obs) = (seen_in o obs ≡ false) × Distinct obs

dedupe-length : (seen obs : List ObservableEntry) → length (dedupe seen obs) ≤ length obs
unfolding dedupe
dedupe-length seen [] = omega arith
dedupe-length seen (o ∷ obs) =
    ground (arith, dedupe-length (if seen_in o seen then seen else o ∷ seen) obs)

abbrev same_key : ObservableEntry → ObservableEntry → Bool
same_key p o = p.type == o.type && p.value == o.value

seen_in-same :
    (p o : ObservableEntry) (seen : List ObservableEntry)
    → same_key p o ≡ true
    → seen_in o seen ≡ seen_in p seen
unfolding seen_in
seen_in-same p o [] h = refl
seen_in-same p o (q ∷ seen) h =
    let types : p.type ≡ o.type = (eq_iff p.type o.type).0 (ground arith) in
    let values : p.value ≡ o.value = (eq_iff p.value o.value).0 (ground arith) in
    ap (λ t. (q.type == t && q.value == o.value) || seen_in o seen) (sym types)
    ∙ ap (λ v. (q.type == p.type && q.value == v) || seen_in o seen) (sym values)
    ∙ ap (λ b. (q.type == p.type && q.value == p.value) || b) (seen_in-same p o seen h)

own_key : (o : ObservableEntry) → same_key o o ≡ true
own_key o = ground (arith, eq_refl o.type, eq_refl o.value)

dedupe-unseen :
    (o : ObservableEntry) (seen obs : List ObservableEntry)
    → seen_in o seen ≡ true
    → seen_in o (dedupe seen obs) ≡ false
unfolding dedupe seen_in
dedupe-unseen o seen [] h = refl
dedupe-unseen o seen (p ∷ obs) h = elim (Bool-cases (seen_in p seen)) [
  | inl old ↦ ground (arith, dedupe-unseen o seen obs h)
  | inr new ↦ ground (arith, dedupe-unseen o (p ∷ seen) obs, seen_in-same p o seen)
]

noted :
    (o : ObservableEntry) (seen : List ObservableEntry)
    → seen_in o (if seen_in o seen then seen else o ∷ seen) ≡ true
unfolding seen_in
noted o seen = ground (arith, own_key o)

dedupe-Distinct : (seen obs : List ObservableEntry) → Distinct (dedupe seen obs)
unfolding dedupe Distinct seen_in
dedupe-Distinct seen [] = tt
dedupe-Distinct seen (o ∷ obs) =
    if_both Distinct (seen_in o seen) (dedupe (if seen_in o seen then seen else o ∷ seen) obs)
      (o ∷ dedupe (if seen_in o seen then seen else o ∷ seen) obs)
      (dedupe-Distinct (if seen_in o seen then seen else o ∷ seen) obs)
      (
        dedupe-unseen o (if seen_in o seen then seen else o ∷ seen) obs (noted o seen),
        dedupe-Distinct (if seen_in o seen then seen else o ∷ seen) obs,
      )

append-le :
    (xs ys : List ObservableEntry) {a b : ℕ}
    → length xs ≤ a
    → length ys ≤ b
    → length (xs ++ ys) ≤ a + b
append-le xs ys h k = omega (arith, length-append xs ys, h, k)

network-length : (n : Option NetworkActivity) → length (network_observables n) ≤ 2
network-length none = omega arith
network-length (some n) =
    append-le (observed "IPv4 Address" n.src_ip) (observed "IPv4 Address" n.dst_ip)
      (observed-length "IPv4 Address" n.src_ip) (observed-length "IPv4 Address" n.dst_ip)

named-length : (d o : Option String) → length (named_user d o) ≤ 1
named-length d none = omega arith
named-length d (some v) = ground arith

user-length : (u : Option UserActivity) → length (user_observables u) ≤ 1
user-length none = omega arith
user-length (some u) = named-length u.domain u.username

process-length : (p : Option ProcessActivity) → length (process_observables p) ≤ 3
process-length none = omega arith
process-length (some p) =
    append-le (observed "Process Name" p.process_name) _
      (observed-length "Process Name" p.process_name)
      (append-le (observed "SHA-256 Hash" p.hash_sha256) _
        (observed-length "SHA-256 Hash" p.hash_sha256) (observed-length "MD5 Hash" p.hash_md5))

observables_of-length : (alert : NormalizedAlert) → length (observables_of alert) ≤ 9
unfolding observables_of
observables_of-length alert =
    append-le (observed "Hostname" alert.hostname) _ (observed-length "Hostname" alert.hostname) (
      append-le (observed "Asset Identifier" alert.asset_id) _
        (observed-length "Asset Identifier" alert.asset_id)
        (append-le (observed "Cloud Account" alert.cloud_account_id) _
          (observed-length "Cloud Account" alert.cloud_account_id)
          (append-le (network_observables alert.network) _ (network-length alert.network) (
            append-le (user_observables alert.user) _ (user-length alert.user)
              (process-length alert.process)))))

-- The evidence of a finding has at most `n` characters.
pub EvidenceWithin : ℕ → Option EvidenceBundle → Type 0
EvidenceWithin n none = Unit {0}
EvidenceWithin n (some e) = (t : String) → e.query_result ≡ some t → chars t ≤ n

within : (t u : String) (n : ℕ) → chars t ≤ n → or_none t ≡ some u → chars u ≤ n
within t u n h e = ground (arith)

-- The finding that is built from any alert is bounded: its title has at most 512 characters, its description
-- 4000 and its evidence 8192; it has at most nine observables, and no two of them have the same type and
-- the same value.
pub build_detection_finding_slice-Bounded :
    (alert : NormalizedAlert)
    → let slice = build_detection_finding_slice alert in
      (chars slice.finding_info.title ≤ 512)
      × (chars slice.finding_info.desc ≤ 4000)
      × EvidenceWithin 8192 slice.evidences
      × (length slice.observables ≤ 9)
      × Distinct slice.observables
unfolding build_detection_finding_slice EvidenceWithin
build_detection_finding_slice-Bounded alert =
    let text = evidence_text alert (command_line alert.process) in
    (
      trunc-le alert.title 512 (omega arith),
      trunc-le alert.description 4000 (omega arith),
      λ t e. within (trunc text 8192) t 8192 (trunc-le text 8192 (omega arith)) e,
      omega (arith, dedupe-length [] (observables_of alert), observables_of-length alert),
      dedupe-Distinct [] (observables_of alert),
    )
