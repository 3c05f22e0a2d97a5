-- ===== src/Extraction/Found.antt =====
-- components/entity_extractor.py: what the extraction finds.
use cyber_security_alert_tri.Common.{
  String, Bool, true, false, not, ◌&&◌, ◌||◌, List, [], ◌∷◌, ◌++◌, ◌≡◌, refl, ◌∙◌, ap, inl, inr,
  arith, ◌==◌, contains, distinct, Bool-cases, eq_iff, contains-append, if◌then◌else◌,
}
use cyber_security_alert_tri.Schema.{NormalizedAlert, IocEntity, ExtractedEntities}
use cyber_security_alert_tri.Effects.{Exec, Result, ok, raised, handle, catch, pure}
use cyber_security_alert_tri.Router.Order.{contains-first_occurrences, distinct-first_occurrences}
use cyber_security_alert_tri.Extraction.{
  alert_text, Patterns, filled, mitre_hits, local_prefix, address_iocs, hash_iocs, finding_iocs,
  heuristic_extract, extract_entities_llm, extract_entities,
}

-- Whether an address is among some IOCs.
unfoldable pub has_ip : String → List IocEntity → Bool
has_ip v [] = false
has_ip v (i ∷ is) = (i.type == "ip" && i.value == v) || has_ip v is

has_ip-append :
    (v : String) (xs ys : List IocEntity) → has_ip v (xs ++ ys) ≡ (has_ip v xs || has_ip v ys)
unfolding has_ip
has_ip-append v [] ys = refl
has_ip-append v (x ∷ xs) ys = ground (arith, has_ip-append v xs ys)

module _ (re : Patterns) where
  has_ip-address_iocs :
      (v : String) (ips : List String)
      → has_ip v (address_iocs ips) ≡ (contains v ips && not (local_prefix v))
  unfolding has_ip address_iocs contains
  has_ip-address_iocs v [] = refl
  has_ip-address_iocs v (ip ∷ ips) = elim (Bool-cases (ip == v)) [
    | inl e ↦ ground (arith, has_ip-address_iocs v ips, ap (local_prefix) ((eq_iff ip v).0 e), e)
    | inr e ↦ ground (arith, has_ip-address_iocs v ips, e)
  ]

  has_ip-hash_iocs : (v : String) (hs : List String) → has_ip v (hash_iocs hs) ≡ false
  unfolding has_ip hash_iocs
  has_ip-hash_iocs v [] = refl
  has_ip-hash_iocs v (h ∷ hs) = has_ip-hash_iocs v hs

  -- The techniques of a heuristic extraction are distinct, and they are the technique of the alert and
  -- what the pattern finds in its title and description. An address is among the IOCs exactly where the pattern finds it and it does not
  -- begin with "10.", "192.168." or "172.", or where an observable of the finding gives it, if going
  -- through a set in any order meets its elements.
  pub heuristic_extract-exact :
      ((xs : List String) (t : String) → contains t (re.set_order xs) ≡ contains t xs)
      → (alert : NormalizedAlert) (t v : String)
      → let found = heuristic_extract re alert in
        (distinct found.techniques ≡ true)
        × (contains t found.techniques ≡ (
            contains t (filled alert.mitre_technique)
            || contains t (re.mitre_findall (alert_text alert))))
        × (has_ip v found.iocs ≡ (
            contains v (re.ipv4_findall (alert_text alert)) && not (local_prefix v)
            || has_ip v (finding_iocs re alert.detection_finding)))
  unfolding heuristic_extract
  heuristic_extract-exact any_order alert t v =
      let ips = re.set_order (re.ipv4_findall (alert_text alert)) in
      let hashes = re.set_order (re.sha256_findall (alert_text alert)) in
      (
        distinct-first_occurrences (mitre_hits re alert),
        contains-first_occurrences t (mitre_hits re alert)
            ∙ contains-append t (filled alert.mitre_technique)
                (re.mitre_findall (alert_text alert)),
        has_ip-append v (address_iocs ips ++ hash_iocs hashes)
              (finding_iocs re alert.detection_finding)
            ∙ ground (
              arith,
              has_ip-append v (address_iocs ips) (hash_iocs hashes),
              has_ip-address_iocs v ips,
              has_ip-hash_iocs v hashes,
              any_order (re.ipv4_findall (alert_text alert)) v,
            ),
      )

  -- What an extraction answers, given how the models end.
  abbrev pub chosen : Bool → Result ExtractedEntities → ExtractedEntities → ExtractedEntities
  chosen false r e = e
  chosen true (ok a) e = a
  chosen true (raised x) e = e

  fallback :
      {S : Type 0} (b : Bool) (m k : Exec S ExtractedEntities) (e : ExtractedEntities) (s : S)
      → (k (if b then (m s).1 else s)).0 ≡ ok e
      → ((if b then catch m (λ _. k) else k) s).0 ≡ ok (chosen b (m s).0 e)
  fallback false m k e s h = h
  fallback {S} true m k e s h = go (m s).0
    where
      go : (r : Result ExtractedEntities) → (handle r (λ _. k) (m s).1).0 ≡ ok (chosen true r e)
      go (ok a) = refl
      go (raised x) = h

  module _ {S : Type 0} (has_ollama has_openai : Bool)
      (ollama openai : NormalizedAlert → Exec S ExtractedEntities) where
    -- The state in which OpenAI is asked, if it is.
    abbrev asked_at : NormalizedAlert → S → S
    asked_at alert s = if has_ollama then (ollama alert s).1 else s

    -- An extraction never raises, whatever the models do. Its answer is that of Ollama, if it is in the
    -- settings and answers, or else that of OpenAI, if it is in the settings and answers, or else what
    -- the patterns find; with the models switched off it is what the patterns find, and no model is asked.
    pub extract_entities-falls_back :
        (use_llm : Bool) (alert : NormalizedAlert) (s : S)
        → let out = extract_entities re has_ollama has_openai ollama openai use_llm alert s in
          let heuristic = heuristic_extract re alert in
          (use_llm ≡ true
            → out.0
              ≡ ok (
                  chosen has_ollama
                    (ollama alert s).0
                    (chosen has_openai (openai alert (asked_at alert s)).0 heuristic)))
          × (use_llm ≡ false → out ≡ (ok heuristic, s))
    unfolding extract_entities extract_entities_llm
    extract_entities-falls_back true alert s =
        let heuristic = heuristic_extract re alert in
        let last = pure heuristic in
        (
          (λ _.
              fallback has_ollama (ollama alert)
                (if has_openai then catch (openai alert) (λ _. last) else last) _ s
                (fallback has_openai (openai alert) last heuristic (asked_at alert s) refl)),
          (λ off. absurd (ground (arith, off))),
        )
    extract_entities-falls_back false alert s = ((λ on. absurd (ground (arith, on))), λ _. refl)
