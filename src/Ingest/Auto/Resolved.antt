-- ===== src/Ingest/Auto/Resolved.antt =====
-- components/auto_ingest.py: what is made of the payload that was posted.
use cyber_security_alert_tri.Common.{
  Bool, true, false, Option, none, some, ◌≡◌, ◌⊎◌, inl, inr, refl, ap, ◌∙◌, arith, if◌then◌else◌,
}
use cyber_security_alert_tri.Json.{Fields, obj}
use cyber_security_alert_tri.Schema.{
  NormalizedAlert, AlertSource, splunk, crowdstrike, aws_guardduty, sentinel, generic,
}
use cyber_security_alert_tri.Effects.{Exec, Result, ok, raised, pure, continue, handle, ◌>>=◌}
use cyber_security_alert_tri.Ingest.Detect.{detect_source}
use cyber_security_alert_tri.Ingest.Expand.{expand_auto_ingest_payload}
use cyber_security_alert_tri.Ingest.Parsers.{Python}
use cyber_security_alert_tri.Ingest.Parsers.Normalize.{normalize_alert}
use cyber_security_alert_tri.Ingest.Parsers.Kept.{Yields, yielded}
use cyber_security_alert_tri.Ingest.Auto.{
  AutoIngestFlatView, Models, flat_payload, is_generic, try_model, llm_coerce_to_flat, lift,
  normalized_as, flat_or_expanded, by_source, resolve_alert_for_auto_ingest,
}

module _ {S B : Type 0} (P : B → Type 0) where
  continued :
      {A : Type 0} (r : Result A) (f : A → Exec S B) (t : S)
      → ((a : A) → r ≡ ok a → Yields P (f a t).0)
      → Yields P (continue r f t).0
  unfolding Yields
  continued (raised e) f t h = tt
  continued (ok a) f t h = h a refl

  branched :
      (b : Bool) (m n : Exec S B) (t : S)
      → (b ≡ true → Yields P (m t).0)
      → (b ≡ false → Yields P (n t).0)
      → Yields P ((if b then m else n) t).0
  branched true m n t h k = h refl
  branched false m n t h k = k refl

is_generic-eq : (source : AlertSource) → is_generic source ≡ true → source ≡ generic
is_generic-eq splunk h = ground arith
is_generic-eq crowdstrike h = ground arith
is_generic-eq aws_guardduty h = ground arith
is_generic-eq sentinel h = ground arith
is_generic-eq generic h = refl

not_generic : (source : AlertSource) → is_generic source ≡ false → ¬ (source ≡ generic)
not_generic source h e = let k : is_generic source ≡ is_generic generic = ap is_generic e in cc

module _ {S : Type 0} (py : Python) (models : Models S) (payload : Fields) (use_llm : Bool)
    (s : S) where
  -- A model that is configured.
  abbrev pub Configured : (Fields → Exec S (Option AutoIngestFlatView)) → Type 0
  Configured f = (models.ollama ≡ some f) ⊎ (models.openai ≡ some f)

  -- The flat view is what a configured model answered on the expanded payload.
  abbrev pub Answered : Fields → AutoIngestFlatView → Type 0
  Answered expanded flat =
      (f : Fields → Exec S (Option AutoIngestFlatView)) × (t : S) × Configured f
      × ((f expanded t).0 ≡ ok (some flat))

  -- The payload that `normalize_alert` is given for a source: the expanded one for each source of its
  -- own, and for a generic one the flat view of a model, if the models are asked and one answers.
  abbrev pub Chosen : Fields → AlertSource → Fields → Type 0
  Chosen expanded source p =
      ((¬ (source ≡ generic)) × (p ≡ expanded))
      ⊎ (((source ≡ generic)
            × ((use_llm ≡ false) ⊎ ((llm_coerce_to_flat py models expanded s).0 ≡ ok none))
            × (p ≡ expanded))
          ⊎ ((source ≡ generic)
              × (use_llm ≡ true)
              × ((flat : AutoIngestFlatView) × Answered expanded flat × (p ≡ flat_payload flat))))

  -- The alert is what `normalize_alert` makes of the chosen payload, with the payload that was posted.
  abbrev pub Resolved : NormalizedAlert → Type 0
  Resolved a =
      (expanded : Fields) × (source : AlertSource) × (p : Fields) × (b : NormalizedAlert)
      × (expand_auto_ingest_payload py.lower payload ≡ ok expanded)
      × (detect_source expanded ≡ ok source)
      × Chosen expanded source p
      × (normalize_alert py source p ≡ ok b)
      × (a ≡ record b { raw_payload = obj payload })

  -- What `handle` gives is what was tried, or what the handler gives.
  handled :
      (f : Fields → Exec S (Option AutoIngestFlatView)) (expanded : Fields)
      (rest : Exec S (Option AutoIngestFlatView)) (flat : AutoIngestFlatView) (t u : S)
      (r : Result (Option AutoIngestFlatView))
      → (f expanded t).0 ≡ r
      → (handle r (λ _. rest) u).0 ≡ ok (some flat)
      → ((f expanded t).0 ≡ ok (some flat)) ⊎ ((v : S) × ((rest v).0 ≡ ok (some flat)))
  handled f expanded rest flat t u (ok x) e h = inl (e ∙ h)
  handled f expanded rest flat t u (raised x) e h = inr (u, h)

  -- Where one of two models gives a view, it is the first, or the rest after it.
  try_model-answered :
      (m : Option (Fields → Exec S (Option AutoIngestFlatView))) (expanded : Fields)
      (rest : Exec S (Option AutoIngestFlatView)) (flat : AutoIngestFlatView) (t : S)
      → (try_model py models m expanded rest t).0 ≡ ok (some flat)
      → ((f : Fields → Exec S (Option AutoIngestFlatView)) × (m ≡ some f)
          × ((f expanded t).0 ≡ ok (some flat)))
        ⊎ ((u : S) × ((rest u).0 ≡ ok (some flat)))
  try_model-answered none expanded rest flat t h = inr (t, h)
  try_model-answered (some f) expanded rest flat t h =
      elim (handled f expanded rest flat t (f expanded t).1 (f expanded t).0 refl h) [
        | inl k ↦ inl (f, refl, k)
        | inr k ↦ inr k
      ]

  coerced-Answered :
      (expanded : Fields) (flat : AutoIngestFlatView)
      → (llm_coerce_to_flat py models expanded s).0 ≡ ok (some flat)
      → Answered expanded flat
  unfolding llm_coerce_to_flat
  coerced-Answered expanded flat h =
      elim (try_model-answered models.ollama expanded
        (try_model py models models.openai expanded (pure none)) flat s h) [
          | inl (f, c, k) ↦ (f, s, inl c, k)
          | inr (t, k) ↦ elim (try_model-answered models.openai expanded (pure none) flat t k) [
            | inl (f, c, j) ↦ (f, t, inr c, j)
            | inr (u, j) ↦ absurd (ground arith)
          ]
        ]

  module _ (expanded : Fields) (e : expand_auto_ingest_payload py.lower payload ≡ ok expanded) where
    normalized-Resolved :
        (source : AlertSource) (p : Fields) (t : S)
        → detect_source expanded ≡ ok source
        → Chosen expanded source p
        → Yields Resolved (normalized_as py models source p payload t).0
    unfolding Yields
    normalized-Resolved source p t d from =
        continued Resolved (normalize_alert py source p)
          (λ alert. pure (record alert { raw_payload = obj payload })) t
          (λ b k. (expanded, source, p, b, e, d, from, k, refl))

    -- A generic payload, where the models were asked.
    coerced-Resolved :
        (use_llm ≡ true)
        → detect_source expanded ≡ ok generic
        → (r : Result (Option AutoIngestFlatView)) (t : S)
        → (llm_coerce_to_flat py models expanded s).0 ≡ r
        → Yields Resolved (continue r (flat_or_expanded py models payload expanded) t).0
    unfolding Yields
    coerced-Resolved asked d (raised x) t k = tt
    coerced-Resolved asked d (ok none) t k =
        normalized-Resolved generic expanded t d (inr (inl (refl, inr k, refl)))
    coerced-Resolved asked d (ok (some flat)) t k =
        normalized-Resolved generic (flat_payload flat) t d
          (inr (inr (refl, asked, (flat, coerced-Answered expanded flat k, refl))))

    by_source-Resolved :
        (source : AlertSource)
        → detect_source expanded ≡ ok source
        → Yields Resolved (by_source py models use_llm payload expanded source s).0
    by_source-Resolved source d =
        branched Resolved (is_generic source)
          (if use_llm
            then llm_coerce_to_flat py models expanded
              >>= flat_or_expanded py models payload expanded
            else normalized_as py models generic expanded payload)
          (normalized_as py models source expanded payload) s
          (λ g.
            let known = d ∙ ap ok (is_generic-eq source g) in
            branched Resolved use_llm
              (llm_coerce_to_flat py models expanded
                >>= flat_or_expanded py models payload expanded)
              (normalized_as py models generic expanded payload) s
              (λ asked.
                coerced-Resolved asked known (llm_coerce_to_flat py models expanded s).0
                  (llm_coerce_to_flat py models expanded s).1 refl)
              (λ unasked.
                normalized-Resolved generic expanded s known (inr (inl (refl, inl unasked, refl)))))
          (λ g. normalized-Resolved source expanded s d (inl (not_generic source g, refl)))

  -- Whatever the models answer or raise, an alert that resolve_alert_for_auto_ingest gives holds the payload
  -- that was posted, and is otherwise what normalize_alert makes of the source that detect_source finds in
  -- the expanded payload. For a source that is not generic it is made of that expanded payload. For a
  -- generic one it is made of it where use_llm is off or the models give nothing, and else, with use_llm on,
  -- of the flat view that a configured model answered on the expanded payload.
  pub resolve_alert_for_auto_ingest-Resolved :
      (a : NormalizedAlert)
      → (resolve_alert_for_auto_ingest py models use_llm payload s).0 ≡ ok a
      → Resolved a
  unfolding resolve_alert_for_auto_ingest
  resolve_alert_for_auto_ingest-Resolved a given =
      yielded Resolved (resolve_alert_for_auto_ingest py models use_llm payload s).0 a
        (continued Resolved (expand_auto_ingest_payload py.lower payload)
          (λ expanded.
            lift py models (detect_source expanded)
            >>= by_source py models use_llm payload expanded)
          s
          (λ expanded e.
            continued Resolved (detect_source expanded)
              (by_source py models use_llm payload expanded) s
              (λ source d. by_source-Resolved expanded e source d)))
        given
