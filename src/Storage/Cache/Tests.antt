-- ===== src/Storage/Cache/Tests.antt =====
-- services/context_cache.py: a cache that is a map, and the theorem about it.
use Prim.Native.String.{◌++◌ as ◌+s◌}
use mathlib.Core.List.{Memᴰ}
use cyber_security_alert_tri.Common.{
  String, Bool, true, false, Option, none, some, List, [], ◌∷◌, ◌≡◌, ◌⊎◌, inl, inr, refl, arith,
  ◌==◌, eq_iff, if◌then◌else◌, if_both,
}
use cyber_security_alert_tri.Json.{Json, obj, str, end, field}
use cyber_security_alert_tri.Effects.{ok}
use cyber_security_alert_tri.Storage.Cache.{
  CacheEnv, make_key, cache_get, cache_set, invalidate, cache_hit,
}
use cyber_security_alert_tri.Storage.Cache.Provenance.{
  Call, get_of, set_of, invalidate_of, Keeps, perform_all, set_results, cache_get-Provenance,
}

abbrev sample_text : Json → String
sample_text (obj (field j (str tool) (field k (obj (field i (str ioc) end)) end))) = tool +s ioc
sample_text _ = ""

-- Redis as a map whose texts are the results themselves; a deleted entry is gone.
abbrev sample_cache : CacheEnv (String → Option Json) Json
sample_cache = record {
  enabled = true;
  ttl = 900;
  redis_get = λ k s. (ok (s k), s);
  redis_setex = λ k t v s. (ok tt, λ j. if j == k then some v else s j);
  redis_delete = λ k s. (ok tt, λ j. if j == k then none else s j);
  blank = λ t. false;
  dumps = λ r. r;
  dumps_sorted = sample_text;
  loads = ok;
  sha256 = λ t. t;
}

entry-cases :
    (b : Bool) (j k : String) (v u : Json) (old : Option Json)
    → (b ≡ true → j ≡ k)
    → (if b then some v else old) ≡ some u
    → (old ≡ some u) ⊎ ((j ≡ k) × (u ≡ v))
entry-cases true j k v u old same h = inr (same refl, grind arith)
entry-cases false j k v u old same h = inl h

sample_cache-Keeps : Keeps sample_cache (λ s k. s k)
sample_cache-Keeps = record {
  get_reply = λ k v s h. ground (arith, h);
  get_contents = λ k j v s h. h;
  setex_contents = λ k j v u t s h. entry-cases (j == k) j k v u (s j) (eq_iff j k).0 h;
  delete_contents = λ k j v s h.
      if_both (λ o. o ≡ some v → s j ≡ some v) (j == k) none (s j) (λ e. absurd (ground (arith, e)))
        (λ e. e) h;
  loads_dumps = λ r. refl;
}

abbrev ioc_of : String → Json
ioc_of t = obj (field "ioc_value" (str t) end)

abbrev score : String → Json
score t = obj (field "score" (str t) end)

-- Two indicators are looked up, and one is invalidated.
abbrev sample_calls : List Call
sample_calls =
    set_of "threat_intel" (ioc_of "203.0.113.7") (score "low")
    ∷ set_of "threat_intel" (ioc_of "198.51.100.2") (score "none")
    ∷ set_of "threat_intel" (ioc_of "203.0.113.7") (score "high")
    ∷ invalidate_of "threat_intel" (ioc_of "198.51.100.2")
    ∷ get_of "threat_intel" (ioc_of "198.51.100.2")
    ∷ []

abbrev sample_redis : String → Option Json
sample_redis = perform_all sample_cache sample_calls (λ k. none)

last_set_read :
    (cache_get sample_cache "threat_intel" (ioc_of "203.0.113.7") sample_redis).0
    ≡ some (score "high")
unfolding cache_get cache_set cache_hit invalidate make_key perform_all
last_set_read = refl

invalidated_missed :
    (cache_get sample_cache "threat_intel" (ioc_of "198.51.100.2") sample_redis).0 ≡ none
unfolding cache_get cache_set cache_hit invalidate make_key perform_all
invalidated_missed = refl

cache_get-Provenance_example :
    Memᴰ
      (make_key sample_cache "threat_intel" (ioc_of "203.0.113.7"), score "high")
      (set_results sample_cache sample_calls)
cache_get-Provenance_example =
    cache_get-Provenance sample_cache sample_cache-Keeps sample_calls (λ k. none) (λ k. refl)
      "threat_intel" (ioc_of "203.0.113.7") (score "high") last_set_read
