-- ===== src/Storage/Cache/Provenance.antt =====
-- services/context_cache.py: where a hit of the cache comes from.
use mathlib.Core.List.{Memᴰ}
use cyber_security_alert_tri.Common.{
  ℕ, String, Option, none, some, List, [], ◌∷◌, ◌≡◌, ◌⊎◌, inl, inr, refl, ◌∙◌, sym, ap, arith,
  if_both,
}
use cyber_security_alert_tri.Json.{Json}
use cyber_security_alert_tri.Effects.{Result, ok, raised}
use cyber_security_alert_tri.Storage.Cache.{
  CacheEnv, loaded, cache_hit, make_key, cache_get, cache_set, invalidate,
}

-- The calls of the cache.
pub data Call : Type 0 where
  get_of : String → Json → Call
  set_of : String → Json → Json → Call
  invalidate_of : String → Json → Call

-- Documented behaviour of Redis, for the values that can be seen of a state: a call may fail and an entry
-- may expire at any time, but no entry gets a value that was not put there. What `json` prints, it reads.
pub record Keeps {S T : Type 0} (env : CacheEnv S T) (contents : S → String → Option T)
    : Type 0 where
  pub get_reply :
      (k : String) (v : T) (s : S) → (env.redis_get k s).0 ≡ ok (some v) → contents s k ≡ some v
  pub get_contents :
      (k j : String) (v : T) (s : S)
      → contents (env.redis_get k s).1 j ≡ some v
      → contents s j ≡ some v
  pub setex_contents :
      (k j : String) (v u : T) (t : ℕ) (s : S)
      → contents (env.redis_setex k t v s).1 j ≡ some u
      → (contents s j ≡ some u) ⊎ ((j ≡ k) × (u ≡ v))
  pub delete_contents :
      (k j : String) (v : T) (s : S)
      → contents (env.redis_delete k s).1 j ≡ some v
      → contents s j ≡ some v
  pub loads_dumps : (r : Json) → env.loads (env.dumps r) ≡ ok r

module _ {S T : Type 0} (env : CacheEnv S T) where
  abbrev pub perform : Call → S → S
  perform (get_of tool params) s = (cache_get env tool params s).1
  perform (set_of tool params result) s = cache_set env tool params result s
  perform (invalidate_of tool params) s = invalidate env tool params s

  unfoldable pub perform_all : List Call → S → S
  perform_all [] s = s
  perform_all (c ∷ cs) s = perform_all cs (perform c s)

  -- The results that the calls set, each with its key.
  pub set_results : List Call → List (String × Json)
  set_results [] = []
  set_results (set_of tool params result ∷ cs) = (make_key env tool params, result) ∷ set_results cs
  set_results (get_of tool params ∷ cs) = set_results cs
  set_results (invalidate_of tool params ∷ cs) = set_results cs

  -- A text that a result of the list prints as, under its key.
  abbrev Printed : String → T → List (String × Json) → Type 0
  Printed j u ps = (r : Json) × (u ≡ env.dumps r) × Memᴰ (j, r) ps

  Printed-cons :
      {j : String} {u : T} {p : String × Json} {ps : List (String × Json)}
      → Printed j u ps
      → Printed j u (p ∷ ps)
  Printed-cons (r, e, m) = (r, e, Memᴰ.tail m)

  none-some : {A P : Type 0} {a : A} → none ≡ some a → P
  none-some h = absurd (ground (arith, h))

  ok_injective : {q r : Json} → ◌≡◌ {A = Result Json} (ok q) (ok r) → q ≡ r
  ok_injective h = grind arith

  loaded-some : (x : Result Json) (r : Json) → loaded x ≡ some r → x ≡ ok r
  loaded-some (ok v) r h = grind arith
  loaded-some (raised e) r h = ground (arith, h)

  hit-contents :
      (reply : Result (Option T)) (r : Json)
      → cache_hit env.blank env.loads reply ≡ some r
      → (u : T) × (reply ≡ ok (some u)) × (env.loads u ≡ ok r)
  unfolding cache_hit
  hit-contents (raised e) r h = ground (arith, h)
  hit-contents (ok none) r h = ground (arith, h)
  hit-contents (ok (some raw)) r h = (
    raw,
    refl,
    if_both (λ o. o ≡ some r → env.loads raw ≡ ok r) (env.blank raw) none (loaded (env.loads raw))
        (λ e. ground (arith, e)) (loaded-some (env.loads raw) r) h,
  )

  module _ {contents : S → String → Option T} (keeps : Keeps env contents) where
    get_of-contents :
        (tool : String) (params : Json) (s : S) (j : String) (u : T)
        → contents (cache_get env tool params s).1 j ≡ some u
        → contents s j ≡ some u
    unfolding cache_get
    get_of-contents tool params s j u h =
        if_both {A = Option Json × S} (λ t. contents t.1 j ≡ some u → contents s j ≡ some u)
          env.enabled
          (
            cache_hit env.blank env.loads (env.redis_get (make_key env tool params) s).0,
            (env.redis_get (make_key env tool params) s).1,
          )
          (none, s) (keeps.get_contents _ j u s) (λ e. e) h

    set_of-contents :
        (tool : String) (params result : Json) (s : S) (j : String) (u : T)
        → contents (cache_set env tool params result s) j ≡ some u
        → (contents s j ≡ some u) ⊎ ((j ≡ make_key env tool params) × (u ≡ env.dumps result))
    unfolding cache_set
    set_of-contents tool params result s j u h =
        if_both
          (λ t.
            contents t j ≡ some u
            → (contents s j ≡ some u) ⊎ ((j ≡ make_key env tool params) × (u ≡ env.dumps result)))
          env.enabled (env.redis_setex (make_key env tool params) env.ttl (env.dumps result) s).1 s
          (keeps.setex_contents _ j _ u env.ttl s) inl h

    invalidate_of-contents :
        (tool : String) (params : Json) (s : S) (j : String) (u : T)
        → contents (invalidate env tool params s) j ≡ some u
        → contents s j ≡ some u
    unfolding invalidate
    invalidate_of-contents tool params s j u h =
        if_both (λ t. contents t j ≡ some u → contents s j ≡ some u) env.enabled
          (env.redis_delete (make_key env tool params) s).1 s (keeps.delete_contents _ j u s)
          (λ e. e) h

    perform_all-Printed :
        (cs : List Call) (s : S) (j : String) (u : T)
        → contents (perform_all cs s) j ≡ some u
        → (contents s j ≡ some u) ⊎ Printed j u (set_results cs)
    unfolding perform_all set_results
    perform_all-Printed [] s j u h = inl h
    perform_all-Printed (get_of tool params ∷ cs) s j u h = elim (perform_all-Printed cs _ j u h) [
      | inl e ↦ inl (get_of-contents tool params s j u e)
      | inr p ↦ inr p
    ]
    perform_all-Printed (invalidate_of tool params ∷ cs) s j u h =
        elim (perform_all-Printed cs _ j u h) [
          | inl e ↦ inl (invalidate_of-contents tool params s j u e)
          | inr p ↦ inr p
        ]
    perform_all-Printed (set_of tool params result ∷ cs) s j u h =
        elim (perform_all-Printed cs _ j u h) [
          | inl e ↦ elim (set_of-contents tool params result s j u e) [
            | inl old ↦ inl old
            | inr new ↦ inr (result, new.1, Memᴰ.head (ap (λ k. (k, result)) new.0))
          ]
          | inr p ↦ inr (Printed-cons p)
        ]

    loaded-Mem :
        (j : String) (u : T) (r : Json) (ps : List (String × Json))
        → env.loads u ≡ ok r
        → Printed j u ps
        → Memᴰ (j, r) ps
    loaded-Mem j u r ps e (q, printed, m) =
        let same : q ≡ r =
          ok_injective (sym (keeps.loads_dumps q) ∙ ap env.loads (sym printed) ∙ e) in
        simp (sym same) m

    -- Whatever calls of the cache were made from an empty Redis, and whichever calls of the client failed and
    -- entries expired meanwhile, a hit is a result that one of the calls set under the key that the hit
    -- was asked for.
    pub cache_get-Provenance :
        (cs : List Call) (s : S)
        → ((k : String) → contents s k ≡ none)
        → (tool : String) (params r : Json)
        → (cache_get env tool params (perform_all cs s)).0 ≡ some r
        → Memᴰ (make_key env tool params, r) (set_results cs)
    unfolding cache_get
    cache_get-Provenance cs s empty tool params r h =
        let key = make_key env tool params in
        let t = perform_all cs s in
        if_both {A = Option Json × S} (λ x. x.0 ≡ some r → Memᴰ (key, r) (set_results cs))
          env.enabled
          (cache_hit env.blank env.loads (env.redis_get key t).0, (env.redis_get key t).1) (none, t)
          (λ e.
            let (u, reply, read) = hit-contents (env.redis_get key t).0 r e in
            loaded-Mem key u r (set_results cs) read
              (elim (perform_all-Printed cs s key u (keeps.get_reply key u t reply)) [
                | inl old ↦ none-some (sym (empty key) ∙ old)
                | inr p ↦ p
              ]))
          (λ e. none-some e) h
