-- ===== src/Storage/Cache.antt =====
-- services/context_cache.py: the cache of tool results, in Redis.
pub mod Provenance
mod Tests
use Prim.Native.String.{◌++◌ as ◌+s◌}
use cyber_security_alert_tri.Common.{
  ℕ, String, Bool, Option, none, some, List, [], ◌∷◌, if◌then◌else◌,
}
use cyber_security_alert_tri.Json.{Json, obj, str, end, field}
use cyber_security_alert_tri.Effects.{Exec, Result, ok, raised}

-- The Redis client, whose calls may raise, `json` and `hashlib`. `enabled` is whether there is a client:
-- `__init__` clears `_enabled` where it cannot make one. The texts of results are of type `T`, and `blank`
-- is the empty one.
pub record CacheEnv (S T : Type 0) : Type 0 where
  pub enabled : Bool
  pub ttl : ℕ
  pub redis_get : String → Exec S (Option T)
  pub redis_setex : String → ℕ → T → Exec S (Unit {0})
  pub redis_delete : String → Exec S (Unit {0})
  pub blank : T → Bool
  pub dumps : Json → T
  pub dumps_sorted : Json → String
  pub loads : T → Result Json
  pub sha256 : String → String

-- `return json.loads(raw)` within the `try`: an exception is logged, and the answer is None.
abbrev pub loaded : Result Json → Option Json
loaded (ok v) = some v
loaded (raised e) = none

-- `if raw: return json.loads(raw)`, where the call may have raised.
unfoldable pub cache_hit :
    {T : Type 0} → (T → Bool) → (T → Result Json) → Result (Option T) → Option Json
cache_hit blank loads (raised e) = none
cache_hit blank loads (ok none) = none
cache_hit blank loads (ok (some raw)) = if blank raw then none else loaded (loads raw)

module _ {S T : Type 0} (env : CacheEnv S T) where
  -- `_make_key`
  unfoldable pub make_key : String → Json → String
  make_key tool_name params =
      "soc:cache:"
      +s env.sha256
          (env.dumps_sorted (obj (field "tool" (str tool_name) (field "params" params end))))

  -- `ContextCache.get`
  unfoldable pub cache_get : String → Json → S → Option Json × S
  cache_get tool_name params s =
      if env.enabled
      then (
        cache_hit env.blank env.loads (env.redis_get (make_key tool_name params) s).0,
        (env.redis_get (make_key tool_name params) s).1,
      )
      else (none, s)

  -- `ContextCache.set`: an exception is logged and dropped.
  unfoldable pub cache_set : String → Json → Json → S → S
  cache_set tool_name params result s =
      if env.enabled
      then (env.redis_setex (make_key tool_name params) env.ttl (env.dumps result) s).1
      else s

  -- `ContextCache.invalidate`
  unfoldable pub invalidate : String → Json → S → S
  invalidate tool_name params s =
      if env.enabled then (env.redis_delete (make_key tool_name params) s).1 else s
