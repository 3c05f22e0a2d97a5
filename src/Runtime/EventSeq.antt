-- ===== src/Runtime/EventSeq.antt =====
-- services/_runtime/event_seq.py: the sequence number of an alert's next event, from Redis or from the
-- counters of the process.
pub mod Consecutive
mod Tests
use cyber_security_alert_tri.Common.{
  ℕ, zero, suc, String, Bool, true, false, Option, none, some, List, [], ◌∷◌, ◌==◌, if◌then◌else◌,
}
use cyber_security_alert_tri.Effects.{
  Exec, Result, ok, raised, value_error, ◌>>=◌, ◌>>◌, continue, pure, quietly, catch, handle,
}

-- The Redis client, whose keys are named by the alert: every call may raise. `parse_int` is `int` of
-- a text, `none` where it raises.
pub record SeqEnv (S : Type 0) : Type 0 where
  pub connected : Bool
  pub incr : String → Exec S ℕ
  pub expire : String → ℕ → Exec S (Unit {0})
  pub get : String → Exec S (Option String)
  pub delete : String → Exec S (Unit {0})
  pub parse_int : String → Option ℕ
  pub ttl : ℕ

-- `_local_counters`
abbrev pub Counters : Type 0
Counters = List (String × ℕ)

-- `_local_counters.get(alert_id, 0)`
pub local_peek : String → Counters → ℕ
local_peek id [] = 0
local_peek id ((k, n) ∷ c) = if k == id then n else local_peek id c

-- `_local_counters[alert_id] = n`
pub local_set : String → ℕ → Counters → Counters
local_set id n [] = (id, n) ∷ []
local_set id n ((k, m) ∷ c) =
    let rest = local_set id n c in if k == id then (id, n) ∷ c else (k, m) ∷ rest

-- `_local_next`
pub local_next : String → Counters → ℕ × Counters
local_next id c = let n = suc (local_peek id c) in (n, local_set id n c)

-- `_local_reset`
pub local_reset : String → Counters → Counters
local_reset id [] = []
local_reset id ((k, n) ∷ c) = let rest = local_reset id c in if k == id then c else (k, n) ∷ rest

-- The process's counters, and what is outside it.
pub record Process (S : Type 0) : Type 0 where
  pub counters : Counters
  pub outside : S

module _ {S : Type 0} (env : SeqEnv S) where
  -- INCR, then the refreshed expiry.
  abbrev pub bump : String → Exec S ℕ
  bump id = do n ← env.incr id; env.expire id env.ttl; pure n

  abbrev pub fall_back : String → Process S → ℕ × Process S
  fall_back id p = let (n, c) = local_next id p.counters in (n, record p { counters = c })

  abbrev pub or_fall_back : String → Counters → Result ℕ × S → ℕ × Process S
  or_fall_back id c (ok n, s) = (n, record { counters = c; outside = s })
  or_fall_back id c (raised e, s) = fall_back id (record { counters = c; outside = s })

  -- `next_seq`
  pub next_seq : String → Process S → ℕ × Process S
  next_seq id p =
      if env.connected then or_fall_back id p.counters (bump id p.outside) else fall_back id p

  abbrev pub number_or_error : Option ℕ → Result ℕ
  number_or_error none = raised value_error
  number_or_error (some n) = ok n

  -- `int(raw) if raw else 0`
  abbrev pub number_of : Option String → Result ℕ
  number_of none = ok 0
  number_of (some raw) = if raw == "" then ok 0 else number_or_error (env.parse_int raw)

  abbrev pub or_zero : Result ℕ → ℕ
  or_zero (ok n) = n
  or_zero (raised e) = 0

  abbrev pub read_seq : String → Exec S ℕ
  read_seq id = env.get id >>= λ raw s. (number_of raw, s)

  -- `current_seq`, which leaves the process's counters.
  pub current_seq : String → Process S → ℕ × S
  current_seq id p =
      if env.connected
      then (or_zero (read_seq id p.outside).0, (read_seq id p.outside).1)
      else (local_peek id p.counters, p.outside)

  -- `reset`
  pub reset : String → Process S → Process S
  reset id p =
      if env.connected
      then record p { outside = (env.delete id p.outside).1 }
      else record p { counters = local_reset id p.counters }
