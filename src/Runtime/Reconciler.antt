-- ===== src/Runtime/Reconciler.antt =====
-- services/_runtime/ingest_reconciler.py: the write-ahead log of accepted alerts, and the loop that
-- publishes them later. Redis, NATS, the clock and `json` are the fields of `ReconcilerEnv`.
pub mod Laws
pub mod Settled
pub mod Replies
pub mod Sample
pub mod Durability
mod Tests
use cyber_security_alert_tri.Common.{
  ℕ, ◌+◌, ◌-◌, ◌*◌, String, Bool, true, false, ◌||◌, Option, none, some, List, [], ◌∷◌, ◌==◌, leb,
  ltb, length, if◌then◌else◌,
}
use cyber_security_alert_tri.Effects.{
  Exec, Result, ok, raised, Exception, value_error, pure, raise, continue, ◌>>=◌, ◌>>◌, catch,
  handle, finally, quietly,
}

-- The Redis keys of an alert: `pending_alert:{id}`, `pending_alert_lease:{id}`,
-- `pending_alert_attempts:{id}` and `pending_alert_attempts:{id}:next`. The texts differ for ids that
-- do not end in `:next`, as alert ids, which are hexadecimal, do not.
pub data Key : Type 0 where
  pending lease attempts next : String → Key

abbrev pub key_eq : Key → Key → Bool
key_eq (pending a) (pending b) = a == b
key_eq (lease a) (lease b) = a == b
key_eq (attempts a) (attempts b) = a == b
key_eq (next a) (next b) = a == b
key_eq _ _ = false

-- `_BACKOFF_SECONDS`
abbrev pub backoff_seconds : List ℕ
backoff_seconds = 5 ∷ 30 ∷ 300 ∷ 1800 ∷ 3600 ∷ 14400 ∷ 28800 ∷ []

-- What the reconciler is given: whether it has a Redis client, the client (every call may raise), the
-- broker, the clock, the JSON and float conversions of Python, and the constructor's arguments. `S` is
-- the state of Redis, NATS and the clock; `P` is a decoded payload.
pub record ReconcilerEnv (S P : Type 0) : Type 0 where
  pub connected : Bool
  pub get : Key → Exec S (Option String)
  pub setex : Key → ℕ → String → Exec S (Unit {0})
  pub set_nx : Key → ℕ → String → Exec S Bool
  pub delete : List Key → Exec S (Unit {0})
  pub incr : Key → Exec S ℕ
  pub expire : Key → ℕ → Exec S (Unit {0})
  pub delete_if_equal : Key → String → Exec S (Unit {0})
  pub scan_pending : Exec S (List String)
  pub now : S → ℕ
  pub publish : String → String → String → S → Bool × S
  pub subject_for : P → Result String
  pub dlq : Option (String → P → String → Exec S (Unit {0}))
  pub loads : String → Option P
  pub dumps : P → String
  pub print_time : ℕ → String
  pub parse_time : String → Option ℕ
  pub max_age : ℕ
  pub lease_seconds : ℕ
  pub owner : String

-- `xs[min(i, len(xs) - 1)]`
abbrev pub delay_at : ℕ → List ℕ → ℕ
delay_at i [] = 0
delay_at i (d ∷ []) = d
delay_at Prim.Native.Nat.zero (d ∷ e ∷ ds) = d
delay_at (Prim.Native.Nat.suc i) (d ∷ e ∷ ds) = delay_at i (e ∷ ds)

module _ {S P : Type 0} (env : ReconcilerEnv S P) where
  open env use {connected, get, setex, set_nx, delete, incr, expire, max_age, owner}

  -- `write_ahead`: true even where the write fails.
  unfoldable pub write_ahead : String → P → Exec S Bool
  write_ahead id payload =
      if connected
      then catch (do setex (pending id) max_age (env.dumps payload); pure true) (λ _. pure true)
      else pure true

  -- A deletion whose failure is logged and dropped, where there is a client.
  unfoldable pub clean_up : List Key → Exec S (Unit {0})
  clean_up keys = if connected then quietly (delete keys) else pure tt

  -- `mark_published`
  unfoldable pub mark_published : String → Exec S (Unit {0})
  mark_published id = clean_up (pending id ∷ lease id ∷ attempts id ∷ [])

  -- `_acquire_lease`
  pub acquire_lease : String → Exec S Bool
  acquire_lease id = if connected then set_nx (lease id) env.lease_seconds owner else pure false

  -- `_release_lease`: the script deletes the lease only where this owner still holds it.
  pub release_lease : String → Exec S (Unit {0})
  release_lease id = if connected then quietly (env.delete_if_equal (lease id) owner) else pure tt

  -- `_increment_attempts`
  pub increment_attempts : String → Exec S ℕ
  increment_attempts id =
      if connected
      then catch (do n ← incr (attempts id); expire (attempts id) max_age; pure n) (λ _. pure 1)
      else pure 1

  abbrev pub send_to_dlq :
      Option (String → P → String → Exec S (Unit {0})) → String → P → String → Exec S (Unit {0})
  send_to_dlq none id payload reason = pure tt
  send_to_dlq (some dlq) id payload reason = quietly (dlq id payload reason)

  -- `_move_to_dlq`
  pub move_to_dlq : String → P → String → Exec S (Unit {0})
  move_to_dlq id payload reason = do
    send_to_dlq env.dlq id payload reason
    clean_up (pending id ∷ attempts id ∷ next id ∷ [])

  -- `next_after and time.time() < float(next_after)`; `float` of another text raises.
  abbrev pub not_yet : ℕ → Option ℕ → Result Bool
  not_yet t none = raised value_error
  not_yet t (some u) = ok (ltb t u)

  abbrev pub too_early : ℕ → Option String → Result Bool
  too_early t none = ok false
  too_early t (some u) = if u == "" then ok false else not_yet t (env.parse_time u)

  abbrev pub lift {ℓ} : {A : Type ℓ} → Result A → Exec S A
  lift r s = (r, s)

  -- After a failed publish: the next time to try, and the end of the entry after seven counts.
  pub publish_failed : String → P → ℕ → Exec S (Unit {0})
  publish_failed id payload tries = do
    t ← λ s. (ok (env.now s), s)
    setex (next id) max_age (env.print_time (t + delay_at (tries - 1) backoff_seconds))
    if leb (length backoff_seconds) tries
        then move_to_dlq id payload "max_retries_exhausted"
        else pure tt

  abbrev pub after_publish : String → P → ℕ → Bool → Exec S (Unit {0})
  after_publish id payload tries true = mark_published id
  after_publish id payload tries false = publish_failed id payload tries

  -- The publish, with the broker's acknowledgement awaited.
  pub publish_pending : String → P → ℕ → Exec S (Unit {0})
  publish_pending id payload tries = do
    subject ← lift (env.subject_for payload)
    acked ← λ s. let (b, t) = env.publish subject (env.dumps payload) id s in (ok b, t)
    after_publish id payload tries acked

  -- The part of `_process_one` for a payload that decodes.
  pub process_payload : String → P → Exec S (Unit {0})
  process_payload id payload = do
    tries ← increment_attempts id
    next_after ← get (next id)
    early ← λ s. (too_early (env.now s) next_after, s)
    if early then pure tt else publish_pending id payload tries

  abbrev pub process_decoded : String → Option P → Exec S (Unit {0})
  process_decoded id none = delete (pending id ∷ [])
  process_decoded id (some payload) = process_payload id payload

  abbrev pub process_raw : String → Option String → Exec S (Unit {0})
  process_raw id none = pure tt
  process_raw id (some raw) = if raw == "" then pure tt else process_decoded id (env.loads raw)

  -- `_process_one`
  pub process_one : String → Exec S (Unit {0})
  process_one id = if connected then (do raw ← get (pending id); process_raw id raw) else pure tt

  -- The body of the scan in `run_once`.
  pub process_leased : String → Exec S (Unit {0})
  process_leased id = do
    mine ← acquire_lease id
    if mine then finally (process_one id) (release_lease id) else pure tt

  pub run_ids : List String → Exec S ℕ
  run_ids [] = pure 0
  run_ids (id ∷ ids) = do process_leased id; n ← run_ids ids; pure (n + 1)

  -- `run_once`. The ids that the scan yields are read before the first of them is processed.
  pub run_once : Exec S ℕ
  run_once = if connected then (do ids ← env.scan_pending; run_ids ids) else pure 0
