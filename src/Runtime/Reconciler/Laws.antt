-- ===== src/Runtime/Reconciler/Laws.antt =====
-- services/_runtime/ingest_reconciler.py: what the reconciler relies on of Redis, NATS and the
-- dead-letter publisher.
use cyber_security_alert_tri.Common.{ℕ, ◌≤◌, String, Bool, true, Option, none, some, List, ◌≡◌, ◌⊎◌}
use cyber_security_alert_tri.Effects.{Exec, ok}
use cyber_security_alert_tri.Runtime.Reconciler.{ReconcilerEnv, Key, pending, attempts, next}

-- What can be seen of a state: the value of a key, whether the broker has acknowledged an alert's
-- message, the largest reply of INCR on an alert's attempts key so far, and whether the time to live of
-- the alert's entry, which SETEX sets, has run out.
pub record Observe (S : Type 0) : Type 0 where
  pub view : S → Key → Option String
  pub acked : S → String → Bool
  pub counted : S → String → ℕ
  pub expired : S → String → Bool

module _ {S P : Type 0} (env : ReconcilerEnv S P) (o : Observe S) (id : String) where
  -- What has happened to the alert stays: its acknowledgement, its count, and the end of its entry's
  -- time to live.
  abbrev pub Grows : {A : Type 0} → Exec S A → Type 0
  Grows m =
      (s : S)
      → (o.acked s id ≡ true → o.acked (m s).1 id ≡ true)
        × (o.counted s id ≤ o.counted (m s).1 id)
        × (o.expired s id ≡ true → o.expired (m s).1 id ≡ true)

  -- The alert's entry is untouched, unless its time to live runs out meanwhile: then it is gone.
  abbrev pub SameEntry : {A : Type 0} → Exec S A → Type 0
  SameEntry m =
      (s : S)
      → (o.view (m s).1 (pending id) ≡ o.view s (pending id))
        ⊎ ((o.view (m s).1 (pending id) ≡ none) × (o.expired (m s).1 id ≡ true))

  -- Documented behaviour of the clients, for the alert at hand: a command changes no key but its own,
  -- GET answers the value, INCR answers the new count, and a publish that returns true was acknowledged.
  -- Every command may raise, and the entry may expire during every command.
  pub record Documented : Type 0 where
    pub get_grows : (k : Key) → Grows (env.get k)
    pub get_same : (k : Key) → SameEntry (env.get k)
    pub get_value :
        (s : S) {v : Option String}
        → (env.get (pending id) s).0 ≡ ok v
        → v ≡ o.view (env.get (pending id) s).1 (pending id)
    pub setex_grows : (k : Key) (ttl : ℕ) (v : String) → Grows (env.setex k ttl v)
    pub setex_same : (ttl : ℕ) (v j : String) → SameEntry (env.setex (next j) ttl v)
    pub delete_grows : (ks : List Key) → Grows (env.delete ks)
    pub incr_grows : (k : Key) → Grows (env.incr k)
    pub incr_same : (j : String) → SameEntry (env.incr (attempts j))
    pub incr_counts :
        (s : S) {n : ℕ}
        → (env.incr (attempts id) s).0 ≡ ok n
        → n ≤ o.counted (env.incr (attempts id) s).1 id
    pub expire_grows : (k : Key) (ttl : ℕ) → Grows (env.expire k ttl)
    pub expire_same : (ttl : ℕ) (j : String) → SameEntry (env.expire (attempts j) ttl)
    pub publish_grows :
        (subject body j : String)
        → Grows (λ s. (ok (env.publish subject body j s).0, (env.publish subject body j s).1))
    pub publish_same :
        (subject body j : String)
        → SameEntry (λ s. (ok (env.publish subject body j s).0, (env.publish subject body j s).1))
    pub publish_acked :
        (subject body : String) (s : S)
        → (env.publish subject body id s).0 ≡ true
        → o.acked (env.publish subject body id s).1 id ≡ true
    pub dlq_grows :
        (f : String → P → String → Exec S (Unit {0})) (p : P) (reason : String)
        → env.dlq ≡ some f
        → Grows (f id p reason)
