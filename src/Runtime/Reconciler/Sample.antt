-- ===== src/Runtime/Reconciler/Sample.antt =====
-- services/_runtime/ingest_reconciler.py: a small Redis and a broker for the tests.
use cyber_security_alert_tri.Common.{
  ℕ, suc, String, Bool, true, false, ◌||◌, Option, none, some, List, [], ◌∷◌, if◌then◌else◌, arith,
  refl, ◌≤◌, ◌≡◌, ◌⊎◌, inl,
}
use cyber_security_alert_tri.Effects.{ok, Result}
use cyber_security_alert_tri.Runtime.Reconciler.{ReconcilerEnv, Key, pending, key_eq}
use cyber_security_alert_tri.Runtime.Reconciler.Laws.{Observe, Documented}

-- The entry of the alert `a-1`, whether its time is up and whether it has expired, the replies of INCR,
-- and whether the broker answers and has answered.
pub record Store : Type 0 where
  pub entry : Option String
  pub due : Bool
  pub ended : Bool
  pub count : ℕ
  pub broker : Bool
  pub acknowledged : Bool

abbrev is_entry : Key → Bool
is_entry k = key_eq k (pending "a-1")

abbrev any_entry : List Key → Bool
any_entry [] = false
any_entry (k ∷ ks) = is_entry k || any_entry ks

-- An entry whose time is up is gone.
abbrev ticked : Store → Store
ticked s = if s.due then record s { entry = none; ended = true } else s

-- Redis, where every lease is free and every alert is due.
abbrev pub redis :
    {P : Type 0} → (P → Result String) → (String → Option P) → (P → String) → ReconcilerEnv Store P
redis subject_for loads dumps = record {
  connected = true;
  get = λ k s. (ok (if is_entry k then (ticked s).entry else none), ticked s);
  setex = λ k ttl v s. (ok tt, record s { entry = if is_entry k then some v else s.entry });
  set_nx = λ k ttl v s. (ok true, s);
  delete = λ ks s. (ok tt, record s { entry = if any_entry ks then none else s.entry });
  incr = λ k s. (ok (suc s.count), record s { count = suc s.count });
  expire = λ k ttl s. (ok tt, s);
  delete_if_equal = λ k v s. (ok tt, s);
  scan_pending = λ s. (ok ("a-1" ∷ []), s);
  now = λ s. 100;
  publish = λ subject body id s. (s.broker, record s { acknowledged = s.acknowledged || s.broker });
  subject_for = subject_for;
  dlq = none;
  loads = loads;
  dumps = dumps;
  print_time = λ t. "105";
  parse_time = λ t. some 105;
  max_age = 86400;
  lease_seconds = 60;
  owner = "worker-1";
}

abbrev pub observe : Observe Store
observe = record {
  view = λ s k. if is_entry k then s.entry else none;
  acked = λ s id. s.acknowledged;
  counted = λ s id. s.count;
  expired = λ s id. s.ended;
}

ticked-grows :
    (s : Store)
    → (s.acknowledged ≡ true → (ticked s).acknowledged ≡ true)
      × (s.count ≤ (ticked s).count)
      × (s.ended ≡ true → (ticked s).ended ≡ true)
ticked-grows s = ground arith

ticked-same :
    (s : Store)
    → ((ticked s).entry ≡ s.entry) ⊎ (((ticked s).entry ≡ none) × ((ticked s).ended ≡ true))
ticked-same s = ground arith

pub redis-Documented :
    {P : Type 0} (subject_for : P → Result String) (loads : String → Option P) (dumps : P → String)
    → Documented (redis subject_for loads dumps) observe "a-1"
redis-Documented subject_for loads dumps = record {
  get_grows = λ k s. ticked-grows s;
  get_same = λ k s. ticked-same s;
  get_value = λ s h. ground arith;
  setex_grows = λ k ttl v s. (λ h. h, omega arith, λ h. h);
  setex_same = λ ttl v j s. inl refl;
  delete_grows = λ ks s. (λ h. h, omega arith, λ h. h);
  incr_grows = λ k s. (λ h. h, omega arith, λ h. h);
  incr_same = λ j s. inl refl;
  incr_counts = λ s h. ground arith;
  expire_grows = λ k ttl s. (λ h. h, omega arith, λ h. h);
  expire_same = λ ttl j s. inl refl;
  publish_grows = λ subject body j s. (λ h. ground arith, omega arith, λ h. h);
  publish_same = λ subject body j s. inl refl;
  publish_acked = λ subject body s h. ground arith;
  dlq_grows = λ f p reason h. absurd (ground arith);
}
