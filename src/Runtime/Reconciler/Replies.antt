-- ===== src/Runtime/Reconciler/Replies.antt =====
-- services/_runtime/ingest_reconciler.py: what the write-ahead log replies to the ingest path.
use cyber_security_alert_tri.Common.{String, true, ◌≡◌, arith}
use cyber_security_alert_tri.Effects.{ok}
use cyber_security_alert_tri.Runtime.Reconciler.{
  ReconcilerEnv, pending, write_ahead, mark_published, clean_up,
}

module _ {S P : Type 0} (env : ReconcilerEnv S P) (id : String) where
  pub mark_published-reply : (s : S) → (mark_published env id s).0 ≡ ok tt
  unfolding mark_published clean_up
  mark_published-reply s = ground arith

  pub write_ahead-stored :
      (p : P) (s : S)
      → env.connected ≡ true
      → (env.setex (pending id) env.max_age (env.dumps p) s).0 ≡ ok tt
      → write_ahead env id p s ≡ (ok true, (env.setex (pending id) env.max_age (env.dumps p) s).1)
  unfolding write_ahead
  write_ahead-stored p s connected stored = ground arith

  -- The reply does not tell whether the entry was written.
  pub write_ahead-reply : (p : P) (s : S) → (write_ahead env id p s).0 ≡ ok true
  unfolding write_ahead
  write_ahead-reply p s = ground arith
