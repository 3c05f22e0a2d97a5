-- ===== src/Runtime/Glue/Durable.antt =====
-- app/_runtime_glue.py with services/_runtime/ingest_reconciler.py: an alert from the request that
-- accepts it to the rounds of the reconciler.
use mathlib.Core.Path.{subst}
use Prim.Native.String.{◌++◌ as ◌+s◌}
use Prim.Native.Char.{Char}
use cyber_security_alert_tri.Common.{
  ℕ, zero, suc, String, Bool, true, false, some, ◌≡◌, refl, ◌∙◌, sym, ap, arith, inl, inr,
}
use cyber_security_alert_tri.Json.{Json}
use cyber_security_alert_tri.Schema.{NormalizedAlert}
use cyber_security_alert_tri.Effects.{Exec, ok, pure, ◌>>=◌, ◌>>◌}
use cyber_security_alert_tri.Runtime.Reconciler.{ReconcilerEnv, pending, write_ahead, process_one}
use cyber_security_alert_tri.Runtime.Reconciler.Laws.{Observe, Documented}
use cyber_security_alert_tri.Runtime.Reconciler.Settled.{mark_published-Settled}
use cyber_security_alert_tri.Runtime.Reconciler.Replies.{
  mark_published-reply, write_ahead-stored, write_ahead-reply,
}
use cyber_security_alert_tri.Runtime.Reconciler.Durability.{Accounted, process_one-Accounted}
use cyber_security_alert_tri.Runtime.Glue.{
  GlueEnv, subject_for_alert, wal_payload, after_inline, publish_inline, enqueue_via_nats,
}

module _ {S : Type 0} (env : GlueEnv S) where
  after_inline-reply :
      (alert : NormalizedAlert) (b : Bool) (s : S) → (after_inline env alert.alert_id b s).0 ≡ ok tt
  after_inline-reply alert true s = mark_published-reply env.reconciler alert.alert_id s
  after_inline-reply alert false s = refl

  -- With the runtime wired enqueue_via_nats answers true in every case, also where neither the log took the
  -- alert nor the broker acknowledged it; without the runtime it answers false and does nothing.
  pub enqueue_via_nats-reply :
      (alert : NormalizedAlert) (s : S)
      → ((enqueue_via_nats env alert s).0 ≡ ok env.wired)
        × (env.wired ≡ false → (enqueue_via_nats env alert s).1 ≡ s)
  unfolding enqueue_via_nats
  enqueue_via_nats-reply alert s =
      let t = (write_ahead env.reconciler alert.alert_id (wal_payload env alert) s).1 in
      let b =
        env.reconciler.publish (subject_for_alert alert) (env.model_dump_json alert) alert.alert_id
          t in
      ground (
        arith,
        write_ahead-reply env.reconciler alert.alert_id (wal_payload env alert) s,
        after_inline-reply alert b.0 b.1,
      )

-- Rounds of the reconciler on one alert.
pub rounds : {S P : Type 0} → ReconcilerEnv S P → String → ℕ → S → S
rounds env id zero s = s
rounds env id (suc n) s = rounds env id n (process_one env id s).1

module _ {S : Type 0} (env : GlueEnv S) (o : Observe S) (alert : NormalizedAlert)
    (d : Documented env.reconciler o alert.alert_id) where
  abbrev logged_text : String
  logged_text = env.reconciler.dumps (wal_payload env alert)

  abbrev pub InLog : S → Type 0
  InLog = Accounted env.reconciler o alert.alert_id logged_text d

  abbrev logging : Exec S (Unit {0})
  logging = env.reconciler.setex (pending alert.alert_id) env.reconciler.max_age logged_text

  rounds-InLog :
      (n : ℕ) (s : S)
      → env.reconciler.loads logged_text ≡ some (wal_payload env alert)
      → InLog s
      → InLog (rounds env.reconciler alert.alert_id n s)
  unfolding rounds
  rounds-InLog zero s readable h = h
  rounds-InLog (suc n) s readable h =
      rounds-InLog n (process_one env.reconciler alert.alert_id s).1 readable (
        process_one-Accounted env.reconciler o alert.alert_id logged_text d (wal_payload env alert)
          s readable h)

  after_inline-InLog :
      (b : Bool) (s : S)
      → (b ≡ true → o.acked s alert.alert_id ≡ true)
      → InLog s
      → InLog (after_inline env alert.alert_id b s).1
  after_inline-InLog true s ack h =
      inr ((mark_published-Settled env.reconciler o alert.alert_id d).at s (inl (ack refl)))
  after_inline-InLog false s ack h = h

  publish-InLog : (s : S) → InLog s → InLog (publish_inline env alert s).1
  publish-InLog s h = ground (
    arith,
    d.publish_grows (subject_for_alert alert) (env.model_dump_json alert) alert.alert_id s,
    d.publish_same (subject_for_alert alert) (env.model_dump_json alert) alert.alert_id s,
  )

  -- The part of `enqueue_via_nats` after the log.
  abbrev from_publish : Exec S Bool
  from_publish = do
    acked ← publish_inline env alert
    after_inline env alert.alert_id acked
    pure true

  from_publish-InLog : (s : S) → InLog s → ((from_publish s).0 ≡ ok true) × InLog (from_publish s).1
  from_publish-InLog s h =
      let b =
        env.reconciler.publish (subject_for_alert alert) (env.model_dump_json alert) alert.alert_id
          s in
      let kept =
        after_inline-InLog b.0 b.1
          (d.publish_acked (subject_for_alert alert) (env.model_dump_json alert) s)
          (publish-InLog s h) in
      ground (arith, kept, after_inline-reply env alert b.0 b.1)

  enqueue-from_publish :
      (s : S)
      → env.wired ≡ true
      → env.reconciler.connected ≡ true
      → (logging s).0 ≡ ok tt
      → enqueue_via_nats env alert s ≡ from_publish (logging s).1
  unfolding enqueue_via_nats
  enqueue-from_publish s wired connected stored = ground (
    arith,
    write_ahead-stored env.reconciler alert.alert_id (wal_payload env alert) s connected stored,
  )

  -- An alert that the ingest path accepts is not lost unnoticed from then on. If the runtime is wired and the SETEX of
  -- the write-ahead log has stored the payload, whose text decodes to it, then enqueue_via_nats answers
  -- true, and after any number of rounds of the reconciler the entry is still in the log, or the broker
  -- has acknowledged the alert, or INCR has counted at least seven attempts, or the time to live that
  -- SETEX gave the entry has run out. The publish of the ingest path itself may fail.
  pub enqueue_via_nats-Accounted :
      (s : S) (n : ℕ)
      → env.wired ≡ true
      → env.reconciler.connected ≡ true
      → env.reconciler.loads logged_text ≡ some (wal_payload env alert)
      → (logging s).0 ≡ ok tt
      → o.view (logging s).1 (pending alert.alert_id) ≡ some logged_text
      → ((enqueue_via_nats env alert s).0 ≡ ok true)
        × InLog (rounds env.reconciler alert.alert_id n (enqueue_via_nats env alert s).1)
  enqueue_via_nats-Accounted s n wired connected readable stored seen =
      let t = (logging s).1 in
      let e = enqueue-from_publish s wired connected stored in
      let after = from_publish-InLog t (inl seen) in
      (
        ap (λ r. r.0) e ∙ after.0,
        rounds-InLog n (enqueue_via_nats env alert s).1 readable
            (subst (λ r. InLog r.1) (sym e) after.1),
      )
