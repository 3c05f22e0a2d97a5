-- ===== src/Runtime/Reconciler/Durability.antt =====
-- services/_runtime/ingest_reconciler.py: when an accepted alert may leave the write-ahead log.
use cyber_security_alert_tri.Common.{
  if_both, ℕ, ◌+◌, ◌-◌, ◌≤◌, ◌<◌, String, Bool, true, false, Option, none, some, ◌≡◌, refl, ◌∙◌, ap,
  ◌⊎◌, inl, inr, arith, ◌==◌, leb, leb→le, length, if◌then◌else◌,
}
use cyber_security_alert_tri.Effects.{
  Exec, ok, pure, ◌>>=◌, ◌>>◌, Preserves, Preserves-pure, Preserves-if, Preserves-bind, bind_at,
}
use cyber_security_alert_tri.Runtime.Reconciler.{
  ReconcilerEnv, pending, attempts, next, backoff_seconds, increment_attempts, move_to_dlq, lift,
  publish_failed, after_publish, publish_pending, process_payload, process_decoded, process_raw,
  process_one, delay_at, too_early,
}
use cyber_security_alert_tri.Runtime.Reconciler.Laws.{Observe, Grows, SameEntry, Documented}
use cyber_security_alert_tri.Runtime.Reconciler.Settled.{
  Settled, mark_published-Settled, increment-Grows, after_count, early-Preserves,
  after_count-Settled, process_raw-Settled, process_one-Settled,
}

module _ {S P : Type 0} (env : ReconcilerEnv S P) (o : Observe S) (id raw : String)
    (d : Documented env o id) where
  -- The entry is still in the log, or the alert is settled.
  abbrev pub Accounted : S → Type 0
  Accounted s = (o.view s (pending id) ≡ some raw) ⊎ Settled env o id d s

  same-Accounted :
      {A : Type 0} (m : Exec S A) → Grows env o id m → SameEntry env o id m → Preserves Accounted m
  same-Accounted m g e = record { at = λ s h. ground (arith, g s, e s) }

  -- Below seven counts a failed publish leaves the entry in the log.
  schedule-Accounted :
      (p : P) (tries t : ℕ)
      → tries < 7
      → Preserves Accounted (
          env.setex
            (next id)
            env.max_age
            (env.print_time (t + delay_at (tries - 1) backoff_seconds))
          >> (if leb (length backoff_seconds) tries
              then move_to_dlq env id p "max_retries_exhausted"
              else pure tt))
  schedule-Accounted p tries t few =
      let v = env.print_time (t + delay_at (tries - 1) backoff_seconds) in
      Preserves-bind (env.setex (next id) env.max_age v)
        (λ _.
          if leb (length backoff_seconds) tries
          then move_to_dlq env id p "max_retries_exhausted"
          else pure tt)
        (same-Accounted (env.setex (next id) env.max_age v) (d.setex_grows (next id) env.max_age v)
          (d.setex_same env.max_age v id))
        (λ _.
          Preserves-if (leb (length backoff_seconds) tries)
            (move_to_dlq env id p "max_retries_exhausted") (pure tt)
            (λ many. absurd (omega (arith, leb→le 7 tries many))) (λ _. Preserves-pure tt))

  publish_failed-Accounted :
      (p : P) (tries : ℕ) → tries < 7 → Preserves Accounted (publish_failed env id p tries)
  unfolding publish_failed
  publish_failed-Accounted p tries few = record {
    at = λ s h. (schedule-Accounted p tries (env.now s) few).at s h;
  }

  after_publish-Accounted :
      (p : P) (tries : ℕ) (b : Bool) (t : S)
      → tries < 7
      → (b ≡ true → o.acked t id ≡ true)
      → Accounted t
      → Accounted (after_publish env id p tries b t).1
  after_publish-Accounted p tries true t few ack h =
      inr ((mark_published-Settled env o id d).at t (inl (ack refl)))
  after_publish-Accounted p tries false t few ack h = (publish_failed-Accounted p tries few).at t h

  publish_pending-Accounted :
      (p : P) (tries : ℕ) → tries < 7 → Preserves Accounted (publish_pending env id p tries)
  unfolding publish_pending
  publish_pending-Accounted p tries few = record {
    at = λ s h.
        bind_at Accounted (lift env (env.subject_for p))
          (λ subject.
            (λ u. (
              ok (env.publish subject (env.dumps p) id u).0,
              (env.publish subject (env.dumps p) id u).1,
            ))
            >>= after_publish env id p tries)
          s h
          (λ subject _.
            after_publish-Accounted p tries (env.publish subject (env.dumps p) id s).0
              (env.publish subject (env.dumps p) id s).1 few
              (d.publish_acked subject (env.dumps p) s)
              ((same-Accounted
                  (λ u. (
                    ok (env.publish subject (env.dumps p) id u).0,
                    (env.publish subject (env.dumps p) id u).1,
                  ))
                  (d.publish_grows subject (env.dumps p) id)
                  (d.publish_same subject (env.dumps p) id)).at
                s h));
  }

  increment_same : SameEntry env o id (increment_attempts env id)
  unfolding increment_attempts
  increment_same s =
      let t = (env.incr (attempts id) s).1 in
      ground (
        arith,
        d.incr_same id s,
        d.expire_same env.max_age id t,
        d.expire_grows (attempts id) env.max_age t,
      )

  increment_reply :
      (s : S) (n : ℕ)
      → (increment_attempts env id s).0 ≡ ok n
      → (n < 7) ⊎ (7 ≤ o.counted (increment_attempts env id s).1 id)
  unfolding increment_attempts
  increment_reply s n h = ground (
    arith,
    d.incr_counts s {n = n},
    d.expire_grows (attempts id) env.max_age (env.incr (attempts id) s).1,
  )

  after_count-Accounted :
      (p : P) (tries : ℕ) → tries < 7 → Preserves Accounted (after_count env o id d p tries)
  after_count-Accounted p tries few =
      Preserves-bind (env.get (next id))
        (λ u. (λ s. (too_early env (env.now s) u, s)) >>= λ early.
          if early then pure tt else publish_pending env id p tries)
        (same-Accounted (env.get (next id)) (d.get_grows (next id)) (d.get_same (next id)))
        (λ u.
          early-Preserves env o id d Accounted p tries u (publish_pending-Accounted p tries few))

  counted-Accounted :
      (p : P) (n : ℕ) (t : S)
      → (n < 7) ⊎ (7 ≤ o.counted t id)
      → Accounted t
      → Accounted (after_count env o id d p n t).1
  counted-Accounted p n t (inl few) h = (after_count-Accounted p n few).at t h
  counted-Accounted p n t (inr many) h =
      inr ((after_count-Settled env o id d p n).at t (inr (inl many)))

  process_payload-Accounted : (p : P) → Preserves Accounted (process_payload env id p)
  unfolding process_payload
  process_payload-Accounted p = record {
    at = λ s h.
        let t = (increment_attempts env id s).1 in
        let ht =
          (same-Accounted (increment_attempts env id) (increment-Grows env o id d)
              increment_same).at
            s h in
        bind_at Accounted (increment_attempts env id) (after_count env o id d p) s ht
          (λ n e. counted-Accounted p n t (increment_reply s n e) ht);
  }

  decoded-Accounted :
      (l : Option P) (p : P) (t : S)
      → l ≡ some p
      → Accounted t
      → Accounted (process_decoded env id l t).1
  decoded-Accounted none p t h a = cc
  decoded-Accounted (some q) p t h a = (process_payload-Accounted q).at t a

  raw-Accounted :
      (v : Option String) (p : P) (t : S)
      → v ≡ some raw
      → env.loads raw ≡ some p
      → Accounted t
      → Accounted (process_raw env id v t).1
  raw-Accounted none p t h k a = a
  raw-Accounted (some u) p t h k a =
      (Preserves-if (u == "") (pure tt) (process_decoded env id (env.loads u))
          (λ _. Preserves-pure tt)
          (λ _. record {
            at = λ x b.
                let e : u ≡ raw = cc in decoded-Accounted (env.loads u) p x (ap env.loads e ∙ k) b;
          })).at
        t a

  replied-Accounted :
      (v : Option String) (p : P) (t : S)
      → v ≡ o.view t (pending id)
      → env.loads raw ≡ some p
      → Accounted t
      → Accounted (process_raw env id v t).1
  replied-Accounted v p t e k (inl stored) = raw-Accounted v p t (e ∙ stored) k (inl stored)
  replied-Accounted v p t e k (inr settled) = inr ((process_raw-Settled env o id d v).at t settled)

  pending-Accounted :
      (p : P) (s : S)
      → env.loads raw ≡ some p
      → o.view s (pending id) ≡ some raw
      → Accounted ((env.get (pending id) >>= process_raw env id) s).1
  pending-Accounted p s k stored =
      let t = (env.get (pending id) s).1 in
      let here =
        (same-Accounted (env.get (pending id)) (d.get_grows (pending id))
            (d.get_same (pending id))).at
          s (inl stored) in
      bind_at Accounted (env.get (pending id)) (process_raw env id) s here
        (λ v e. replied-Accounted v p t (d.get_value s e) k here)

  -- An alert whose entry in the write-ahead log decodes leaves the log only for one of three reasons:
  -- the broker acknowledged its message, INCR has counted at least seven attempts, or the time to live
  -- that SETEX gave the entry ran out. This holds for every round of process_one, whichever command of
  -- Redis raises on the way and whenever the entry expires.
  pub process_one-Accounted :
      (p : P) (s : S) → env.loads raw ≡ some p → Accounted s → Accounted (process_one env id s).1
  unfolding process_one
  process_one-Accounted p s k (inr settled) = inr ((process_one-Settled env o id d).at s settled)
  process_one-Accounted p s k (inl stored) =
      if_both (λ (m : Exec S (Unit {0})). Accounted (m s).1) env.connected
        (env.get (pending id) >>= process_raw env id) (pure tt) (pending-Accounted p s k stored)
        (inl stored)
