-- ===== src/Runtime/Reconciler/Settled.antt =====
-- services/_runtime/ingest_reconciler.py: alerts that were acknowledged, given up after seven counts,
-- or whose entry outlived its time.
use cyber_security_alert_tri.Common.{
  ℕ, ◌+◌, ◌-◌, ◌≤◌, String, Bool, true, false, Option, none, some, List, [], ◌∷◌, ◌≡◌, refl, ◌⊎◌,
  arith, ◌==◌, leb, length, if◌then◌else◌,
}
use cyber_security_alert_tri.Effects.{
  Exec, ok, pure, ◌>>=◌, ◌>>◌, quietly, Preserves, Preserves-pure, Preserves-if, Preserves-bind,
  Preserves-quietly, bind_at,
}
use cyber_security_alert_tri.Runtime.Reconciler.{
  ReconcilerEnv, Key, pending, lease, attempts, next, backoff_seconds, clean_up, mark_published,
  increment_attempts, send_to_dlq, move_to_dlq, lift, publish_failed, after_publish,
  publish_pending, process_payload, process_decoded, process_raw, process_one, delay_at, too_early,
}
use cyber_security_alert_tri.Runtime.Reconciler.Laws.{Observe, Grows, Documented}

module _ {S P : Type 0} (env : ReconcilerEnv S P) (o : Observe S) (id : String)
    (d : Documented env o id) where
  -- The alert was acknowledged, or seven attempts were counted, or its entry's time to live ran out.
  abbrev pub Settled : S → Type 0
  Settled s = (o.acked s id ≡ true) ⊎ ((7 ≤ o.counted s id) ⊎ (o.expired s id ≡ true))

  pub Grows-Settled : {A : Type 0} (m : Exec S A) → Grows env o id m → Preserves Settled m
  Grows-Settled m g = record { at = λ s h. ground (arith, g s) }

  pub clean_up-Settled : (ks : List Key) → Preserves Settled (clean_up env ks)
  unfolding clean_up
  clean_up-Settled ks =
      Preserves-if env.connected (quietly (env.delete ks)) (pure tt)
        (λ _. Preserves-quietly (env.delete ks) (Grows-Settled (env.delete ks) (d.delete_grows ks)))
        (λ _. Preserves-pure tt)

  pub mark_published-Settled : Preserves Settled (mark_published env id)
  unfolding mark_published
  mark_published-Settled = clean_up-Settled (pending id ∷ lease id ∷ attempts id ∷ [])

  pub send_to_dlq-Settled :
      (f : Option (String → P → String → Exec S (Unit {0}))) (p : P) (reason : String)
      → env.dlq ≡ f
      → Preserves Settled (send_to_dlq env f id p reason)
  send_to_dlq-Settled none p reason h = Preserves-pure tt
  send_to_dlq-Settled (some f) p reason h =
      Preserves-quietly (f id p reason) (Grows-Settled (f id p reason) (d.dlq_grows f p reason h))

  pub move_to_dlq-Settled :
      (p : P) (reason : String) → Preserves Settled (move_to_dlq env id p reason)
  unfolding move_to_dlq
  move_to_dlq-Settled p reason =
      Preserves-bind (send_to_dlq env env.dlq id p reason)
        (λ _. clean_up env (pending id ∷ attempts id ∷ next id ∷ []))
        (send_to_dlq-Settled env.dlq p reason refl)
        (λ _. clean_up-Settled (pending id ∷ attempts id ∷ next id ∷ []))

  pub give_up-Settled :
      (p : P) (b : Bool)
      → Preserves Settled (if b then move_to_dlq env id p "max_retries_exhausted" else pure tt)
  give_up-Settled p b =
      Preserves-if b (move_to_dlq env id p "max_retries_exhausted") (pure tt)
        (λ _. move_to_dlq-Settled p "max_retries_exhausted") (λ _. Preserves-pure tt)

  pub schedule-Settled :
      (p : P) (tries t : ℕ)
      → Preserves Settled (
          env.setex
            (next id)
            env.max_age
            (env.print_time (t + delay_at (tries - 1) backoff_seconds))
          >> (if leb (length backoff_seconds) tries
              then move_to_dlq env id p "max_retries_exhausted"
              else pure tt))
  schedule-Settled p tries t =
      let v = env.print_time (t + delay_at (tries - 1) backoff_seconds) in
      Preserves-bind (env.setex (next id) env.max_age v)
        (λ _.
          if leb (length backoff_seconds) tries
          then move_to_dlq env id p "max_retries_exhausted"
          else pure tt)
        (Grows-Settled (env.setex (next id) env.max_age v) (d.setex_grows (next id) env.max_age v))
        (λ _. give_up-Settled p (leb (length backoff_seconds) tries))

  pub publish_failed-Settled :
      (p : P) (tries : ℕ) → Preserves Settled (publish_failed env id p tries)
  unfolding publish_failed
  publish_failed-Settled p tries = record {
    at = λ s h. (schedule-Settled p tries (env.now s)).at s h;
  }

  pub after_publish-Settled :
      (p : P) (tries : ℕ) (b : Bool) → Preserves Settled (after_publish env id p tries b)
  after_publish-Settled p tries true = mark_published-Settled
  after_publish-Settled p tries false = publish_failed-Settled p tries

  pub publish_pending-Settled :
      (p : P) (tries : ℕ) → Preserves Settled (publish_pending env id p tries)
  unfolding publish_pending
  publish_pending-Settled p tries = record {
    at = λ s h.
        bind_at Settled (lift env (env.subject_for p))
          (λ subject.
            (λ u. (
              ok (env.publish subject (env.dumps p) id u).0,
              (env.publish subject (env.dumps p) id u).1,
            ))
            >>= after_publish env id p tries)
          s h
          (λ subject _.
            (after_publish-Settled p tries (env.publish subject (env.dumps p) id s).0).at
              (env.publish subject (env.dumps p) id s).1
              ((Grows-Settled
                  (λ u. (
                    ok (env.publish subject (env.dumps p) id u).0,
                    (env.publish subject (env.dumps p) id u).1,
                  ))
                  (d.publish_grows subject (env.dumps p) id)).at
                s h));
  }

  pub increment-Grows : Grows env o id (increment_attempts env id)
  unfolding increment_attempts
  increment-Grows s = ground (
    arith,
    d.incr_grows (attempts id) s,
    d.expire_grows (attempts id) env.max_age (env.incr (attempts id) s).1,
  )

  -- The part of `process_payload` after the attempts are counted.
  abbrev pub after_count : P → ℕ → Exec S (Unit {0})
  after_count p tries = do
    next_after ← env.get (next id)
    early ← λ s. (too_early env (env.now s) next_after, s)
    if early then pure tt else publish_pending env id p tries

  pub early-Preserves :
      (Q : S → Type 0) (p : P) (tries : ℕ) (u : Option String)
      → Preserves Q (publish_pending env id p tries)
      → Preserves Q (
          (λ s. (too_early env (env.now s) u, s)) >>= λ early.
          if early then pure tt else publish_pending env id p tries)
  early-Preserves Q p tries u k = record {
    at = λ s h.
        bind_at Q (λ (t : S). (too_early env (env.now t) u, t))
          (λ early. if early then pure tt else publish_pending env id p tries) s h
          (λ early _.
            (Preserves-if early (pure tt) (publish_pending env id p tries) (λ _. Preserves-pure tt)
                (λ _. k)).at
              s h);
  }

  pub after_count-Settled : (p : P) (tries : ℕ) → Preserves Settled (after_count p tries)
  after_count-Settled p tries =
      Preserves-bind (env.get (next id))
        (λ u. (λ s. (too_early env (env.now s) u, s)) >>= λ early.
          if early then pure tt else publish_pending env id p tries)
        (Grows-Settled (env.get (next id)) (d.get_grows (next id)))
        (λ u. early-Preserves Settled p tries u (publish_pending-Settled p tries))

  pub process_payload-Settled : (p : P) → Preserves Settled (process_payload env id p)
  unfolding process_payload
  process_payload-Settled p =
      Preserves-bind (increment_attempts env id) (after_count p)
        (Grows-Settled (increment_attempts env id) increment-Grows) (λ n. after_count-Settled p n)

  pub process_decoded-Settled : (l : Option P) → Preserves Settled (process_decoded env id l)
  process_decoded-Settled none =
      Grows-Settled (env.delete (pending id ∷ [])) (d.delete_grows (pending id ∷ []))
  process_decoded-Settled (some p) = process_payload-Settled p

  pub process_raw-Settled : (r : Option String) → Preserves Settled (process_raw env id r)
  process_raw-Settled none = Preserves-pure tt
  process_raw-Settled (some u) =
      Preserves-if (u == "") (pure tt) (process_decoded env id (env.loads u))
        (λ _. Preserves-pure tt) (λ _. process_decoded-Settled (env.loads u))

  pub process_one-Settled : Preserves Settled (process_one env id)
  unfolding process_one
  process_one-Settled =
      Preserves-if env.connected (env.get (pending id) >>= process_raw env id) (pure tt)
        (λ _.
          Preserves-bind (env.get (pending id)) (process_raw env id)
            (Grows-Settled (env.get (pending id)) (d.get_grows (pending id))) process_raw-Settled)
        (λ _. Preserves-pure tt)
