-- ===== src/Runtime/Worker/Settlement.antt =====
-- services/_runtime/triage_worker.py: settlements and events as they can be seen, and the rule for
-- what the handler of a message keeps.
use cyber_security_alert_tri.Common.{
  ℕ, suc, String, Bool, true, false, Option, none, some, List, [], ◌∷◌, ◌++◌, ◌≡◌,
}
use cyber_security_alert_tri.Effects.{
  Exec, ok, pure, raise, ◌>>=◌, ◌>>◌, Preserves, Preserves-pure, Preserves-raise, Preserves-bind,
  Preserves-catch, bind_at,
}
use cyber_security_alert_tri.Schema.{NormalizedAlert}
use cyber_security_alert_tri.Runtime.Tenant.{AuthContext}
use cyber_security_alert_tri.Runtime.Worker.{
  WorkerEnv, PhaseEvent, parse_alert, publish_for, publish_phase, triage, process_alert,
  unless_cancelled, handle_message, note_cancel,
}

-- How a message is settled with the stream.
pub data Settlement : Type 0 where
  acked nacked terminated : Settlement

-- What can be seen of a state: the settlements asked for, the events published, the free permits.
pub record Observe (S : Type 0) : Type 0 where
  pub settlements : S → List Settlement
  pub events : S → List PhaseEvent
  pub permits : S → ℕ

module _ {S B : Type 0} (env : WorkerEnv S B) (o : Observe S) where
  abbrev pub Untouched : (S → S) → Type 0
  Untouched f = (s : S) → (o.settlements (f s) ≡ o.settlements s) × (o.events (f s) ≡ o.events s)

  -- Documented behaviour: an acknowledgement is recorded even where its reply fails, a publish is
  -- recorded, and nothing else settles or publishes.
  pub record Documented : Type 0 where
    pub verify_only : (token : String) → Untouched (λ s. (env.verify token s).1)
    pub next_seq_only : (id : String) → Untouched (λ s. (env.next_seq id s).1)
    pub is_cancelled_only : (id : String) → Untouched (λ s. (env.is_cancelled id s).1)
    pub get_checkpointer_only : (t : Option String) → Untouched (λ s. (env.get_checkpointer t s).1)
    pub run_triage_only : (alert : NormalizedAlert) → Untouched (λ s. (env.run_triage alert s).1)
    pub publish_event : (e : PhaseEvent) (s : S) → o.events (env.publish e s) ≡ o.events s ++ e ∷ []
    pub publish_settlements :
        (e : PhaseEvent) (s : S) → o.settlements (env.publish e s) ≡ o.settlements s
    pub ack_lem : (s : S) → o.settlements (env.ack s).1 ≡ o.settlements s ++ acked ∷ []
    pub nak_lem : (s : S) → o.settlements (env.nak s).1 ≡ o.settlements s ++ nacked ∷ []
    pub term_lem : (s : S) → o.settlements (env.term s).1 ≡ o.settlements s ++ terminated ∷ []
    pub release_lem :
        (s : S)
        → (o.settlements (env.release s) ≡ o.settlements s)
          × (o.permits (env.release s) ≡ suc (o.permits s))

module _ {S B : Type 0} (env : WorkerEnv S B) (o : Observe S) (d : Documented env o)
    (P : S → Type 0)
    (stays : (s t : S)
      → o.settlements t ≡ o.settlements s
      → o.events t ≡ o.events s
      → P s
      → P t) where
  only : {A : Type 0} (m : Exec S A) → Untouched env o (λ s. (m s).1) → Preserves P m
  only m u = record { at = λ s h. stays s (m s).1 (u s).0 (u s).1 h }

  -- A property that only the settlements and the events decide is kept by the whole handler, where
  -- publishing for the alert keeps it.
  module _ (body : B) (token : String)
      (publishing : (auth : AuthContext) (alert : NormalizedAlert) (phase : String) (s t : S)
        → (env.verify token s).0 ≡ ok auth
        → parse_alert env body auth ≡ ok alert
        → P t
        → P (publish_for env alert.tenant_id alert phase t)) where
    abbrev Publishes : NormalizedAlert → Type 0
    Publishes alert = (phase : String) → Preserves P (publish_phase env alert phase)

    triage-Preserves : (alert : NormalizedAlert) → Publishes alert → Preserves P (triage env alert)
    unfolding triage
    triage-Preserves alert p =
        Preserves-catch (env.run_triage alert) (λ e. publish_phase env alert "failed" >> raise e)
          (only (env.run_triage alert) (d.run_triage_only alert))
          (λ e.
            Preserves-bind (publish_phase env alert "failed") (λ _. raise e) (p "failed")
              (λ _. Preserves-raise e))

    polled-Preserves :
        (id : String) → Preserves P (λ s. (ok (env.is_cancelled id s).0, (env.is_cancelled id s).1))
    polled-Preserves id =
        only (λ s. (ok (env.is_cancelled id s).0, (env.is_cancelled id s).1))
          (d.is_cancelled_only id)

    process_alert-Preserves :
        (auth : AuthContext) (alert : NormalizedAlert)
        → Publishes alert
        → Preserves P (process_alert env auth alert)
    unfolding process_alert
    process_alert-Preserves auth alert p =
        Preserves-bind (env.get_checkpointer auth.tenant_id)
          (λ _. do
            verdict ← triage env alert
            late ← λ s.
                (ok (env.is_cancelled alert.alert_id s).0, (env.is_cancelled alert.alert_id s).1)
            publish_phase env alert "done"
            pure (record verdict { status = note_cancel verdict.status late }))
          (only (env.get_checkpointer auth.tenant_id) (d.get_checkpointer_only auth.tenant_id))
          (λ _.
            Preserves-bind (triage env alert)
              (λ verdict. do
                late ← λ s. (
                  ok (env.is_cancelled alert.alert_id s).0,
                  (env.is_cancelled alert.alert_id s).1,
                )
                publish_phase env alert "done"
                pure (record verdict { status = note_cancel verdict.status late }))
              (triage-Preserves alert p)
              (λ verdict.
                Preserves-bind
                  (λ s. (
                    ok (env.is_cancelled alert.alert_id s).0,
                    (env.is_cancelled alert.alert_id s).1,
                  ))
                  (λ late. do
                    publish_phase env alert "done"
                    pure (record verdict { status = note_cancel verdict.status late }))
                  (polled-Preserves alert.alert_id)
                  (λ late.
                    Preserves-bind (publish_phase env alert "done")
                      (λ _. pure (record verdict { status = note_cancel verdict.status late }))
                      (p "done")
                      (λ _.
                        Preserves-pure
                          (record verdict { status = note_cancel verdict.status late })))))

    unless_cancelled-Preserves :
        (b : Bool) (auth : AuthContext) (alert : NormalizedAlert)
        → Publishes alert
        → Preserves P (unless_cancelled env b auth alert)
    unless_cancelled-Preserves true auth alert p =
        Preserves-bind (publish_phase env alert "cancelled") (λ _. pure none) (p "cancelled")
          (λ _. Preserves-pure none)
    unless_cancelled-Preserves false auth alert p =
        Preserves-bind (process_alert env auth alert) (λ v. pure (some v))
          (process_alert-Preserves auth alert p) (λ v. Preserves-pure (some v))

    after_parse :
        (auth : AuthContext) (alert : NormalizedAlert) (t : S)
        → Publishes alert
        → P t
        → P
            ((publish_phase env alert "queued"
                >> ((λ s. (
                  ok (env.is_cancelled alert.alert_id s).0,
                  (env.is_cancelled alert.alert_id s).1,
                ))
                    >>= λ early. unless_cancelled env early auth alert))
              t).1
    after_parse auth alert t p h =
        (Preserves-bind (publish_phase env alert "queued")
            (λ _.
              (λ s.
                (ok (env.is_cancelled alert.alert_id s).0, (env.is_cancelled alert.alert_id s).1))
              >>= λ early. unless_cancelled env early auth alert)
            (p "queued")
            (λ _.
              Preserves-bind
                (λ s.
                  (ok (env.is_cancelled alert.alert_id s).0, (env.is_cancelled alert.alert_id s).1))
                (λ early. unless_cancelled env early auth alert) (polled-Preserves alert.alert_id)
                (λ early. unless_cancelled-Preserves early auth alert p))).at
          t h

    pub handle_message-Preserves : Preserves P (handle_message env body token)
    unfolding handle_message
    handle_message-Preserves = record {
      at = λ s h.
          let s1 = (env.verify token s).1 in
          let h1 = (only (env.verify token) (d.verify_only token)).at s h in
          bind_at P (env.verify token)
            (λ auth. do
              alert ← λ t. (parse_alert env body auth, t)
              publish_phase env alert "queued"
              early ← λ t.
                  (ok (env.is_cancelled alert.alert_id t).0, (env.is_cancelled alert.alert_id t).1)
              unless_cancelled env early auth alert)
            s h1
            (λ auth verified.
              bind_at P (λ (t : S). (parse_alert env body auth, t))
                (λ alert. do
                  publish_phase env alert "queued"
                  early ← λ t. (
                    ok (env.is_cancelled alert.alert_id t).0,
                    (env.is_cancelled alert.alert_id t).1,
                  )
                  unless_cancelled env early auth alert)
                s1 h1
                (λ alert parsed.
                  after_parse auth alert s1
                    (unfold publish_phase in
                      λ phase. record {
                        at = λ t k. publishing auth alert phase s t verified parsed k;
                      })
                    h1));
    }
