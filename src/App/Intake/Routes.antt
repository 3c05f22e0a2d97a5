-- ===== src/App/Intake/Routes.antt =====
-- app/main.py: where an accepted alert goes.
use cyber_security_alert_tri.Common.{
  Bool, true, false, ◌&&◌, List, [], ◌∷◌, ◌++◌, ◌≡◌, refl, arith, if◌then◌else◌,
}
use cyber_security_alert_tri.Schema.{NormalizedAlert}
use cyber_security_alert_tri.Effects.{Exec, Result, ok, pure, ◌>>=◌, catch}
use cyber_security_alert_tri.Runtime.Glue.{enqueue_via_nats}
use cyber_security_alert_tri.Runtime.Glue.Durable.{enqueue_via_nats-reply}
use cyber_security_alert_tri.App.Intake.{
  Intake, IntakeEnv, outside, add_task, unless_enqueued, dispatch_triage,
}

module _ {S T L : Type 0} (env : IntakeEnv S T L) where
  abbrev Routed :
      NormalizedAlert → List NormalizedAlert → Bool → Result (Unit {0}) × Intake S L → Type 0
  Routed alert tasks b (r, w) =
      (r ≡ ok tt) × (w.tasks ≡ (if b then tasks else tasks ++ (alert ∷ [])))

  enqueued-Routed :
      (wired : Bool) (m : Exec (Intake S L) Bool) (alert : NormalizedAlert) (w : Intake S L)
      → (m w).0 ≡ ok wired
      → (m w).1.tasks ≡ w.tasks
      → Routed alert w.tasks wired ((catch m (λ _. pure false) >>= unless_enqueued env alert) w)
  enqueued-Routed true m alert w h k = ground arith
  enqueued-Routed false m alert w h k = ground arith

  flag-Routed :
      (b wired : Bool) (m : Exec (Intake S L) Bool) (alert : NormalizedAlert) (w : Intake S L)
      → (m w).0 ≡ ok wired
      → (m w).1.tasks ≡ w.tasks
      → Routed alert w.tasks (b && wired) (
          (if b
              then catch m (λ _. pure false) >>= unless_enqueued env alert
              else add_task env alert)
            w)
  flag-Routed true wired m alert w h k = enqueued-Routed wired m alert w h k
  flag-Routed false wired m alert w h k = (refl, refl)

  pub dispatch_triage-routes :
      (alert : NormalizedAlert) (w : Intake S L)
      → ((dispatch_triage env alert w).0 ≡ ok tt)
        × ((dispatch_triage env alert w).1.tasks ≡ (
            if env.app.ingest_via_nats && env.app.glue.wired
            then w.tasks
            else w.tasks ++ (alert ∷ [])))
  unfolding dispatch_triage
  dispatch_triage-routes alert w =
      flag-Routed env.app.ingest_via_nats env.app.glue.wired
        (outside (enqueue_via_nats env.app.glue alert)) alert w
        (enqueue_via_nats-reply env.app.glue alert w.store.outside).0 refl
