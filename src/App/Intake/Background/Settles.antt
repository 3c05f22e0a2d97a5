-- ===== src/App/Intake/Background/Settles.antt =====
-- app/main.py: how the triage in the process ends.
use mathlib.Core.Path.{subst}
use cyber_security_alert_tri.Common.{
  ℕ, suc, ◌-◌, String, false, Option, none, some, List, ◌≡◌, ◌⊎◌, inl, inr, refl, ap, sym, ◌∙◌,
  arith, assoc, eq_refl,
}
use cyber_security_alert_tri.Schema.{NormalizedAlert, TriageVerdict}
use cyber_security_alert_tri.Effects.{
  Exec, Result, ok, raised, Exception, continue, ◌>>=◌, ◌>>◌, catch, handle,
}
use cyber_security_alert_tri.Pipeline.Finish.{dict_set}
use cyber_security_alert_tri.Storage.Alerts
use cyber_security_alert_tri.Storage.Alerts.{
  Job, JobStatus, running, complete, failed, Store, StoreEnv,
}
use cyber_security_alert_tri.Storage.Alerts.Refinement.{assoc-dict_set}
use cyber_security_alert_tri.App.Intake.{Intake, IntakeEnv, on_store, outside}
use cyber_security_alert_tri.App.Intake.Background.{
  received, generated, notify_triage_webhook, complete_triage, fail_triage, run_triage_background,
}

module _ {S T : Type 0} (stores : StoreEnv S T) (local : stores.enabled ≡ false) where
  set_job-local :
      (id : String) (st : JobStatus) (e : Option String) (w : Store S)
      → Alerts.set_job stores id st e w
        ≡ (ok tt, record w { jobs = dict_set id (record { status = st; error = e }) w.jobs })
  unfolding Alerts.set_job
  set_job-local id st e w = ground arith

  put_verdict-local :
      (id : String) (v : TriageVerdict) (w : Store S)
      → Alerts.put_verdict stores id v w ≡ (ok tt, record w { verdicts = dict_set id v w.verdicts })
  unfolding Alerts.put_verdict
  put_verdict-local id v w = ground arith

  get_job-local :
      (id : String) (w : Store S) → Alerts.get_job stores id w ≡ (ok (assoc id w.jobs), w)
  unfolding Alerts.get_job
  get_job-local id w = ground arith

  get_verdict-local :
      (id : String) (w : Store S) → Alerts.get_verdict stores id w ≡ (ok (assoc id w.verdicts), w)
  unfolding Alerts.get_verdict
  get_verdict-local id w = ground arith

own-dict_set :
    {V : Type 0} (k : String) (v : V) (m : List (String × V)) → assoc k (dict_set k v m) ≡ some v
own-dict_set k v m = assoc-dict_set k k v m ∙ ground (arith, eq_refl k)

module _ {S T L : Type 0} (env : IntakeEnv S T L) (local : env.app.stores.enabled ≡ false)
    (alert : NormalizedAlert) where
  abbrev stores : StoreEnv S T
  stores = env.app.stores

  abbrev job_in : Intake S L → Result (Option Job)
  job_in w = (Alerts.get_job env.app.stores alert.alert_id w.store).0

  abbrev verdict_in : Intake S L → Result (Option TriageVerdict)
  verdict_in w = (Alerts.get_verdict env.app.stores alert.alert_id w.store).0

  -- The verdict is stored and the job complete, with so many errors.
  abbrev pub Complete : ℕ → Intake S L → Type 0
  Complete n w =
      (verdict : TriageVerdict) × (verdict_in w ≡ ok (some verdict))
      × (job_in w ≡ ok (some (record { status = complete; error = none })))
      × (w.metrics.errors ≡ n)

  -- The job failed, and one more error is counted.
  abbrev pub Failed : ℕ → Intake S L → Type 0
  Failed n w =
      (e : Exception) × (job_in w
        ≡ ok (some (record { status = failed; error = some (env.describe e) })))
      × (w.metrics.errors ≡ suc n)

  abbrev pub Settled : ℕ → Result (Unit {0}) × Intake S L → Type 0
  Settled n out = (out.0 ≡ ok tt) × (Complete n out.1 ⊎ Failed n out.1)

  -- The same on the dictionaries of the process.
  abbrev Stored : ℕ → TriageVerdict → Intake S L → Type 0
  Stored n verdict w =
      (assoc alert.alert_id w.store.verdicts ≡ some verdict)
      × (assoc alert.alert_id w.store.jobs ≡ some (record { status = complete; error = none }))
      × (w.metrics.errors ≡ n)

  Stored-Complete :
      (n : ℕ) (verdict : TriageVerdict) (w : Intake S L) → Stored n verdict w → Complete n w
  Stored-Complete n verdict w h = (
    verdict,
    ap (λ o. o.0) (get_verdict-local env.app.stores local alert.alert_id w.store) ∙ ap ok h.0,
    ap (λ o. o.0) (get_job-local env.app.stores local alert.alert_id w.store) ∙ ap ok h.1,
    h.2,
  )

  -- What comes after the job is complete touches neither the dictionaries nor the errors.
  after_cost :
      (n : ℕ) (verdict : TriageVerdict) (r : Result (Unit {0})) (m : Exec S (Unit {0}))
      (w : Intake S L)
      → Stored n verdict w
      → Stored n verdict (continue r (λ _. outside {L = L} m) w).1
  after_cost n verdict (raised e) m w h = h
  after_cost n verdict (ok t) m w h = h

  -- The rest of the `try` once the verdict and the job are stored.
  abbrev accounting : ℕ → TriageVerdict → Exec (Intake S L) (Unit {0})
  accounting elapsed verdict = do
    generated env elapsed
    outside (env.record_cost alert verdict elapsed)
    outside (notify_triage_webhook env alert.alert_id verdict)

  stored : TriageVerdict → Intake S L → Intake S L
  stored verdict w = record w {
    store = record w.store {
      verdicts = dict_set alert.alert_id verdict w.store.verdicts;
      jobs = dict_set alert.alert_id (record { status = complete; error = none }) w.store.jobs;
    };
  }

  complete_triage-accounting :
      (start : ℕ) (verdict : TriageVerdict) (w : Intake S L)
      → complete_triage env alert start verdict w
        ≡ accounting (env.clock w.store.outside - start) verdict (stored verdict w)
  unfolding complete_triage stored
  complete_triage-accounting start verdict w =
      let elapsed = env.clock w.store.outside - start in
      let held = record w.store { verdicts = dict_set alert.alert_id verdict w.store.verdicts } in
      ap
        (λ o.
          continue o.0
            (λ _.
              on_store (Alerts.set_job env.app.stores alert.alert_id complete none)
              >> accounting elapsed verdict)
            (record w { store = o.1 }))
        (put_verdict-local env.app.stores local alert.alert_id verdict w.store)
      ∙ ap (λ o. continue o.0 (λ _. accounting elapsed verdict) (record w { store = o.1 }))
          (set_job-local env.app.stores local alert.alert_id complete none held)

  stored-Stored :
      (verdict : TriageVerdict) (w : Intake S L)
      → Stored w.metrics.errors verdict (stored verdict w)
  unfolding stored
  stored-Stored verdict w = (
    own-dict_set alert.alert_id verdict w.store.verdicts,
    own-dict_set alert.alert_id (record { status = complete; error = none }) w.store.jobs,
    refl,
  )

  completed :
      (start : ℕ) (verdict : TriageVerdict) (w : Intake S L)
      → Stored w.metrics.errors verdict (complete_triage env alert start verdict w).1
  completed start verdict w =
      let elapsed = env.clock w.store.outside - start in
      let v = (generated env elapsed (stored verdict w)).1 in
      subst (λ o. Stored w.metrics.errors verdict o.1)
        (sym (complete_triage-accounting start verdict w))
        (after_cost w.metrics.errors verdict
          (env.record_cost alert verdict elapsed v.store.outside).0
          (notify_triage_webhook env alert.alert_id verdict)
          (outside (env.record_cost alert verdict elapsed) v).1 (stored-Stored verdict w))

  fail-Settled :
      (n : ℕ) (e : Exception) (w : Intake S L)
      → w.metrics.errors ≡ n
      → Settled n (fail_triage env alert e w)
  fail-Settled n e w h =
      let st =
        set_job-local env.app.stores local alert.alert_id failed (some (env.describe e)) w.store in
      let job : Job = record { status = failed; error = some (env.describe e) } in
      let v = record w.store { jobs = dict_set alert.alert_id job w.store.jobs } in
      (
        ap (λ o. o.0) st,
        inr (
          e,
          ap (λ o. (Alerts.get_job env.app.stores alert.alert_id o.1).0) st
              ∙ ap (λ o. o.0) (get_job-local env.app.stores local alert.alert_id v)
              ∙ ap ok (own-dict_set alert.alert_id job w.store.jobs),
          ap suc h,
        ),
      )

  abbrev settled_by : Result (Unit {0}) → Intake S L → Result (Unit {0}) × Intake S L
  settled_by r w = handle r (fail_triage env alert) w

  tried-Settled :
      (n : ℕ) (r : Result (Unit {0})) (verdict : TriageVerdict) (w : Intake S L)
      → Stored n verdict w
      → Settled n (settled_by r w)
  tried-Settled n (ok t) verdict w h = (refl, inl (Stored-Complete n verdict w h))
  tried-Settled n (raised e) verdict w h = fail-Settled n e w h.2

  triaged-Settled :
      (n start : ℕ) (r : Result TriageVerdict) (w : Intake S L)
      → w.metrics.errors ≡ n
      → Settled n (
          settled_by
            (continue r (complete_triage env alert start) w).0
            (continue r (complete_triage env alert start) w).1)
  triaged-Settled n start (raised e) w h = fail-Settled n e w h
  triaged-Settled n start (ok verdict) w h =
      let out = complete_triage env alert start verdict w in
      tried-Settled n out.0 verdict out.1
        (subst (λ k. Stored k verdict out.1) h (completed start verdict w))

  -- With the store in the process, a triage that runs after its request always ends its job and never raises,
  -- whatever the pipeline, the cost tracker and the webhook do: the job is complete, with a verdict in the
  -- store and no more errors than before, or it has failed with the text of an exception and one error more.
  pub run_triage_background-settles :
      (w : Intake S L) → Settled w.metrics.errors (run_triage_background env alert w)
  unfolding run_triage_background
  run_triage_background-settles w =
      let start = env.clock w.store.outside in
      let w1 = (received env w).1 in
      let trying =
        catch (outside (env.triage alert) >>= complete_triage env alert start)
          (fail_triage env alert) in
      let job : Job = record { status = running; error = none } in
      let w2 = record w1 {
        store = record w.store { jobs = dict_set alert.alert_id job w.store.jobs };
      } in
      subst (λ o. Settled w.metrics.errors (continue o.0 (λ _. trying) (record w1 { store = o.1 })))
        (sym (set_job-local env.app.stores local alert.alert_id running none w.store))
        (triaged-Settled w.metrics.errors start (env.triage alert w2.store.outside).0
          (outside (env.triage alert) w2).1 refl)
