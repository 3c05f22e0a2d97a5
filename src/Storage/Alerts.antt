-- ===== src/Storage/Alerts.antt =====
-- services/alert_persistence.py: alerts, verdicts and jobs, in Redis or in dictionaries of the process.
pub mod Refinement
mod Tests
use cyber_security_alert_tri.Common.{
  ℕ, zero, suc, String, Bool, true, false, Option, none, some, List, [], ◌∷◌, ◌==◌, assoc, length,
  if◌then◌else◌,
}
use cyber_security_alert_tri.Effects.{Exec, Result, ok, raised, ◌>>=◌, ◌>>◌, continue, pure}
use cyber_security_alert_tri.Schema.{NormalizedAlert, TriageVerdict}
use cyber_security_alert_tri.Pipeline.Finish.{dict_set}

-- `JobStatus`
pub data JobStatus : Type 0 where
  queued running complete failed : JobStatus

-- The record of a job.
pub record Job : Type 0 where
  pub status : JobStatus
  pub error : Option String

-- `f"{KEY_ALERT}{id}"`, `f"{KEY_VERDICT}{id}"` and `f"{KEY_JOB}{id}"`; the three prefixes differ.
pub data Key : Type 0 where
  alert_key verdict_key job_key : String → Key

-- The Redis client, whose calls may raise, and the texts of the records, of type `T`: `blank` is the
-- empty one. `enabled` is whether there is a client.
pub record StoreEnv (S T : Type 0) : Type 0 where
  pub enabled : Bool
  pub set : Key → T → Exec S (Unit {0})
  pub get : Key → Exec S (Option T)
  pub blank : T → Bool
  pub print_alert : NormalizedAlert → T
  pub read_alert : T → Result NormalizedAlert
  pub print_verdict : TriageVerdict → T
  pub read_verdict : T → Result TriageVerdict
  pub print_job : Job → T
  pub read_job : T → Result Job

-- The dictionaries of the process, and what is outside it.
pub record Store (S : Type 0) : Type 0 where
  pub alerts : List (String × NormalizedAlert)
  pub verdicts : List (String × TriageVerdict)
  pub jobs : List (String × Job)
  pub outside : S

-- A call of the client.
abbrev pub call {ℓ} : {S : Type 0} {A : Type ℓ} → Exec S A → Exec (Store S) A
call m w = ((m w.outside).0, record w { outside = (m w.outside).1 })

-- `None if not raw else parse(raw)`
abbrev pub read_with : {T V : Type 0} → (T → Bool) → (T → Result V) → Option T → Result (Option V)
read_with blank read none = ok none
read_with blank read (some raw) =
    if blank raw then ok none else elim (read raw) [ ok v ↦ ok (some v) | raised e ↦ raised e ]

module _ {S T : Type 0} (env : StoreEnv S T) where
  -- The reading half of the three getters.
  abbrev pub fetch : {V : Type 0} → Key → (T → Result V) → Exec (Store S) (Option V)
  fetch key read = call (env.get key) >>= λ raw w. (read_with env.blank read raw, w)

  -- `put_alert`
  unfoldable pub put_alert : NormalizedAlert → Exec (Store S) (Unit {0})
  put_alert alert w =
      if env.enabled
      then call (env.set (alert_key alert.alert_id) (env.print_alert alert)) w
      else (ok tt, record w { alerts = dict_set alert.alert_id alert w.alerts })

  -- `get_alert`
  unfoldable pub get_alert : String → Exec (Store S) (Option NormalizedAlert)
  get_alert id w =
      if env.enabled then fetch (alert_key id) env.read_alert w else (ok (assoc id w.alerts), w)

  -- `put_verdict`
  unfoldable pub put_verdict : String → TriageVerdict → Exec (Store S) (Unit {0})
  put_verdict id verdict w =
      if env.enabled
      then call (env.set (verdict_key id) (env.print_verdict verdict)) w
      else (ok tt, record w { verdicts = dict_set id verdict w.verdicts })

  -- `get_verdict`
  unfoldable pub get_verdict : String → Exec (Store S) (Option TriageVerdict)
  get_verdict id w =
      if env.enabled
      then fetch (verdict_key id) env.read_verdict w
      else (ok (assoc id w.verdicts), w)

  -- `set_job`
  unfoldable pub set_job : String → JobStatus → Option String → Exec (Store S) (Unit {0})
  set_job id status error w =
      let rec : Job = record { status = status; error = error } in
      if env.enabled
      then call (env.set (job_key id) (env.print_job rec)) w
      else (ok tt, record w { jobs = dict_set id rec w.jobs })

  -- `get_job`
  unfoldable pub get_job : String → Exec (Store S) (Option Job)
  get_job id w =
      if env.enabled then fetch (job_key id) env.read_job w else (ok (assoc id w.jobs), w)

  -- The counts of `store_sizes`, of verdicts and alerts; `none` is the -1 of the Redis mode.
  pub store_sizes : Store S → Option (ℕ × ℕ)
  store_sizes w = if env.enabled then none else some (length w.verdicts, length w.alerts)
