-- ===== src/Storage/Alerts/Tests.antt =====
-- services/alert_persistence.py: the store of the process, and the theorem about it.
use cyber_security_alert_tri.Common.{
  Bool, true, false, Option, none, some, List, [], ◌∷◌, ◌≡◌, refl, assoc, if◌then◌else◌,
}
use cyber_security_alert_tri.Effects.{Result, ok, raised, value_error}
use cyber_security_alert_tri.Schema.{NormalizedAlert, TriageVerdict}
use cyber_security_alert_tri.Pipeline.Finish.{dict_set}
use cyber_security_alert_tri.Storage.Alerts.{
  Job, running, complete, Key, StoreEnv, Store, get_alert, get_verdict, get_job, put_alert, set_job,
  store_sizes,
}
use cyber_security_alert_tri.Storage.Alerts.Refinement.{
  Maps, Change, alert_put, job_set, replay, run, apply, Reads, Reliable, key_eq, run-refines,
}
use cyber_security_alert_tri.Samples.{sample_alert}

-- The text of a record is the record itself.
data Text : Type 0 where
  alert_text : NormalizedAlert → Text
  verdict_text : TriageVerdict → Text
  job_text : Job → Text

abbrev read_alert_text : Text → Result NormalizedAlert
read_alert_text (alert_text a) = ok a
read_alert_text _ = raised value_error

abbrev read_verdict_text : Text → Result TriageVerdict
read_verdict_text (verdict_text v) = ok v
read_verdict_text _ = raised value_error

abbrev read_job_text : Text → Result Job
read_job_text (job_text j) = ok j
read_job_text _ = raised value_error

-- Redis as a map, or a process with no client.
abbrev redis : Bool → StoreEnv (Key → Option Text) Text
redis up = record {
  enabled = up;
  set = λ k v s. (ok tt, λ j. if key_eq k j then some v else s j);
  get = λ k s. (ok (s k), s);
  blank = λ t. false;
  print_alert = alert_text;
  read_alert = read_alert_text;
  print_verdict = verdict_text;
  read_verdict = read_verdict_text;
  print_job = job_text;
  read_job = read_job_text;
}

redis-Reliable : (up : Bool) → Reliable (redis up) (λ s k. s k)
redis-Reliable up = record {
  set_reply = λ k v s. refl;
  set_view = λ k j v s. refl;
  get_reply = λ k s. refl;
  read_print_alert = λ a. refl;
  read_print_verdict = λ v. refl;
  read_print_job = λ j. refl;
  alert_nonempty = λ a. refl;
  verdict_nonempty = λ v. refl;
  job_nonempty = λ j. refl;
}

abbrev fresh : Store (Key → Option Text)
fresh = record { alerts = []; verdicts = []; jobs = []; outside = λ k. none }

abbrev empty_maps : Maps
empty_maps = record { alerts = λ id. none; verdicts = λ id. none; jobs = λ id. none }

fresh-Reads : (up : Bool) → Reads (redis up) fresh empty_maps
unfolding get_alert get_verdict get_job assoc
fresh-Reads true = record { alert_at = λ id. refl; verdict_at = λ id. refl; job_at = λ id. refl }
fresh-Reads false = record { alert_at = λ id. refl; verdict_at = λ id. refl; job_at = λ id. refl }

abbrev calls : List Change
calls = alert_put sample_alert ∷ job_set "a-1" running none ∷ job_set "a-1" complete none ∷ []

last_status :
    (get_job (redis true) "a-1" (run (redis true) calls fresh)).0
    ≡ ok (some (record { status = complete; error = none }))
unfolding get_job run apply put_alert set_job dict_set assoc
last_status = refl

one_alert : store_sizes (redis false) (run (redis false) calls fresh) ≡ some (0, 1)
unfolding store_sizes run apply put_alert set_job dict_set
one_alert = refl

run-refines_example : Reads (redis true) (run (redis true) calls fresh) (replay calls empty_maps)
run-refines_example =
    run-refines (redis true) (λ s k. s k) (redis-Reliable true) calls fresh empty_maps
      (fresh-Reads true)
