-- ===== src/Storage/Alerts/Refinement.antt =====
-- services/alert_persistence.py: both modes of the store, seen as three maps.
use cyber_security_alert_tri.Common.{
  String, Bool, false, Option, some, List, [], ◌∷◌, ◌≡◌, refl, ◌∙◌, sym, arith, ◌==◌, assoc, eq_iff,
  if◌then◌else◌,
}
use cyber_security_alert_tri.Effects.{Result, ok}
use cyber_security_alert_tri.Schema.{NormalizedAlert, TriageVerdict}
use cyber_security_alert_tri.Pipeline.Finish.{dict_set}
use cyber_security_alert_tri.Storage.Alerts.{
  Job, JobStatus, Key, alert_key, verdict_key, job_key, StoreEnv, Store, read_with, put_alert,
  get_alert, put_verdict, get_verdict, set_job, get_job,
}

-- What the store promises: a map of alerts, one of verdicts and one of jobs.
pub record Maps : Type 0 where
  pub alerts : String → Option NormalizedAlert
  pub verdicts : String → Option TriageVerdict
  pub jobs : String → Option Job

abbrev pub update : {V : Type 0} → String → V → (String → Option V) → String → Option V
update k v f j = if k == j then some v else f j

-- The calls that change the store.
pub data Change : Type 0 where
  alert_put : NormalizedAlert → Change
  verdict_put : String → TriageVerdict → Change
  job_set : String → JobStatus → Option String → Change

pub replay : List Change → Maps → Maps
replay [] m = m
replay (alert_put a ∷ cs) m = replay cs (record m { alerts = update a.alert_id a m.alerts })
replay (verdict_put id v ∷ cs) m = replay cs (record m { verdicts = update id v m.verdicts })
replay (job_set id st e ∷ cs) m =
    replay cs (record m { jobs = update id (record { status = st; error = e }) m.jobs })

abbrev pub key_eq : Key → Key → Bool
key_eq (alert_key a) (alert_key b) = a == b
key_eq (verdict_key a) (verdict_key b) = a == b
key_eq (job_key a) (job_key b) = a == b
key_eq _ _ = false

-- Documented behaviour of Redis where no call fails, for the values that can be seen of a state, and the
-- round trips of pydantic and `json`; no printed record is empty.
pub record Reliable {S T : Type 0} (env : StoreEnv S T) (view : S → Key → Option T) : Type 0 where
  pub set_reply : (k : Key) (v : T) (s : S) → (env.set k v s).0 ≡ ok tt
  pub set_view :
      (k j : Key) (v : T) (s : S)
      → view (env.set k v s).1 j ≡ (if key_eq k j then some v else view s j)
  pub get_reply : (k : Key) (s : S) → (env.get k s).0 ≡ ok (view s k)
  pub read_print_alert : (a : NormalizedAlert) → env.read_alert (env.print_alert a) ≡ ok a
  pub read_print_verdict : (v : TriageVerdict) → env.read_verdict (env.print_verdict v) ≡ ok v
  pub read_print_job : (j : Job) → env.read_job (env.print_job j) ≡ ok j
  pub alert_nonempty : (a : NormalizedAlert) → env.blank (env.print_alert a) ≡ false
  pub verdict_nonempty : (v : TriageVerdict) → env.blank (env.print_verdict v) ≡ false
  pub job_nonempty : (j : Job) → env.blank (env.print_job j) ≡ false

pub assoc-dict_set :
    {V : Type 0} (k j : String) (v : V) (m : List (String × V))
    → assoc j (dict_set k v m) ≡ update k v (λ i. assoc i m) j
unfolding assoc dict_set
assoc-dict_set k j v [] = refl
assoc-dict_set k j v ((i, u) ∷ m) =
    ground (arith, assoc-dict_set k j v m, eq_iff i k, eq_iff i j, eq_iff k j)

module _ {S T : Type 0} (env : StoreEnv S T) where
  unfoldable pub apply : Change → Store S → Store S
  apply (alert_put a) w = (put_alert env a w).1
  apply (verdict_put id v) w = (put_verdict env id v w).1
  apply (job_set id st e) w = (set_job env id st e w).1

  unfoldable pub run : List Change → Store S → Store S
  run [] w = w
  run (c ∷ cs) w = run cs (apply c w)

  -- The three getters answer what the maps hold.
  pub record Reads (w : Store S) (m : Maps) : Type 0 where
    pub alert_at : (id : String) → (get_alert env id w).0 ≡ ok (m.alerts id)
    pub verdict_at : (id : String) → (get_verdict env id w).0 ≡ ok (m.verdicts id)
    pub job_at : (id : String) → (get_job env id w).0 ≡ ok (m.jobs id)

module _ {S T : Type 0} (env : StoreEnv S T) (view : S → Key → Option T)
    (r : Reliable env view) where
  alert_seen : Store S → String → Result (Option NormalizedAlert)
  alert_seen w id =
      if env.enabled
      then read_with env.blank env.read_alert (view w.outside (alert_key id))
      else ok (assoc id w.alerts)

  verdict_seen : Store S → String → Result (Option TriageVerdict)
  verdict_seen w id =
      if env.enabled
      then read_with env.blank env.read_verdict (view w.outside (verdict_key id))
      else ok (assoc id w.verdicts)

  job_seen : Store S → String → Result (Option Job)
  job_seen w id =
      if env.enabled
      then read_with env.blank env.read_job (view w.outside (job_key id))
      else ok (assoc id w.jobs)

  get_alert-seen : (id : String) (w : Store S) → (get_alert env id w).0 ≡ alert_seen w id
  unfolding get_alert alert_seen
  get_alert-seen id w = ground (arith, r.get_reply (alert_key id) w.outside)

  get_verdict-seen : (id : String) (w : Store S) → (get_verdict env id w).0 ≡ verdict_seen w id
  unfolding get_verdict verdict_seen
  get_verdict-seen id w = ground (arith, r.get_reply (verdict_key id) w.outside)

  get_job-seen : (id : String) (w : Store S) → (get_job env id w).0 ≡ job_seen w id
  unfolding get_job job_seen
  get_job-seen id w = ground (arith, r.get_reply (job_key id) w.outside)

  put_alert-seen :
      (a : NormalizedAlert) (id : String) (w : Store S)
      → (alert_seen (put_alert env a w).1 id
          ≡ (if a.alert_id == id then ok (some a) else alert_seen w id))
        × (verdict_seen (put_alert env a w).1 id ≡ verdict_seen w id)
        × (job_seen (put_alert env a w).1 id ≡ job_seen w id)
  unfolding put_alert alert_seen verdict_seen job_seen
  put_alert-seen a id w =
      let k = alert_key a.alert_id in
      let v = env.print_alert a in
      (
        ground (
          arith,
          r.set_view k (alert_key id) v w.outside,
          r.read_print_alert a,
          r.alert_nonempty a,
          assoc-dict_set a.alert_id id a w.alerts,
        ),
        ground (arith, r.set_view k (verdict_key id) v w.outside),
        ground (arith, r.set_view k (job_key id) v w.outside),
      )

  put_verdict-seen :
      (k : String) (v : TriageVerdict) (id : String) (w : Store S)
      → (alert_seen (put_verdict env k v w).1 id ≡ alert_seen w id)
        × (verdict_seen (put_verdict env k v w).1 id
            ≡ (if k == id then ok (some v) else verdict_seen w id))
        × (job_seen (put_verdict env k v w).1 id ≡ job_seen w id)
  unfolding put_verdict alert_seen verdict_seen job_seen
  put_verdict-seen k v id w =
      let t = env.print_verdict v in
      (
        ground (arith, r.set_view (verdict_key k) (alert_key id) t w.outside),
        ground (
          arith,
          r.set_view (verdict_key k) (verdict_key id) t w.outside,
          r.read_print_verdict v,
          r.verdict_nonempty v,
          assoc-dict_set k id v w.verdicts,
        ),
        ground (arith, r.set_view (verdict_key k) (job_key id) t w.outside),
      )

  set_job-seen :
      (k : String) (st : JobStatus) (e : Option String) (id : String) (w : Store S)
      → (alert_seen (set_job env k st e w).1 id ≡ alert_seen w id)
        × (verdict_seen (set_job env k st e w).1 id ≡ verdict_seen w id)
        × (job_seen (set_job env k st e w).1 id
            ≡ (if k == id then ok (some (record { status = st; error = e })) else job_seen w id))
  unfolding set_job alert_seen verdict_seen job_seen
  set_job-seen k st e id w =
      let j : Job = record { status = st; error = e } in
      let t = env.print_job j in
      (
        ground (arith, r.set_view (job_key k) (alert_key id) t w.outside),
        ground (arith, r.set_view (job_key k) (verdict_key id) t w.outside),
        ground (
          arith,
          r.set_view (job_key k) (job_key id) t w.outside,
          r.read_print_job j,
          r.job_nonempty j,
          assoc-dict_set k id j w.jobs,
        ),
      )

  record Seen (w : Store S) (m : Maps) : Type 0 where
    alert_at : (id : String) → alert_seen w id ≡ ok (m.alerts id)
    verdict_at : (id : String) → verdict_seen w id ≡ ok (m.verdicts id)
    job_at : (id : String) → job_seen w id ≡ ok (m.jobs id)

  Reads-Seen : (w : Store S) (m : Maps) → Reads env w m → Seen w m
  Reads-Seen w m h = record {
    alert_at = λ id. sym (get_alert-seen id w) ∙ h.alert_at id;
    verdict_at = λ id. sym (get_verdict-seen id w) ∙ h.verdict_at id;
    job_at = λ id. sym (get_job-seen id w) ∙ h.job_at id;
  }

  Seen-Reads : (w : Store S) (m : Maps) → Seen w m → Reads env w m
  Seen-Reads w m h = record {
    alert_at = λ id. get_alert-seen id w ∙ h.alert_at id;
    verdict_at = λ id. get_verdict-seen id w ∙ h.verdict_at id;
    job_at = λ id. get_job-seen id w ∙ h.job_at id;
  }

  replay-Seen :
      (cs : List Change) (w : Store S) (m : Maps) → Seen w m → Seen (run env cs w) (replay cs m)
  unfolding run apply replay
  replay-Seen [] w m h = h
  replay-Seen (alert_put a ∷ cs) w m h =
      replay-Seen cs (put_alert env a w).1 (record m { alerts = update a.alert_id a m.alerts })
        (record {
          alert_at = λ id. ground (arith, put_alert-seen a id w, h.alert_at id);
          verdict_at = λ id. (put_alert-seen a id w).1 ∙ h.verdict_at id;
          job_at = λ id. (put_alert-seen a id w).2 ∙ h.job_at id;
        })
  replay-Seen (verdict_put k v ∷ cs) w m h =
      replay-Seen cs (put_verdict env k v w).1 (record m { verdicts = update k v m.verdicts })
        (record {
          alert_at = λ id. (put_verdict-seen k v id w).0 ∙ h.alert_at id;
          verdict_at = λ id. ground (arith, put_verdict-seen k v id w, h.verdict_at id);
          job_at = λ id. (put_verdict-seen k v id w).2 ∙ h.job_at id;
        })
  replay-Seen (job_set k st e ∷ cs) w m h =
      replay-Seen cs (set_job env k st e w).1
        (record m { jobs = update k (record { status = st; error = e }) m.jobs })
        (record {
          alert_at = λ id. (set_job-seen k st e id w).0 ∙ h.alert_at id;
          verdict_at = λ id. (set_job-seen k st e id w).1 ∙ h.verdict_at id;
          job_at = λ id. ground (arith, set_job-seen k st e id w, h.job_at id);
        })

  -- In the memory mode, and in the Redis mode where no call fails, the store is the three maps that it
  -- promises: after any calls of `put_alert`, `put_verdict` and `set_job`, the getters answer what the
  -- replay of these calls on the maps holds, if they did so before.
  pub run-refines :
      (cs : List Change) (w : Store S) (m : Maps)
      → Reads env w m
      → Reads env (run env cs w) (replay cs m)
  run-refines cs w m h =
      Seen-Reads (run env cs w) (replay cs m) (replay-Seen cs w m (Reads-Seen w m h))
