-- ===== src/App/Stream/Ending.antt =====
-- app/main.py: how a stream ends.
use cyber_security_alert_tri.Common.{
  ℕ, zero, suc, ◌≤◌, ◌<◌, String, Bool, true, false, Option, none, some, List, [], ◌∷◌, ◌++◌, ◌≡◌,
  refl, ap, ◌∙◌, ◌==◌, length, arith, if◌then◌else◌,
}
use cyber_security_alert_tri.Schema.{TriageVerdict}
use cyber_security_alert_tri.Effects.{Result, ok, raised, continue, pure}
use cyber_security_alert_tri.Storage.Alerts
use cyber_security_alert_tri.Storage.Alerts.{Job, Store}
use cyber_security_alert_tri.App.{AppEnv, status_text}
use cyber_security_alert_tri.App.Stream.{
  Event, opened, failed, progress, Poll, last, next, max_ticks, after_poll, verdict_event, of_job,
  of_verdict, poll, events, event_gen,
}

abbrev pub is_last : Event → Bool
is_last opened = false
is_last (progress s) = false
is_last _ = true

-- Only the last event is one that ends a stream.
pub Ended : List Event → Type 0
Ended [] = ⊥
Ended (e ∷ []) = is_last e ≡ true
Ended (e ∷ f ∷ es) = (is_last e ≡ false) × Ended (f ∷ es)

pub Kind : Result Poll → Type 0
Kind (raised e) = Unit {0}
Kind (ok (last e)) = is_last e ≡ true
Kind (ok (next e)) = is_last e ≡ false

Ended-cons : (e : Event) (es : List Event) → is_last e ≡ false → Ended es → Ended (e ∷ es)
unfolding Ended
Ended-cons e [] h k = absurd k
Ended-cons e (f ∷ es) h k = (h, k)

after_poll-Ended :
    {W : Type 0} (r : Result Poll) (w : W) (rest : List Event × W) (n : ℕ)
    → Kind r
    → Ended rest.0 × (length rest.0 ≤ suc n)
    → Ended (after_poll r w rest).0 × (length (after_poll r w rest).0 ≤ suc (suc n))
unfolding Kind Ended
after_poll-Ended (raised e) w rest n k h = (refl, omega arith)
after_poll-Ended (ok (last e)) w rest n k h = (k, omega arith)
after_poll-Ended (ok (next e)) w rest n k h = (Ended-cons e rest.0 k h.0, omega (arith, h.1))

module _ {S T : Type 0} (env : AppEnv S T) (id : String) where
  if-Kind :
      (b : Bool) (e f : Event)
      → is_last e ≡ true
      → is_last f ≡ false
      → Kind (ok (if b then last e else next f))
  unfolding Kind
  if-Kind true e f h k = h
  if-Kind false e f h k = k

  job-Kind : (job : Option Job) → Kind (ok (of_job env job))
  unfolding Kind
  job-Kind none = refl
  job-Kind (some job) =
      if-Kind (status_text job.status == "failed") (failed job.error)
        (progress (status_text job.status)) refl refl

  jobs-Kind :
      (r : Result (Option Job)) (w : Store S) → Kind (continue r (λ job. pure (of_job env job)) w).0
  unfolding Kind
  jobs-Kind (raised e) w = tt
  jobs-Kind (ok job) w = job-Kind job

  verdicts-Kind :
      (r : Result (Option TriageVerdict)) (w : Store S) → Kind (continue r (of_verdict env id) w).0
  unfolding Kind
  verdicts-Kind (raised e) w = tt
  verdicts-Kind (ok (some verdict)) w = refl
  verdicts-Kind (ok none) w =
      jobs-Kind (Alerts.get_job env.stores id w).0 (Alerts.get_job env.stores id w).1

  poll-Kind : (w : Store S) → Kind (poll env id w).0
  unfolding poll
  poll-Kind w =
      verdicts-Kind (Alerts.get_verdict env.stores id w).0 (Alerts.get_verdict env.stores id w).1

module _ {S T : Type 0} (env : AppEnv S T) (sleep : Store S → Store S) (id : String) where
  pub events-Ended :
      (n : ℕ) (w : Store S)
      → Ended (events env sleep id n w).0 × (length (events env sleep id n w).0 ≤ suc n)
  unfolding events Ended
  events-Ended zero w = (refl, omega arith)
  events-Ended (suc n) w =
      let v = (poll env id w).1 in
      after_poll-Ended (poll env id w).0 v (events env sleep id n (sleep v)) n (poll-Kind env id w)
        (events-Ended n (sleep v))

  -- Whatever the store holds, does between two polls, or raises, a stream has at most 1202 events, its last
  -- event is one of complete, failed, timeout and error, and no event before it is.
  pub event_gen-Ended :
      (w : Store S)
      → Ended (event_gen env sleep id w).0 × (length (event_gen env sleep id w).0 ≤ 1202)
  unfolding event_gen
  event_gen-Ended w =
      let rest = events-Ended max_ticks w in
      (Ended-cons opened (events env sleep id max_ticks w).0 refl rest.0, omega (arith, rest.1))

  -- `k` polls in a row that report progress, the events of which are the last index: from a state to the
  -- state of the next poll.
  pub data Waits : ℕ → Store S → Store S → List Event → Type 0 where
    here : {w : Store S} → Waits zero w w []
    polled :
        {k : ℕ} {w u : Store S} {es : List Event} (e : Event)
        → (poll env id w).0 ≡ ok (next e)
        → Waits k (sleep (poll env id w).1) u es
        → Waits (suc k) w u (e ∷ es)

  poll-verdict :
      (r : Result (Option TriageVerdict)) (u : Store S) (verdict : TriageVerdict)
      → r ≡ ok (some verdict)
      → (continue r (of_verdict env id) u).0 ≡ ok (last (verdict_event env verdict))
  poll-verdict r u verdict h = ap (λ x. (continue x (of_verdict env id) u).0) h

  delivered :
      (n : ℕ) (u : Store S) (verdict : TriageVerdict)
      → (poll env id u).0 ≡ ok (last (verdict_event env verdict))
      → (events env sleep id (suc n) u).0 ≡ verdict_event env verdict ∷ []
  unfolding events
  delivered n u verdict h =
      let v = (poll env id u).1 in ap (λ r. (after_poll r v (events env sleep id n (sleep v))).0) h

  polled_on :
      (n : ℕ) (w : Store S) (e : Event)
      → (poll env id w).0 ≡ ok (next e)
      → (events env sleep id (suc n) w).0 ≡ e ∷ (events env sleep id n (sleep (poll env id w).1)).0
  unfolding events
  polled_on n w e h =
      let v = (poll env id w).1 in ap (λ r. (after_poll r v (events env sleep id n (sleep v))).0) h

  waited :
      (n : ℕ) (verdict : TriageVerdict) {k : ℕ} {w u : Store S} {es : List Event}
      → Waits k w u es
      → k < n
      → (poll env id u).0 ≡ ok (last (verdict_event env verdict))
      → (events env sleep id n w).0 ≡ es ++ (verdict_event env verdict ∷ [])
  waited zero verdict waits less h = absurd (omega (arith, less))
  waited (suc n) verdict here less h = delivered n _ verdict h
  waited (suc n) verdict {w = w} (polled e p rest) less h =
      polled_on n w e p ∙ ap (λ fs. e ∷ fs) (waited n verdict rest (omega (arith, less)) h)

  -- A verdict that is there within the polls of a stream is delivered: if fewer than 1200 polls in a row report
  -- progress, and the store has the verdict at the next one, then the events are "open", the events of
  -- those polls, and the scrubbed verdict, and the stream ends with it.
  pub event_gen-delivers :
      (k : ℕ) (w u : Store S) (es : List Event) (verdict : TriageVerdict)
      → Waits k w u es
      → k < 1200
      → (Alerts.get_verdict env.stores id u).0 ≡ ok (some verdict)
      → (event_gen env sleep id w).0 ≡ opened ∷ (es ++ (verdict_event env verdict ∷ []))
  unfolding event_gen poll
  event_gen-delivers k w u es verdict waits few h =
      ap (λ fs. opened ∷ fs)
        (waited max_ticks verdict waits few (
          poll-verdict (Alerts.get_verdict env.stores id u).0 (Alerts.get_verdict env.stores id u).1
            verdict h))
