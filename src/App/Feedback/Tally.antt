-- ===== src/App/Feedback/Tally.antt =====
-- observability/feedback.py with app/main.py: how feedback is counted.
use cyber_security_alert_tri.Common.{
  suc, ◌+◌, String, List, [], ◌∷◌, ◌++◌, ◌≡◌, ◌≢◌, ◌⊎◌, inl, inr, refl, ◌∙◌, ◌==◌, length,
  length-append, arith, if◌then◌else◌,
}
use cyber_security_alert_tri.Schema.{EscalationDecision}
use cyber_security_alert_tri.Effects.{Exec, Result, Exception, ok, raised, continue, ◌>>=◌}
use cyber_security_alert_tri.Security.Guard.{Headers, validate_api_key}
use cyber_security_alert_tri.Storage.Alerts.{Store}
use cyber_security_alert_tri.App.{AppEnv}
use cyber_security_alert_tri.App.Feedback.{
  decision_value, FeedbackRecord, FeedbackBody, Desk, record_feedback, agreed, disagreements,
  on_store, original, post_verdict_feedback,
}

-- Every record is either counted as an agreement or listed as a disagreement.
agreed-disagreements :
    (rs : List FeedbackRecord) → agreed rs + length (disagreements rs) ≡ length rs
unfolding agreed disagreements
agreed-disagreements [] = omega arith
agreed-disagreements (r ∷ rs) = ground (arith, agreed-disagreements rs)

agreed-append : (rs ss : List FeedbackRecord) → agreed (rs ++ ss) ≡ agreed rs + agreed ss
unfolding agreed
agreed-append [] ss = omega arith
agreed-append (r ∷ rs) ss = ground (arith, agreed-append rs ss)

module _ {S T : Type 0} (env : AppEnv S T) (upper : String → String) where
  -- What one record adds.
  recorded :
      (id o a c n : String) (rs : List FeedbackRecord)
      → (length (record_feedback upper id o a c n rs) ≡ suc (length rs))
        × (agreed (record_feedback upper id o a c n rs)
            ≡ agreed rs + (if upper o == upper a then 1 else 0))
  unfolding record_feedback agreed
  recorded id o a c n rs =
      let new : List FeedbackRecord =
        record {
          alert_id = id;
          original_verdict = o;
          analyst_decision = a;
          agree = upper o == upper a;
          comment = c;
          analyst_id = n;
        }
        ∷ [] in
      (length-append rs new ∙ omega arith, agreed-append rs new)

  -- What a call leaves, given the original decision.
  abbrev pub Tallied :
      FeedbackBody
      → List FeedbackRecord
      → Result EscalationDecision
      → Result (Unit {0}) × Desk S
      → Type 0
  Tallied body rs orig out =
      ((out.0 ≢ ok tt) × (out.1.feedback ≡ rs))
      ⊎ ((d : EscalationDecision) × (orig ≡ ok d)
          × (length out.1.feedback ≡ suc (length rs))
          × (agreed out.1.feedback
              ≡ agreed rs
                + (if upper (decision_value d) == upper (decision_value body.analyst_decision)
                    then 1
                    else 0))
          × (agreed out.1.feedback + length (disagreements out.1.feedback) ≡ length out.1.feedback))

  abbrev adding : FeedbackBody → EscalationDecision → Exec (Desk S) (Unit {0})
  adding body orig w = (
    ok tt,
    record w {
      feedback =
          record_feedback upper body.alert_id (decision_value orig)
            (decision_value body.analyst_decision) body.comment body.analyst_id w.feedback;
    },
  )

  raised≢ok : (e : Exception) → ◌≢◌ {A = Result (Unit {0})} (raised e) (ok tt)
  raised≢ok e h = ground arith

  adding-Tallied :
      (body : FeedbackBody) (w : Desk S) (orig : Result EscalationDecision)
      → Tallied body w.feedback orig (continue orig (adding body) w)
  adding-Tallied body w (raised e) = inl (raised≢ok e, refl)
  adding-Tallied body w (ok d) =
      let one =
        recorded body.alert_id (decision_value d) (decision_value body.analyst_decision)
          body.comment body.analyst_id w.feedback in
      inr (d, refl, one.0, one.1, agreed-disagreements _)

  keyed-Tallied :
      (body : FeedbackBody) (w : Desk S) (key : Result (Unit {0}))
      (m : Exec (Store S) EscalationDecision)
      → Tallied body w.feedback (m w.store).0 (continue key (λ _. on_store m >>= adding body) w)
  keyed-Tallied body w (raised e) m = inl (raised≢ok e, refl)
  keyed-Tallied body w (ok t) m =
      adding-Tallied body (record w { store = (m w.store).1 }) (m w.store).0

  -- A call of post_verdict_feedback either raises and leaves the feedback as it was, or adds one record. That
  -- record counts as an agreement exactly where the upper-case texts of the two decisions are equal, the
  -- original one being that of the body or, where it has none, of the stored verdict; and the agreements
  -- and the listed disagreements are together all the records.
  pub post_verdict_feedback-tallies :
      (body : FeedbackBody) (headers : Headers) (w : Desk S)
      → Tallied body w.feedback
          (original env upper body.alert_id body.original_verdict w.store).0
          (post_verdict_feedback env upper body headers w)
  unfolding post_verdict_feedback
  post_verdict_feedback-tallies body headers w =
      keyed-Tallied body w (validate_api_key env.api_key headers)
        (original env upper body.alert_id body.original_verdict)
