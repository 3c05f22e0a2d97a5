-- ===== src/App/Intake/Batch/Counts.antt =====
-- app/main.py: what a batch leaves behind.
use mathlib.Core.Path.{subst}
use cyber_security_alert_tri.Common.{
  ℕ, suc, ◌+◌, ◌≤◌, Bool, true, false, ◌&&◌, none, some, List, [], ◌∷◌, ◌++◌, ◌≡◌, refl, ap, ◌∙◌,
  length, length-append, arith, if◌then◌else◌,
}
use cyber_security_alert_tri.Json.{Json, Fields, obj}
use cyber_security_alert_tri.Schema.{NormalizedAlert, AlertSource}
use cyber_security_alert_tri.Effects.{Exec, Result, ok, raised, pure, continue, ◌>>=◌, ◌>>◌}
use cyber_security_alert_tri.Security.Guard.{Headers, validate_api_key}
use cyber_security_alert_tri.Ingest.Parsers.Normalize.{normalize_alert}
use cyber_security_alert_tri.Storage.Alerts
use cyber_security_alert_tri.Storage.Alerts.{queued, Store}
use cyber_security_alert_tri.Runtime.Glue.{record_raw_payload}
use cyber_security_alert_tri.App.Intake.{
  Intake, IntakeEnv, parse_source, on_store, outside, clean, accept, dispatch_triage,
}
use cyber_security_alert_tri.App.Intake.Batch.{
  BatchIngestItem, ItemResult, accepted, BatchReply, is_accepted, count_accepted, accept_or_refuse,
  ingest_from, ingest_row, ingest_rows, ingest_batch,
}
use cyber_security_alert_tri.App.Intake.Routes.{dispatch_triage-routes}

-- A property of the result and the state, where there is a result.
pub Ends : {W A : Type 0} → (A → W → Type 0) → Result A × W → Type 0
Ends P (raised e, w) = Unit {0}
Ends P (ok a, w) = P a w

module _ {W A B : Type 0} (P : B → W → Type 0) where
  Ends-after :
      (r : Result A) (f : A → Exec W B) (w : W)
      → ((a : A) → r ≡ ok a → Ends P (f a w))
      → Ends P (continue r f w)
  unfolding Ends
  Ends-after (raised e) f w h = tt
  Ends-after (ok a) f w h = h a refl

Ends-bind :
    {W A B : Type 0} (P : B → W → Type 0) (m : Exec W A) (f : A → Exec W B) (w : W)
    → ((a : A) → Ends P (f a (m w).1))
    → Ends P ((m >>= f) w)
Ends-bind P m f w h = Ends-after P (m w).0 f (m w).1 (λ a _. h a)

Ends-always :
    {W A : Type 0} (P : A → W → Type 0) (out : Result A × W) → ((a : A) → P a out.1) → Ends P out
unfolding Ends
Ends-always P (raised e, w) h = tt
Ends-always P (ok a, w) h = h a

ended :
    {W A : Type 0} (P : A → W → Type 0) (out : Result A × W) (a : A)
    → Ends P out
    → out.0 ≡ ok a
    → P a out.1
unfolding Ends
ended P (raised e, w) a h given = absurd (ground arith)
ended P (ok b, w) a h given = subst (λ x. P x w) (ground arith) h

module _ {S T L : Type 0} (env : IntakeEnv S T L) where
  abbrev routed : Bool
  routed = env.app.ingest_via_nats && env.app.glue.wired

  -- The tasks of an accepted alert.
  abbrev pub OneMore : List NormalizedAlert → NormalizedAlert → Unit {0} → Intake S L → Type 0
  OneMore tasks alert u w = w.tasks ≡ (if routed then tasks else tasks ++ (alert ∷ []))

  accept-OneMore :
      (alert : NormalizedAlert) (raw : Json) (w : Intake S L)
      → Ends (OneMore w.tasks alert) (accept env alert raw w)
  unfolding accept
  accept-OneMore alert raw w =
      let put : Exec (Intake S L) (Unit {0}) = on_store (Alerts.put_alert env.app.stores alert) in
      let set : Exec (Intake S L) (Unit {0}) =
        on_store (Alerts.set_job env.app.stores alert.alert_id queued none) in
      let audit : Exec (Intake S L) (Unit {0}) =
        outside (record_raw_payload env.app.glue alert raw) in
      let go = dispatch_triage env alert in
      let w3 = (audit (set (put w).1).1).1 in
      Ends-bind (OneMore w.tasks alert) put (λ _. set >> (audit >> go)) w
        (λ _.
          Ends-bind (OneMore w.tasks alert) set (λ _. audit >> go) (put w).1
            (λ _.
              Ends-bind (OneMore w.tasks alert) audit (λ _. go) (set (put w).1).1
                (λ _.
                  Ends-always (OneMore w.tasks alert) (go w3)
                    (λ _. (dispatch_triage-routes env alert w3).1))))

  -- The tasks that one result adds.
  abbrev RowCounted : ℕ → ItemResult → Intake S L → Type 0
  RowCounted n r w = length w.tasks ≡ n + (if routed then 0 else if is_accepted r then 1 else 0)

  one_more :
      (tasks : List NormalizedAlert) (alert : NormalizedAlert) (source : AlertSource)
      (w : Intake S L)
      → OneMore tasks alert tt w
      → RowCounted (length tasks) (accepted alert.alert_id source) w
  one_more tasks alert source w h = ap length h ∙ added routed tasks alert
    where
      added :
          (b : Bool) (ts : List NormalizedAlert) (a : NormalizedAlert)
          → length (if b then ts else ts ++ (a ∷ [])) ≡ length ts + (if b then 0 else 1)
      added true ts a = omega arith
      added false ts a = omega (arith, length-append ts (a ∷ []))

  none_more : (b : Bool) (n : ℕ) → n ≡ n + (if b then 0 else 0)
  none_more true n = omega arith
  none_more false n = omega arith

  row-Counted :
      (payload : Fields) (source : AlertSource) (r : Result NormalizedAlert) (w : Intake S L)
      → Ends (RowCounted (length w.tasks)) (accept_or_refuse env source payload r w)
  unfolding Ends
  row-Counted payload source (raised e) w = none_more routed (length w.tasks)
  row-Counted payload source (ok alert) w =
      accepted-Counted (accept env alert (obj payload) w) (accept-OneMore alert (obj payload) w)
    where
      accepted-Counted :
          (out : Result (Unit {0}) × Intake S L)
          → Ends (OneMore w.tasks alert) out
          → Ends
              (RowCounted (length w.tasks))
              (continue out.0 (λ _ v. (ok (accepted alert.alert_id source), v)) out.1)
      accepted-Counted (raised e, v) h = tt
      accepted-Counted (ok t, v) h = one_more w.tasks alert source v h

  ingest_row-Counted :
      (row : BatchIngestItem) (w : Intake S L)
      → Ends (RowCounted (length w.tasks)) (ingest_row env row w)
  unfolding ingest_row Ends
  ingest_row-Counted row w =
      elim (parse_source (env.python.lower row.source))
        as (λ o. Ends (RowCounted (length w.tasks)) (ingest_from env row o w)) [
          | none ↦ none_more routed (length w.tasks)
          | some source ↦
              row-Counted (clean env row.payload) source
                (normalize_alert env.python source (clean env row.payload)) w
        ]

  -- The results of some rows and the tasks that they add.
  abbrev pub RowsCounted : ℕ → ℕ → List ItemResult → Intake S L → Type 0
  RowsCounted k n rs w =
      (length rs ≡ k)
      × (count_accepted rs ≤ k)
      × (length w.tasks ≡ n + (if routed then 0 else count_accepted rs))

  one_row :
      (k n : ℕ) (r : ItemResult) (rs : List ItemResult) (v w : Intake S L)
      → RowCounted n r v
      → RowsCounted k (length v.tasks) rs w
      → RowsCounted (suc k) n (r ∷ rs) w
  unfolding count_accepted
  one_row k n r rs v w h rest =
      counted routed (is_accepted r) (count_accepted rs) (length v.tasks) h rest
    where
      counted :
          (b a : Bool) (c t : ℕ)
          → t ≡ n + (if b then 0 else if a then 1 else 0)
          → (length rs ≡ k) × (c ≤ k) × (length w.tasks ≡ t + (if b then 0 else c))
          → (suc (length rs) ≡ suc k)
            × ((if a then suc c else c) ≤ suc k)
            × (length w.tasks ≡ n + (if b then 0 else if a then suc c else c))
      counted b a c t p q = ground arith

  results-Counted :
      (k n : ℕ) (r : ItemResult) (v : Intake S L) (out : Result (List ItemResult) × Intake S L)
      → RowCounted n r v
      → Ends (RowsCounted k (length v.tasks)) out
      → Ends (RowsCounted (suc k) n) (continue out.0 (λ rs u. (ok (r ∷ rs), u)) out.1)
  unfolding Ends
  results-Counted k n r v (raised e, u) h rest = tt
  results-Counted k n r v (ok rs, u) h rest = one_row k n r rs v u h rest

  row_then-Counted :
      (k n : ℕ) (rows : List BatchIngestItem) (out : Result ItemResult × Intake S L)
      → Ends (RowCounted n) out
      → ((v : Intake S L) → Ends (RowsCounted k (length v.tasks)) (ingest_rows env rows v))
      → Ends
          (RowsCounted (suc k) n)
          (continue out.0 (λ r. ingest_rows env rows >>= λ rs. pure (r ∷ rs)) out.1)
  unfolding Ends
  row_then-Counted k n rows (raised e, v) h rest = tt
  row_then-Counted k n rows (ok r, v) h rest =
      results-Counted k n r v (ingest_rows env rows v) h (rest v)

  ingest_rows-Counted :
      (rows : List BatchIngestItem) (w : Intake S L)
      → Ends (RowsCounted (length rows) (length w.tasks)) (ingest_rows env rows w)
  unfolding ingest_rows Ends count_accepted
  ingest_rows-Counted [] w = (refl, omega arith, none_more routed (length w.tasks))
  ingest_rows-Counted (row ∷ rows) w =
      row_then-Counted (length rows) (length w.tasks) rows (ingest_row env row w)
        (ingest_row-Counted row w) (λ v. ingest_rows-Counted rows v)

  -- What is claimed of an answered batch.
  abbrev Answered : List BatchIngestItem → Headers → ℕ → BatchReply → Intake S L → Type 0
  Answered items headers n reply v =
      (validate_api_key env.app.api_key headers ≡ ok tt)
      × (reply.total ≡ length items)
      × (length reply.results ≡ length items)
      × (reply.accepted ≤ length items)
      × (length v.tasks ≡ n + (if routed then 0 else reply.accepted))

  abbrev reply_of : List BatchIngestItem → List ItemResult → BatchReply
  reply_of items rs = record { accepted = count_accepted rs; total = length items; results = rs }

  rows-Answered :
      (items : List BatchIngestItem) (headers : Headers) (n : ℕ)
      (out : Result (List ItemResult) × Intake S L)
      → validate_api_key env.app.api_key headers ≡ ok tt
      → Ends (RowsCounted (length items) n) out
      → Ends (Answered items headers n) (continue out.0 (λ rs u. (ok (reply_of items rs), u)) out.1)
  unfolding Ends
  rows-Answered items headers n (raised e, v) key h = tt
  rows-Answered items headers n (ok rs, v) key h = (key, refl, h.0, h.1, h.2)

  -- A batch that is answered has one result for each of its items, in `total` too; the accepted ones are at most
  -- that many; and the background tasks grew by exactly the accepted alerts, or not at all where the alerts
  -- are enqueued. It is answered only if its API key is the right one.
  pub ingest_batch-counts :
      (items : List BatchIngestItem) (headers : Headers) (w : Intake S L) (reply : BatchReply)
      → (ingest_batch env items headers w).0 ≡ ok reply
      → (validate_api_key env.app.api_key headers ≡ ok tt)
        × (reply.total ≡ length items)
        × (length reply.results ≡ length items)
        × (reply.accepted ≤ length items)
        × (length (ingest_batch env items headers w).1.tasks
            ≡ length w.tasks + (if routed then 0 else reply.accepted))
  unfolding ingest_batch
  ingest_batch-counts items headers w reply given =
      ended (Answered items headers (length w.tasks)) (ingest_batch env items headers w) reply
        (Ends-after (Answered items headers (length w.tasks))
          (validate_api_key env.app.api_key headers)
          (λ _. ingest_rows env items >>= λ rs. pure (reply_of items rs)) w
          (λ _ key.
            rows-Answered items headers (length w.tasks) (ingest_rows env items w) key
              (ingest_rows-Counted items w)))
        given
