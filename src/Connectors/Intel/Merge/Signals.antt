-- ===== src/Connectors/Intel/Merge/Signals.antt =====
-- agents/tools/threat_intel_tool.py: how many signals the results can give, and what the verdict says.
use cyber_security_alert_tri.Common.{
  ℕ, ◌+◌, ◌*◌, ◌≤◌, String, Bool, true, false, ◌&&◌, not, List, [], ◌∷◌, ◌++◌, ◌≡◌, ◌≢◌, refl, sym,
  ap, arith, leb, leb→le, if_both, some, if◌then◌else◌, ◌==◌,
}
use cyber_security_alert_tri.Json.{Json, Fields, get_field, str, int}
use cyber_security_alert_tri.Effects.{Result, ok, raised}
use cyber_security_alert_tri.Connectors.{Http}
use cyber_security_alert_tri.Ingest.Parsers.{◌>>=◌, get_value, truth}
use cyber_security_alert_tri.Connectors.Intel.Merge.{
  at_least, graded, ignored, signal, signals, verdict_of, merged, merge_verdicts, with_detail,
  source_signal, is_text,
}

-- A result that says that its source knows the indicator.
unfoldable pub is_hit : Fields → Bool
is_hit r = not (ignored r) && truth (get_value "found" r)

-- How many results do.
unfoldable pub hits : List Fields → ℕ
hits [] = 0
hits (r ∷ rs) = (if is_hit r then 1 else 0) + hits rs

-- What a bound on the value of a result that is no exception says.
abbrev Within : {A : Type 0} → (A → ℕ) → ℕ → Result A → Type 0
Within f n (ok a) = f a ≤ n
Within f n (raised e) = Unit

Within-bind :
    {A B : Type 0} (f : B → ℕ) (n : ℕ) (m : Result A) (k : A → Result B)
    → ((a : A) → Within f n (k a))
    → Within f n (m >>= k)
unfolding ◌>>=◌
Within-bind f n (ok a) k h = h a
Within-bind f n (raised e) k h = tt

graded-Within :
    (float_ge : String → ℕ → Bool) (v : Json) (hi lo : ℕ)
    → Within (λ n. n) 2 (graded float_ge v hi lo)
unfolding graded
graded-Within float_ge v hi lo =
    Within-bind (λ n. n) 2 (at_least float_ge v hi) _
      (λ strong. if_both (Within (λ n. n) 2) strong (ok 2) _ (omega arith) (
        Within-bind (λ n. n) 2 (at_least float_ge v lo) _
          (λ weak. if_both (λ n. n ≤ 2) weak 1 0 (omega arith) (omega arith))))

abbrev Bounded : ℕ → Result (ℕ × List String) → Type 0
Bounded = Within (λ (x : ℕ × List String). x.0)

-- The shape of one round.
guarded-Bounded :
    (ig f : Bool) (source : Result Json) (missing : Json → List String)
    (known : Json → Result (ℕ × List String))
    → ((v : Json) → Bounded 2 (known v))
    → Bounded
        (2 * (if not ig && f then 1 else 0))
        (if ig then ok (0, []) else (source >>= λ v. if not f then ok (0, missing v) else known v))
unfolding ◌>>=◌
guarded-Bounded true f source missing known h = omega arith
guarded-Bounded false f (raised e) missing known h = tt
guarded-Bounded false true (ok v) missing known h = h v
guarded-Bounded false false (ok v) missing known h = omega arith

-- The shape of the loop.
sum-Bounded :
    (m n : ℕ) (x y : Result (ℕ × List String))
    → Bounded m x
    → Bounded n y
    → Bounded (m + n) (x >>= λ a. y >>= λ b. ok (a.0 + b.0, a.1 ++ b.1))
unfolding ◌>>=◌
sum-Bounded m n (raised e) y hx hy = tt
sum-Bounded m n (ok a) (raised e) hx hy = tt
sum-Bounded m n (ok a) (ok b) hx hy = omega arith

Bounded-le : (m n : ℕ) (r : Result (ℕ × List String)) → m ≤ n → Bounded m r → Bounded n r
Bounded-le m n (ok x) le h = omega arith
Bounded-le m n (raised e) le h = tt

Bounded-at :
    (n : ℕ) (r : Result (ℕ × List String)) (x : ℕ × List String) → r ≡ ok x → Bounded n r → x.0 ≤ n
Bounded-at n (ok y) x e h = ground (arith, e, h)
Bounded-at n (raised f) x e h = absurd (ground (arith, e))

ok_injective : {x y : Fields} → ◌≡◌ {A = Result Fields} (ok x) (ok y) → x ≡ y
ok_injective h = grind arith

clean : (n : ℕ) → n ≡ 0 → verdict_of n ≡ "CLEAN"
clean n e = rw e refl

abbrev is_confirmed : String → Bool
is_confirmed s = s == "CONFIRMED_MALICIOUS"

false≢true : false ≢ true
false≢true h = ground (arith, h)

confirmed_by_four :
    (four two one : Bool)
    → ◌≡◌ {A = String}
        (if four
          then "CONFIRMED_MALICIOUS"
          else if two
          then "SUSPICIOUS"
          else if one
          then "LOW_RISK"
          else "CLEAN")
        "CONFIRMED_MALICIOUS"
    → four ≡ true
confirmed_by_four true two one h = refl
confirmed_by_four false true one h = absurd (false≢true (ap is_confirmed h))
confirmed_by_four false false true h = absurd (false≢true (ap is_confirmed h))
confirmed_by_four false false false h = absurd (false≢true (ap is_confirmed h))

confirmed : (n h : ℕ) → n ≤ 2 * h → verdict_of n ≡ "CONFIRMED_MALICIOUS" → 2 ≤ h
confirmed n h le c =
    let four = leb→le 4 n (confirmed_by_four (leb 4 n) (leb 2 n) (leb 1 n) c) in omega (arith, four)

-- What the answer of _merge_verdicts for some results says.
abbrev pub Weighed : List Fields → Fields → Type 0
Weighed rs answer =
    (n : ℕ) × (get_field "malicious_signal_count" answer ≡ some (int n))
    × (get_field "verdict" answer ≡ some (str (verdict_of n)))
    × (n ≤ 2 * hits rs)
    × (verdict_of n ≡ "CONFIRMED_MALICIOUS" → 2 ≤ hits rs)
    × (hits rs ≡ 0 → verdict_of n ≡ "CLEAN")

module _ {S : Type 0} (http : Http S) where
  with_detail-Bounded :
      (d : String) (v : Json) (hi lo : ℕ)
      → Bounded 2 (with_detail http d (graded http.float_ge v hi lo))
  with_detail-Bounded d v hi lo = go (graded http.float_ge v hi lo) (graded-Within _ v hi lo)
    where
      go : (n : Result ℕ) → Within (λ m. m) 2 n → Bounded 2 (with_detail http d n)
      go (ok n) h = h
      go (raised e) h = tt

  source_signal-Bounded : (v : Json) (r : Fields) → Bounded 2 (source_signal http v r)
  source_signal-Bounded v r =
      if_both (Bounded 2) (is_text "virustotal" v) _ _ (with_detail-Bounded _ _ 3 1) (
        if_both (Bounded 2) (is_text "abuseipdb" v) _ _ (with_detail-Bounded _ _ 80 30) (
          if_both (Bounded 2) (is_text "otx" v) _ (ok (0, [])) (with_detail-Bounded _ _ 5 1)
            (omega arith)))

  signal-Bounded : (r : Fields) → Bounded (2 * (if is_hit r then 1 else 0)) (signal http r)
  unfolding signal is_hit
  signal-Bounded r =
      guarded-Bounded (ignored r) (truth (get_value "found" r)) _ _ _
        (λ v. source_signal-Bounded v r)

  signals-Bounded : (rs : List Fields) → Bounded (2 * hits rs) (signals http rs)
  unfolding signals hits
  signals-Bounded [] = omega arith
  signals-Bounded (r ∷ rs) =
      Bounded-le (2 * (if is_hit r then 1 else 0) + 2 * hits rs) _ _ (omega arith) (
        sum-Bounded _ (2 * hits rs) (signal http r) (signals http rs) (signal-Bounded r)
          (signals-Bounded rs))

  merged-Weighed :
      (rs : List Fields) (ioc : String) (answer : Fields) (x : Result (ℕ × List String))
      → Bounded (2 * hits rs) x
      → (x >>= λ total. ok (merged rs ioc total)) ≡ ok answer
      → Weighed rs answer
  unfolding ◌>>=◌ get_field
  merged-Weighed rs ioc answer (raised e) b h = absurd (ground (arith, h))
  merged-Weighed rs ioc answer (ok (n, details)) b h =
      let same : merged rs ioc (n, details) ≡ answer = ok_injective h in
      (
        n,
        ap (get_field "malicious_signal_count") (sym same),
        ap (get_field "verdict") (sym same),
        b,
        (λ c. confirmed n (hits rs) b c),
        (λ none_hit. clean n (omega arith)),
      )

  -- An answer of _merge_verdicts has the verdict of its number of signals, and every source that knows the
  -- indicator, with no error and not skipped, gives at most two signals: so CONFIRMED_MALICIOUS takes two
  -- such sources, and with none of them the verdict is CLEAN.
  pub merge_verdicts-Weighed :
      (rs : List Fields) (ioc : String) (answer : Fields)
      → merge_verdicts http rs ioc ≡ ok answer
      → Weighed rs answer
  unfolding merge_verdicts
  merge_verdicts-Weighed rs ioc answer h =
      merged-Weighed rs ioc answer (signals http rs) (signals-Bounded rs) h
