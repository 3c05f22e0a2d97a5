-- ===== src/Effects.antt =====
-- Python coroutines over an outside state `S`: what was done before an exception stays done, so the
-- state comes back beside the exception too.
use cyber_security_alert_tri.Common.{ℕ, String, Bool, true, false, ◌≡◌, refl, if◌then◌else◌}

-- The exceptions that the modelled code tells apart.
pub data Exception : Type 0 where
  jwt_error poison_pill tenant_context_error key_error value_error type_error : Exception
  http_error : ℕ → Exception
  other : String → Exception

pub data Result {ℓ} (A : Type ℓ) : Type ℓ where
  ok : A → Result A
  raised : Exception → Result A

abbrev pub Exec {ℓ} : Type 0 → Type ℓ → Type ℓ
Exec S A = S → Result A × S

module _ {ℓ} {S : Type 0} {A : Type ℓ} where
  abbrev pub pure : A → Exec S A
  pure a s = (ok a, s)

  abbrev pub raise : Exception → Exec S A
  raise e s = (raised e, s)

module _ {ℓ κ} {S : Type 0} {A : Type ℓ} {B : Type κ} where
  abbrev pub continue : Result A → (A → Exec S B) → Exec S B
  continue (raised e) rest s = (raised e, s)
  continue (ok a) rest s = rest a s

  infixl 10 ◌>>=◌
  abbrev pub ◌>>=◌ : Exec S A → (A → Exec S B) → Exec S B
  ◌>>=◌ m f s = continue (m s).0 f (m s).1

module _ {κ} {S : Type 0} {B : Type κ} where
  infixl 10 ◌>>◌
  abbrev pub ◌>>◌ : Exec S (Unit {0}) → Exec S B → Exec S B
  m >> k = m >>= λ _. k

module _ {ℓ} {S : Type 0} {A : Type ℓ} where
  abbrev pub handle : Result A → (Exception → Exec S A) → Exec S A
  handle (ok a) h s = (ok a, s)
  handle (raised e) h s = h e s

  -- `try: m` with `except` clauses that cover every exception.
  abbrev pub catch : Exec S A → (Exception → Exec S A) → Exec S A
  catch m h s = handle (m s).0 h (m s).1

  -- `try: m finally: n`; an exception of `n` replaces what `m` did.
  abbrev pub finally : Exec S A → Exec S (Unit {0}) → Exec S A
  finally m n s = continue (n (m s).1).0 (λ _ t. ((m s).0, t)) (n (m s).1).1

-- `m`, whose exceptions are logged and dropped.
abbrev pub quietly : {S : Type 0} → Exec S (Unit {0}) → Exec S (Unit {0})
quietly m = catch m (λ _. pure tt)

-- A predicate of the state that `m` preserves, also where it raises.
pub record Preserves {S A : Type 0} (Q : S → Type 0) (m : Exec S A) : Type 0 where
  pub at : (before : S) → Q before → Q (m before).1

pub Preserves-if :
    {S A : Type 0} {Q : S → Type 0} (b : Bool) (m n : Exec S A)
    → (b ≡ true → Preserves Q m)
    → (b ≡ false → Preserves Q n)
    → Preserves Q (if b then m else n)
Preserves-if true m n when unless = when refl
Preserves-if false m n when unless = unless refl

pub Preserves-raise :
    {S A : Type 0} {Q : S → Type 0} (e : Exception) → Preserves Q (raise {A = A} e)
Preserves-raise e = record { at = λ _ q. q }

pub Preserves-pure : {S A : Type 0} {Q : S → Type 0} (a : A) → Preserves Q (pure a)
Preserves-pure a = record { at = λ _ q. q }

module _ {S A B : Type 0} (P : S → Type 0) where
  Preserves-continue :
      (r : Result A) (f : A → Exec S B) (s : S)
      → P s
      → ((a : A) → P s → P (f a s).1)
      → P (continue r f s).1
  Preserves-continue (ok a) f s h k = k a h
  Preserves-continue (raised e) f s h k = h

module _ {S A : Type 0} (P : S → Type 0) where
  Preserves-handle :
      (r : Result A) (h : Exception → Exec S A) (s : S)
      → P s
      → ((e : Exception) → Preserves P (h e))
      → P (handle r h s).1
  Preserves-handle (ok a) h s p k = p
  Preserves-handle (raised e) h s p k = (k e).at s p

pub Preserves-bind :
    {S A B : Type 0} {Q : S → Type 0} (first : Exec S A) (rest : A → Exec S B)
    → Preserves Q first
    → ((a : A) → Preserves Q (rest a))
    → Preserves Q (first >>= rest)
Preserves-bind {Q = Q} first rest kept also = record {
  at = λ s q.
      Preserves-continue Q (first s).0 rest (first s).1 (kept.at s q)
        (λ a. (also a).at (first s).1);
}

-- At one state: the rest of the block may use what the first action replied.
module _ {S A B : Type 0} (Q : S → Type 0) where
  continue_at :
      (r : Result A) (f : A → Exec S B) (s : S)
      → Q s
      → ((a : A) → r ≡ ok a → Q (f a s).1)
      → Q (continue r f s).1
  continue_at (ok a) f s h k = k a refl
  continue_at (raised e) f s h k = h

  pub bind_at :
      (m : Exec S A) (f : A → Exec S B) (s : S)
      → Q (m s).1
      → ((a : A) → (m s).0 ≡ ok a → Q (f a (m s).1).1)
      → Q ((m >>= f) s).1
  bind_at m f s h k = continue_at (m s).0 f (m s).1 h k

module _ {S A : Type 0} {P : S → Type 0} where
  pub Preserves-catch :
      (m : Exec S A) (h : Exception → Exec S A)
      → Preserves P m
      → ((e : Exception) → Preserves P (h e))
      → Preserves P (catch m h)
  Preserves-catch m h km kh = record {
    at = λ s p. Preserves-handle P (m s).0 h (m s).1 (km.at s p) kh;
  }

pub Preserves-quietly :
    {S : Type 0} {P : S → Type 0} (m : Exec S (Unit {0})) → Preserves P m → Preserves P (quietly m)
Preserves-quietly m km = Preserves-catch m (λ _. pure tt) km (λ _. Preserves-pure tt)
