-- ===== src/Runtime/EventSeq/Consecutive.antt =====
-- services/_runtime/event_seq.py: the numbers of an alert's events.
use cyber_security_alert_tri.Common.{
  ℕ, zero, suc, String, false, Option, none, some, [], ◌∷◌, ◌≡◌, refl, ◌∙◌, ap, sym, arith, ◌==◌,
  eq_iff, eq_refl, if◌then◌else◌,
}
use cyber_security_alert_tri.Effects.{ok}
use cyber_security_alert_tri.Runtime.EventSeq.{
  SeqEnv, Counters, Process, local_peek, local_set, local_next, next_seq, current_seq, number_of,
}

pub peek-set :
    (id j : String) (n : ℕ) (c : Counters)
    → local_peek j (local_set id n c) ≡ (if id == j then n else local_peek j c)
unfolding local_peek local_set
peek-set id j n [] = refl
peek-set id j n ((k, m) ∷ c) =
    ground (arith, peek-set id j n c, eq_iff k id, eq_iff k j, eq_iff id j)

-- What GET answers for a counter: nothing before the first INCR, then its decimal digits.
abbrev pub shown : (ℕ → String) → ℕ → Option String
shown print zero = none
shown print (suc n) = some (print (suc n))

-- Documented behaviour of Redis where no call fails, for the counters that can be seen of a state.
pub record Reliable {S : Type 0} (env : SeqEnv S) (counter : S → String → ℕ) (print : ℕ → String)
    : Type 0 where
  pub incr_reply : (id : String) (s : S) → (env.incr id s).0 ≡ ok (suc (counter s id))
  pub incr_counter :
      (id j : String) (s : S)
      → counter (env.incr id s).1 j ≡ (if id == j then suc (counter s id) else counter s j)
  pub expire_reply : (id : String) (ttl : ℕ) (s : S) → (env.expire id ttl s).0 ≡ ok tt
  pub expire_counter :
      (id j : String) (ttl : ℕ) (s : S) → counter (env.expire id ttl s).1 j ≡ counter s j
  pub get_reply : (id : String) (s : S) → (env.get id s).0 ≡ ok (shown print (counter s id))
  pub parse_print : (n : ℕ) → env.parse_int (print n) ≡ some n
  pub print_nonempty : (n : ℕ) → (print n == "") ≡ false

module _ {S : Type 0} (env : SeqEnv S) (counter : S → String → ℕ) (print : ℕ → String)
    (r : Reliable env counter print) where
  -- The counter that is read and advanced.
  abbrev counter_of : Process S → String → ℕ
  counter_of p id = if env.connected then counter p.outside id else local_peek id p.counters

  number_of-shown : (n : ℕ) → number_of env (shown print n) ≡ ok n
  number_of-shown zero = refl
  number_of-shown (suc n) = ground (arith, r.parse_print (suc n), r.print_nonempty (suc n))

  current_seq-counter : (id : String) (p : Process S) → (current_seq env id p).0 ≡ counter_of p id
  unfolding current_seq
  current_seq-counter id p =
      ground (arith, r.get_reply id p.outside, number_of-shown (counter p.outside id))

  next_seq-counter :
      (id j : String) (p : Process S)
      → ((next_seq env id p).0 ≡ suc (counter_of p id))
        × (counter_of (next_seq env id p).1 j
            ≡ (if id == j then suc (counter_of p id) else counter_of p j))
  unfolding next_seq local_next
  next_seq-counter id j p = ground (
    arith,
    r.incr_reply id p.outside,
    r.expire_reply id env.ttl (env.incr id p.outside).1,
    r.expire_counter id j env.ttl (env.incr id p.outside).1,
    r.incr_counter id j p.outside,
    peek-set id j (suc (local_peek id p.counters)) p.counters,
  )

  -- Without a Redis client, or with one whose calls succeed, `next_seq` gives the number after the one
  -- that `current_seq` read before; afterwards `current_seq` reads that number, and reads for every
  -- other alert what it read before.
  pub next_seq-consecutive :
      (id : String) (p : Process S)
      → ((next_seq env id p).0 ≡ suc (current_seq env id p).0)
        × ((current_seq env id (next_seq env id p).1).0 ≡ (next_seq env id p).0)
        × ((j : String)
            → (id == j) ≡ false
            → (current_seq env j (next_seq env id p).1).0 ≡ (current_seq env j p).0)
  next_seq-consecutive id p =
      let (number, _) = next_seq-counter id id p in
      let q = (next_seq env id p).1 in
      (
        number ∙ ap suc (sym (current_seq-counter id p)),
        current_seq-counter id q ∙ ground (arith, next_seq-counter id id p, eq_refl id),
        λ j other.
            current_seq-counter j q
            ∙ ground (arith, next_seq-counter id j p)
            ∙ sym (current_seq-counter j p),
      )
