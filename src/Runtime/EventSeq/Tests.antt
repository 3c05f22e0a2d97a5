-- ===== src/Runtime/EventSeq/Tests.antt =====
-- services/_runtime/event_seq.py: a store of counters whose texts are unary, and the theorem about it.
use cyber_security_alert_tri.Common.{
  ℕ, zero, suc, String, Bool, true, false, Option, none, some, [], ◌≡◌, refl, arith, ◌==◌, ap, sym,
  ◌∙◌, eq_iff, Bool-cases, inl, inr,
}
use cyber_security_alert_tri.Effects.{ok}
use cyber_security_alert_tri.Runtime.EventSeq.{
  SeqEnv, Counters, Process, local_peek, local_set, local_next, local_reset, next_seq, current_seq,
  reset,
}
use cyber_security_alert_tri.Runtime.EventSeq.Consecutive.{
  Reliable, shown, peek-set, next_seq-consecutive,
}

-- One stroke more than the number.
abbrev strokes : ℕ → String
strokes zero = "|"
strokes (suc n) = String.◌∷◌ "|" (strokes n)

abbrev count_strokes : String → ℕ
count_strokes String.[] = 0
count_strokes (String.◌∷◌ c s) = suc (count_strokes s)

abbrev parse_strokes : String → Option ℕ
parse_strokes String.[] = none
parse_strokes (String.◌∷◌ c s) = some (count_strokes s)

abbrev redis : Bool → SeqEnv Counters
redis up = record {
  connected = up;
  incr = λ id s. (ok (suc (local_peek id s)), local_set id (suc (local_peek id s)) s);
  expire = λ id ttl s. (ok tt, s);
  get = λ id s. (ok (shown strokes (local_peek id s)), s);
  delete = λ id s. (ok tt, local_reset id s);
  parse_int = parse_strokes;
  ttl = 86400;
}

count-strokes : (n : ℕ) → count_strokes (strokes n) ≡ suc n
count-strokes zero = refl
count-strokes (suc n) = ap suc (count-strokes n)

parse-strokes : (n : ℕ) → parse_strokes (strokes n) ≡ some n
parse-strokes zero = refl
parse-strokes (suc n) = ap some (count-strokes n)

strokes-nonempty : (n : ℕ) → (strokes n == "") ≡ false
strokes-nonempty n = elim (Bool-cases (strokes n == "")) [
  | inr other ↦ other
  | inl same ↦
      let clash : some n ≡ none =
        sym (parse-strokes n) ∙ ap parse_strokes ((eq_iff (strokes n) "").0 same) in
      absurd (ground (arith, clash))
]

redis-Reliable : (up : Bool) → Reliable (redis up) (λ s id. local_peek id s) strokes
redis-Reliable up = record {
  incr_reply = λ id s. refl;
  incr_counter = λ id j s. peek-set id j (suc (local_peek id s)) s;
  expire_reply = λ id ttl s. refl;
  expire_counter = λ id j ttl s. refl;
  get_reply = λ id s. refl;
  parse_print = parse-strokes;
  print_nonempty = strokes-nonempty;
}

abbrev fresh : Process Counters
fresh = record { counters = []; outside = [] }

third_number :
    (let step : Process Counters → Process Counters = λ p. (next_seq (redis true) "a" p).1 in
      (next_seq (redis true) "a" (step (step fresh))).0)
    ≡ 3
unfolding next_seq local_peek local_set
third_number = refl

after_reset :
    (let p = (next_seq (redis false) "a" fresh).1 in
      (next_seq (redis false) "a" (reset (redis false) "a" p)).0)
    ≡ 1
unfolding next_seq reset local_next local_reset local_peek local_set
after_reset = refl

next_seq-consecutive_example :
    ((next_seq (redis true) "a" fresh).0 ≡ suc (current_seq (redis true) "a" fresh).0)
    × ((current_seq (redis true) "a" (next_seq (redis true) "a" fresh).1).0
        ≡ (next_seq (redis true) "a" fresh).0)
    × ((j : String)
        → ("a" == j) ≡ false
        → (current_seq (redis true) j (next_seq (redis true) "a" fresh).1).0
          ≡ (current_seq (redis true) j fresh).0)
next_seq-consecutive_example =
    next_seq-consecutive (redis true) (λ s id. local_peek id s) strokes (redis-Reliable true) "a"
      fresh
