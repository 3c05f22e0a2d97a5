-- ===== src/Runtime/Cancel/Grace.antt =====
-- services/_runtime/cancel.py: revocations within the grace window.
use mathlib.Core.Path.{subst}
use cyber_security_alert_tri.Common.{
  sym, ℕ, Bool, true, false, ◌&&◌, Option, none, some, List, [], ◌∷◌, ◌≡◌, refl, arith, nat_eq,
  if◌then◌else◌, Bool-cases, inl, inr,
}
use cyber_security_alert_tri.Runtime.Cancel.{
  Stage, asleep, to_get, to_set, to_clean, stop_get, stop_set, stop_clean, Registry, stage_of,
  drop_task, cancelled_at, cancel_timer, pop_timer, revoke_cancel, finish, move, resume, run_task,
  Event, request, answer, go_on, revoke, turn, pending_expires, cancelled_expires, closes, close,
  apply, run_events,
}

-- A task that has not read the pending flag, or will do nothing more.
abbrev pub waiting : Stage → Bool
waiting asleep = true
waiting to_get = true
waiting stop_get = true
waiting st = false

abbrev pub all_waiting : List (ℕ × Stage) → Bool
all_waiting [] = true
all_waiting ((n, st) ∷ ts) = waiting st && all_waiting ts

-- No call of `request_cancel` among the events.
abbrev pub no_request : List Event → Bool
no_request [] = true
no_request (request ∷ es) = false
no_request (e ∷ es) = no_request es

-- No flag is set, no request waits for its SETEX, and no task has read a flag.
record Calm (r : Registry) : Type 0 where
  unflagged : r.pending ≡ false
  uncancelled : r.cancelled ≡ false
  unasked : r.asking ≡ 0
  idle : all_waiting r.tasks ≡ true

drop-waiting :
    (n : ℕ) (ts : List (ℕ × Stage)) → all_waiting ts ≡ true → all_waiting (drop_task n ts) ≡ true
unfolding drop_task
drop-waiting n [] h = refl
drop-waiting n ((k, st) ∷ ts) h = ground (arith, drop-waiting n ts)

stage-waiting :
    (n : ℕ) (ts : List (ℕ × Stage)) (st : Stage)
    → all_waiting ts ≡ true
    → stage_of n ts ≡ some st
    → waiting st ≡ true
unfolding stage_of
stage-waiting n [] st h g = cc
stage-waiting n ((k, su) ∷ ts) st h g = elim (Bool-cases (nat_eq k n)) [
  | inl here ↦ let same : su ≡ st = ground arith in ground arith
  | inr there ↦ stage-waiting n ts st (ground arith) (ground arith)
]

cancelled_at-waiting :
    (n : ℕ) (o : Option Stage) (ts : List (ℕ × Stage))
    → ((st : Stage) → o ≡ some st → waiting st ≡ true)
    → all_waiting ts ≡ true
    → all_waiting (cancelled_at n o ts) ≡ true
cancelled_at-waiting n none ts w h = h
cancelled_at-waiting n (some asleep) ts w h = drop-waiting n ts h
cancelled_at-waiting n (some to_get) ts w h = drop-waiting n ts h
cancelled_at-waiting n (some to_set) ts w h = absurd (ground (arith, w to_set refl))
cancelled_at-waiting n (some to_clean) ts w h = absurd (ground (arith, w to_clean refl))
cancelled_at-waiting n (some stop_get) ts w h = h
cancelled_at-waiting n (some stop_set) ts w h = h
cancelled_at-waiting n (some stop_clean) ts w h = h

pop-waiting : (r : Registry) → all_waiting r.tasks ≡ true → all_waiting (pop_timer r).tasks ≡ true
unfolding pop_timer
pop-waiting r h = popped r.timer
  where
    popped : (t : Option ℕ) → all_waiting (cancel_timer t r.tasks) ≡ true
    popped none = h
    popped (some n) =
        cancelled_at-waiting n (stage_of n r.tasks) r.tasks (λ st g. stage-waiting n r.tasks st h g)
          h

revoke-Calm : (reply : Bool) (r : Registry) → Calm r → Calm (revoke_cancel reply r)
unfolding revoke_cancel pop_timer
revoke-Calm true r c = record {
  unflagged = refl;
  uncancelled = c.uncancelled;
  unasked = c.unasked;
  idle = pop-waiting r c.idle;
}
revoke-Calm false r c = record {
  unflagged = c.unflagged;
  uncancelled = c.uncancelled;
  unasked = c.unasked;
  idle = pop-waiting r c.idle;
}

close-Calm : (r : Registry) → Calm r → Calm (close r)
unfolding close pop_timer
close-Calm r c = record {
  unflagged = c.unflagged;
  uncancelled = c.uncancelled;
  unasked = c.unasked;
  idle = pop-waiting r c.idle;
}

finish-Calm : (n : ℕ) (r : Registry) → Calm r → Calm (finish n r)
finish-Calm n r c = record {
  unflagged = c.unflagged;
  uncancelled = c.uncancelled;
  unasked = c.unasked;
  idle = drop-waiting n r.tasks c.idle;
}

resume-Calm :
    (reply : Bool) (n : ℕ) (r : Registry) (o : Option Stage)
    → ((st : Stage) → o ≡ some st → waiting st ≡ true)
    → Calm r
    → Calm (resume reply n r o)
unfolding resume
resume-Calm reply n r none w c = c
resume-Calm reply n r (some asleep) w c = record {
  unflagged = c.unflagged;
  uncancelled = c.uncancelled;
  unasked = c.unasked;
  idle = drop-waiting n r.tasks c.idle;
}
resume-Calm true n r (some to_get) w c =
    subst (λ (b : Bool). Calm (if b then move n to_set r else finish n r)) (sym c.unflagged)
      (finish-Calm n r c)
resume-Calm false n r (some to_get) w c = finish-Calm n r c
resume-Calm true n r (some to_set) w c = absurd (ground (arith, w to_set refl))
resume-Calm false n r (some to_set) w c = finish-Calm n r c
resume-Calm true n r (some to_clean) w c = absurd (ground (arith, w to_clean refl))
resume-Calm false n r (some to_clean) w c = finish-Calm n r c
resume-Calm reply n r (some stop_get) w c = finish-Calm n r c
resume-Calm true n r (some stop_set) w c = absurd (ground (arith, w stop_set refl))
resume-Calm false n r (some stop_set) w c = finish-Calm n r c
resume-Calm true n r (some stop_clean) w c = absurd (ground (arith, w stop_clean refl))
resume-Calm false n r (some stop_clean) w c = finish-Calm n r c

run-uncancelled :
    (es : List Event) (r : Registry)
    → no_request es ≡ true
    → Calm r
    → (run_events es r).cancelled ≡ false
unfolding run_events apply run_task
run-uncancelled [] r h c = c.uncancelled
run-uncancelled (request ∷ es) r h c = absurd (ground arith)
run-uncancelled (answer reply n ∷ es) r h c =
    run-uncancelled es (go_on r.asking reply n r) h
      (subst (λ (k : ℕ). Calm (go_on k reply n r)) (sym c.unasked) (unfold go_on in c))
run-uncancelled (revoke reply ∷ es) r h c =
    run-uncancelled es (revoke_cancel reply r) h (revoke-Calm reply r c)
run-uncancelled (turn reply n ∷ es) r h c =
    run-uncancelled es (resume reply n r (stage_of n r.tasks)) h
      (resume-Calm reply n r (stage_of n r.tasks) (λ st g. stage-waiting n r.tasks st c.idle g) c)
run-uncancelled (closes ∷ es) r h c = run-uncancelled es (close r) h (close-Calm r c)
run-uncancelled (pending_expires ∷ es) r h c =
    run-uncancelled es (record r { pending = false }) h
      (record { unflagged = refl; uncancelled = c.uncancelled; unasked = c.unasked; idle = c.idle })
run-uncancelled (cancelled_expires ∷ es) r h c =
    run-uncancelled es (record r { cancelled = false }) h
      (record { unflagged = c.unflagged; uncancelled = refl; unasked = c.unasked; idle = c.idle })

-- A revocation whose DELETE succeeds while no task has read the pending flag, and no request waits for its
-- SETEX, wins: in whatever order the tasks that are left, further revocations, `close` and the expiry of
-- the keys follow, the alert is not cancelled, as long as no new request comes.
pub revoke_cancel-wins :
    (r : Registry) (es : List Event)
    → r.cancelled ≡ false
    → r.asking ≡ 0
    → all_waiting r.tasks ≡ true
    → no_request es ≡ true
    → (run_events es (revoke_cancel true r)).cancelled ≡ false
revoke_cancel-wins r es fresh unasked idle quiet = run-uncancelled es (revoke_cancel true r) quiet (
    unfold revoke_cancel pop_timer in
    record { unflagged = refl; uncancelled = fresh; unasked = unasked; idle = pop-waiting r idle })
