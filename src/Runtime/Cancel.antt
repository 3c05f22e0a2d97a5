-- ===== src/Runtime/Cancel.antt =====
-- services/_runtime/cancel.py: the cancellation of one alert, with its grace timers, as steps between
-- which the event loop may do anything else. `revoke_cancel` and its DELETE, after which it does no more,
-- are one step. Keys and timers of different alerts are apart. The registry has a Redis client, and
-- a command that raises has changed nothing.
pub mod Grace
mod Tests
use cyber_security_alert_tri.Common.{
  ℕ, zero, suc, Bool, true, false, ◌&&◌, Option, none, some, List, [], ◌∷◌, nat_eq, if◌then◌else◌,
}

-- What a task of `_fire_after_grace` waits for: its sleep, the GET, the SETEX or the DELETE; or the same
-- command after its own cancellation, which ends it.
pub data Stage : Type 0 where
  asleep to_get to_set to_clean stop_get stop_set stop_clean : Stage

-- The two flags in Redis, the calls of `request_cancel` that wait for their SETEX, the entry of `_timers`, and
-- the tasks that have not ended.
pub record Registry : Type 0 where
  pub pending : Bool
  pub cancelled : Bool
  pub asking : ℕ
  pub timer : Option ℕ
  pub tasks : List (ℕ × Stage)

pub stage_of : ℕ → List (ℕ × Stage) → Option Stage
stage_of n [] = none
stage_of n ((k, st) ∷ ts) = if nat_eq k n then some st else stage_of n ts

pub drop_task : ℕ → List (ℕ × Stage) → List (ℕ × Stage)
drop_task n [] = []
drop_task n ((k, st) ∷ ts) =
    let rest = drop_task n ts in if nat_eq k n then rest else (k, st) ∷ rest

abbrev pub put_task : ℕ → Stage → List (ℕ × Stage) → List (ℕ × Stage)
put_task n st ts = (n, st) ∷ drop_task n ts

-- `task.cancel()`: a task that sleeps ends at once, any other at the command it waits for.
abbrev pub cancelled_at : ℕ → Option Stage → List (ℕ × Stage) → List (ℕ × Stage)
cancelled_at n none ts = ts
cancelled_at n (some asleep) ts = drop_task n ts
cancelled_at n (some to_get) ts = put_task n stop_get ts
cancelled_at n (some to_set) ts = put_task n stop_set ts
cancelled_at n (some to_clean) ts = put_task n stop_clean ts
cancelled_at n (some st) ts = ts

abbrev pub cancel_timer : Option ℕ → List (ℕ × Stage) → List (ℕ × Stage)
cancel_timer none ts = ts
cancel_timer (some n) ts = cancelled_at n (stage_of n ts) ts

-- `self._timers.pop(alert_id, None)`, and the cancellation of a task that was there and not done.
pub pop_timer : Registry → Registry
pop_timer r = record r { timer = none; tasks = cancel_timer r.timer r.tasks }

-- `is_cancelled`: whether GET succeeds.
pub is_cancelled : Bool → Registry → Bool
is_cancelled reply r = reply && r.cancelled

-- `request_cancel` until it waits for its SETEX.
pub request_cancel : Registry → Registry
request_cancel r = record (pop_timer r) { asking = suc r.asking }

-- One of the calls that wait goes on: whether its SETEX succeeds, and the new task.
pub go_on : ℕ → Bool → ℕ → Registry → Registry
go_on zero reply n r = r
go_on (suc k) true n r = record r {
  asking = k;
  pending = true;
  timer = some n;
  tasks = put_task n asleep r.tasks;
}
go_on (suc k) false n r = record r { asking = k }

-- `revoke_cancel`: whether DELETE succeeds.
pub revoke_cancel : Bool → Registry → Registry
revoke_cancel true r = record (pop_timer r) { pending = false }
revoke_cancel false r = pop_timer r

-- `close`: every timer is cancelled and forgotten.
pub close : Registry → Registry
close r = pop_timer r

-- The `finally` of `_fire_after_grace`, which pops whatever timer is registered.
abbrev pub finish : ℕ → Registry → Registry
finish n r = record r { timer = none; tasks = drop_task n r.tasks }

abbrev pub move : ℕ → Stage → Registry → Registry
move n st r = record r { tasks = put_task n st r.tasks }

-- `_fire_after_grace` from one await to the next: whether the command succeeds. A command whose task was
-- cancelled may have reached Redis.
pub resume : Bool → ℕ → Registry → Option Stage → Registry
resume reply n r none = r
resume reply n r (some asleep) = move n to_get r
resume reply n r (some to_get) = if reply && r.pending then move n to_set r else finish n r
resume true n r (some to_set) = record (move n to_clean r) { cancelled = true }
resume false n r (some to_set) = finish n r
resume true n r (some to_clean) = record (finish n r) { pending = false }
resume false n r (some to_clean) = finish n r
resume reply n r (some stop_get) = finish n r
resume true n r (some stop_set) = record (finish n r) { cancelled = true }
resume false n r (some stop_set) = finish n r
resume true n r (some stop_clean) = record (finish n r) { pending = false }
resume false n r (some stop_clean) = finish n r

pub run_task : Bool → ℕ → Registry → Registry
run_task reply n r = resume reply n r (stage_of n r.tasks)

-- What can happen next: a call, the answer to a SETEX, the turn of a task, or the expiry of a key.
pub data Event : Type 0 where
  request : Event
  answer : Bool → ℕ → Event
  revoke : Bool → Event
  turn : Bool → ℕ → Event
  closes pending_expires cancelled_expires : Event

pub apply : Event → Registry → Registry
apply request r = request_cancel r
apply (answer reply n) r = go_on r.asking reply n r
apply (revoke reply) r = revoke_cancel reply r
apply (turn reply n) r = run_task reply n r
apply closes r = close r
apply pending_expires r = record r { pending = false }
apply cancelled_expires r = record r { cancelled = false }

pub run_events : List Event → Registry → Registry
run_events [] r = r
run_events (e ∷ es) r = run_events es (apply e r)
