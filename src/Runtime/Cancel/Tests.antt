-- ===== src/Runtime/Cancel/Tests.antt =====
-- services/_runtime/cancel.py: a cancellation that takes effect, one that is revoked, and the theorem.
use cyber_security_alert_tri.Common.{true, false, none, some, List, [], ◌∷◌, ◌≡◌, refl}
use cyber_security_alert_tri.Runtime.Cancel.{
  Registry, Event, request, answer, go_on, revoke, turn, asleep, apply, run_events, run_task,
  resume, request_cancel, revoke_cancel, pop_timer, stage_of, drop_task, is_cancelled,
}
use cyber_security_alert_tri.Runtime.Cancel.Grace.{revoke_cancel-wins}

abbrev fresh : Registry
fresh = record { pending = false; cancelled = false; asking = 0; timer = none; tasks = [] }

-- The sleep, the GET, the SETEX and the DELETE.
abbrev four_turns : List Event
four_turns = turn true 1 ∷ turn true 1 ∷ turn true 1 ∷ turn true 1 ∷ []

-- Nobody revokes: the task ends with the alert cancelled.
fired : run_events (request ∷ answer true 1 ∷ four_turns) fresh ≡ record fresh { cancelled = true }
unfolding run_events apply run_task resume request_cancel go_on pop_timer stage_of drop_task
fired = refl

read_after_fire : is_cancelled true (record fresh { cancelled = true }) ≡ true
unfolding is_cancelled
read_after_fire = refl

-- A revocation after the GET comes too late where the SETEX has reached Redis.
too_late :
    (run_events
      (request ∷ answer true 1 ∷ turn true 1 ∷ turn true 1 ∷ revoke true ∷ turn true 1 ∷ [])
      fresh).cancelled
    ≡ true
unfolding run_events apply run_task resume request_cancel go_on revoke_cancel pop_timer stage_of
    drop_task
too_late = refl

-- A request that still waits for its SETEX goes on after a revocation, and the alert is cancelled.
overtaken : (run_events (request ∷ revoke true ∷ answer true 1 ∷ four_turns) fresh).cancelled ≡ true
unfolding run_events apply run_task resume request_cancel go_on revoke_cancel pop_timer stage_of
    drop_task
overtaken = refl

abbrev waiting_task : Registry
waiting_task = record {
  pending = true;
  cancelled = false;
  asking = 0;
  timer = some 1;
  tasks = (1, asleep) ∷ [];
}

revoke_cancel-wins_example :
    (run_events four_turns (revoke_cancel true waiting_task)).cancelled ≡ false
revoke_cancel-wins_example = revoke_cancel-wins waiting_task four_turns refl refl refl refl
