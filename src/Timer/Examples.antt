-- ===== src/Timer/Examples.antt =====
-- A round of the timer thread with two events due and one later.
use lh_server.Prelude.{ℕ, [], ◌∷◌, pos, arith, length, suc}
use lh_server.World.{World, Event, EventId, ev_monster, ev_guard_off, ev_boss}
use lh_server.World.Samples.{field}
use lh_server.World.Timers.{IsQueue}
use lh_server.Timer.{run_due}
use lh_server.Timer.Drain.{Drained, run_due_lem}

abbrev event : ℕ → EventId → ℕ → Event
event id op t = record { obj_id = id; event_id = op; wakeup_time = t; target_id = pos 0 }

abbrev busy : World
busy = record field {
  timers = event 3 ev_guard_off 4 ∷ event 10000 ev_monster 5 ∷ event 20000 ev_boss 9 ∷ [];
}

busy-IsQueue : IsQueue busy.timers
busy-IsQueue = ((omega arith, (omega arith, tt)), ((omega arith, tt), (tt, tt)))

run_due_lem_example : Drained 6 busy [] (run_due (suc (length busy.timers)) 6 busy [])
run_due_lem_example = run_due_lem 6 busy busy-IsQueue
