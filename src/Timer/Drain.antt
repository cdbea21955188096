-- ===== src/Timer/Drain.antt =====
-- What a round of the timer thread runs, and what it leaves in the queue.
use lh_server.Prelude.{
  ℕ, zero, suc, ◌≤◌, ◌<◌, ◌≡◌, refl, sym, ap, ◌∙◌, List, [], ◌∷◌, ◌++◌, ltb, length, Bool-cases,
  inl, inr, arith, append_assoc, append-nil,
}
use lh_server.World.{World, Event, crash, with_player}
use lh_server.World.Timers.{IsQueue, AllAfter, AllAfter-mono}
use lh_server.Player.Combat.{berserk_off}
use lh_server.Timer.{Completion, unless_null, fire, posts, run_due}

fire-timers : (now : ℕ) (e : Event) (w : World) → (fire now e w).timers ≡ w.timers
unfolding fire unless_null berserk_off with_player crash
fire-timers now e w = ground arith

abbrev pub AllDue : ℕ → List Event → Type 0
AllDue now [] = Unit {0}
AllDue now (e ∷ es) = (e.wakeup_time ≤ now) × AllDue now es

-- The events fire in turn; what they post, in their order.
unfoldable pub fire_all : ℕ → List Event → World → World
fire_all now [] w = w
fire_all now (e ∷ es) w = fire_all now es (fire now e w)

unfoldable pub posts_all : List Event → List Completion
posts_all [] = []
posts_all (e ∷ es) = posts e ++ posts_all es

fire_timers_set :
    (now : ℕ) (e : Event) (w : World) (queue : List Event)
    → fire now e (record w { timers = queue }) ≡ record (fire now e w) { timers = queue }
unfolding fire unless_null berserk_off with_player crash
fire_timers_set now e w queue = ground arith

-- A split of the queue into what is due and what is later.
pub record Drained (now : ℕ) (w : World) (posted : List Completion) (r : World × List Completion)
    : Type 0 where
  pub due : List Event
  pub split : w.timers ≡ due ++ r.0.timers
  pub run : AllDue now due
  pub later : AllAfter (suc now) r.0.timers
  pub left : IsQueue r.0.timers
  pub fired : r.0 ≡ fire_all now due (record w { timers = r.0.timers })
  pub post : r.1 ≡ posted ++ posts_all due

run_due-Drained :
    (fuel now : ℕ) (queue : List Event) (w : World) (posted : List Completion)
    → w.timers ≡ queue
    → IsQueue queue
    → length queue < fuel
    → Drained now w posted (run_due fuel now w posted)
unfolding run_due posts_all fire_all
run_due-Drained zero now queue w posted e q h = absurd (omega arith)
run_due-Drained (suc fuel) now [] w posted e q h = rw e (record {
  due = [];
  split = refl;
  run = tt;
  later = tt;
  left = tt;
  fired = refl;
  post = sym (append-nil posted);
})
run_due-Drained (suc fuel) now (x ∷ xs) w posted e q h = elim (Bool-cases (ltb now x.wakeup_time)) [
  | inl h' ↦ rw e (
      rw h' (record {
        due = [];
        split = refl;
        run = tt;
        later = (ground arith, AllAfter-mono (suc now) x.wakeup_time xs (ground arith) q.0);
        left = q;
        fired = refl;
        post = sym (append-nil posted);
      }))
  | inr h' ↦
      let popped : World = record w { timers = xs } in
      let r =
        run_due-Drained fuel now xs (fire now x popped) (posted ++ posts x)
          (fire-timers now x popped) q.1 (omega arith) in
      let r_queue : List Event =
        (run_due fuel now (fire now x popped) (posted ++ posts x)).0.timers in
      rw e (
        rw h' (record {
          due = x ∷ r.due;
          split = ap (◌∷◌ x) (sym (fire-timers now x popped) ∙ r.split);
          run = (ground arith, r.run);
          later = r.later;
          left = r.left;
          fired = r.fired ∙ ap (fire_all now r.due) (sym (fire_timers_set now x popped r_queue));
          post = r.post ∙ append_assoc posted (posts x) (posts_all r.due);
        }))
]

-- One round of the timer thread on a queue in order takes off exactly the events that are due: the
-- objects are what these events make of them in the order of their times, the worker threads get what
-- they post in this order, and the queue that is left is in order and later than now. As many rounds as there are events, and one more, are enough.
pub run_due_lem :
    (now : ℕ) (w : World)
    → IsQueue w.timers
    → Drained now w [] (run_due (suc (length w.timers)) now w [])
run_due_lem now w q = run_due-Drained (suc (length w.timers)) now w.timers w [] refl q (omega arith)
