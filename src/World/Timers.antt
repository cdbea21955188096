-- ===== src/World/Timers.antt =====
-- The timer queue: AddTimer of Server/Event.cpp, on a priority queue whose top wakes first. The queue
-- is kept as the list of its events in the order in which they leave it; of two events with one time
-- the one that was added first leaves first, where the library leaves the order open.
use lh_server.Prelude.{ℕ, ◌≤◌, List, [], ◌∷◌, leb, if◌then◌else◌, ℤ, arith}
use lh_server.World.{World, Event, EventId}

unfoldable pub push : Event → List Event → List Event
push e [] = e ∷ []
push e (x ∷ xs) = if leb x.wakeup_time e.wakeup_time then x ∷ push e xs else e ∷ x ∷ xs

unfoldable pub add_timer : ℕ → EventId → ℕ → ℤ → World → World
add_timer oid event_type time target w = record w {
  timers =
      push (record { obj_id = oid; event_id = event_type; wakeup_time = time; target_id = target })
        w.timers;
}

-- The queue is in the order of waking.
abbrev pub AllAfter : ℕ → List Event → Type 0
AllAfter t [] = Unit {0}
AllAfter t (x ∷ xs) = (t ≤ x.wakeup_time) × AllAfter t xs

abbrev pub IsQueue : List Event → Type 0
IsQueue [] = Unit {0}
IsQueue (x ∷ xs) = AllAfter x.wakeup_time xs × IsQueue xs

AllAfter-push :
    (t : ℕ) (e : Event) (xs : List Event)
    → t ≤ e.wakeup_time
    → AllAfter t xs
    → AllAfter t (push e xs)
unfolding push
AllAfter-push t e [] h a = (h, tt)
AllAfter-push t e (x ∷ xs) h a = ground (arith, AllAfter-push t e xs)

pub AllAfter-mono : (s t : ℕ) (xs : List Event) → s ≤ t → AllAfter t xs → AllAfter s xs
AllAfter-mono s t [] h a = tt
AllAfter-mono s t (x ∷ xs) h a = (omega arith, AllAfter-mono s t xs h a.1)

-- A queue in the order of waking stays in this order when an event is added, whatever its time is.
pub push-IsQueue : (e : Event) (xs : List Event) → IsQueue xs → IsQueue (push e xs)
unfolding push
push-IsQueue e [] q = (tt, tt)
push-IsQueue e (x ∷ xs) q = ground (
  arith,
  push-IsQueue e xs,
  AllAfter-push x.wakeup_time e xs,
  AllAfter-mono e.wakeup_time x.wakeup_time xs,
)
