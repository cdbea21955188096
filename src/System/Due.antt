-- ===== src/System/Due.antt =====
-- How often a monster or the golem is due for an update: the timers in the queue, and the events with
-- the workers.
use lh_server.Prelude.{
  ℕ, ◌+◌, ◌≡◌, refl, ◌∙◌, Bool, true, false, List, [], ◌∷◌, ◌++◌, ◌==◌, ◌&&◌, arith,
}
use lh_server.World.{Event, EventId}
use lh_server.World.Timers.{push}
use lh_server.Start.Timers.{is_monster_event, is_boss_event}
use lh_server.Timer.{Completion, posts}
use lh_server.Timer.Drain.{posts_all}

abbrev pub one_if : Bool → ℕ
one_if true = 1
one_if false = 0

-- The events of the monster `i`, and those of the golem.
abbrev pub of_monster : ℕ → EventId → ℕ → Bool
of_monster i op key = is_monster_event op && key == i

abbrev pub of_boss : EventId → ℕ → Bool
of_boss op key = is_boss_event op

-- The timers in the queue that count.
abbrev pub timers_of : (EventId → ℕ → Bool) → List Event → ℕ
timers_of counts [] = 0
timers_of counts (e ∷ es) = one_if (counts e.event_id e.obj_id) + timers_of counts es

-- The events that have been posted to the workers and count.
abbrev pub posts_of : (EventId → ℕ → Bool) → List Completion → ℕ
posts_of counts [] = 0
posts_of counts (c ∷ cs) = one_if (counts c.op c.key) + posts_of counts cs

-- How many updates are due.
abbrev pub updates_of : (EventId → ℕ → Bool) → List Event → List Completion → ℕ
updates_of counts timers posted = timers_of counts timers + posts_of counts posted

pub timers_of-push :
    (counts : EventId → ℕ → Bool) (e : Event) (es : List Event)
    → timers_of counts (push e es) ≡ one_if (counts e.event_id e.obj_id) + timers_of counts es
unfolding push
timers_of-push counts e [] = refl
timers_of-push counts e (x ∷ xs) = ground (arith, timers_of-push counts e xs)

pub timers_of-append :
    (counts : EventId → ℕ → Bool) (xs ys : List Event)
    → timers_of counts (xs ++ ys) ≡ timers_of counts xs + timers_of counts ys
timers_of-append counts [] ys = omega arith
timers_of-append counts (x ∷ xs) ys = omega (arith, timers_of-append counts xs ys)

pub posts_of-append :
    (counts : EventId → ℕ → Bool) (xs ys : List Completion)
    → posts_of counts (xs ++ ys) ≡ posts_of counts xs + posts_of counts ys
posts_of-append counts [] ys = omega arith
posts_of-append counts (x ∷ xs) ys = omega (arith, posts_of-append counts xs ys)

pub posts_of-posts :
    (i : ℕ) (e : Event)
    → posts_of (of_monster i) (posts e) ≡ one_if (of_monster i e.event_id e.obj_id)
unfolding posts
posts_of-posts i e = ground arith

pub posts_of-boss_posts :
    (e : Event) → posts_of of_boss (posts e) ≡ one_if (of_boss e.event_id e.obj_id)
unfolding posts
posts_of-boss_posts e = ground arith

-- A timer that has gone off is an event for the workers.
pub posts_of-posts_all :
    (counts : EventId → ℕ → Bool)
    → ((e : Event) → posts_of counts (posts e) ≡ one_if (counts e.event_id e.obj_id))
    → (due : List Event) → posts_of counts (posts_all due) ≡ timers_of counts due
unfolding posts_all
posts_of-posts_all counts h [] = refl
posts_of-posts_all counts h (e ∷ es) =
    posts_of-append counts (posts e) (posts_all es)
    ∙ omega (arith, h e, posts_of-posts_all counts h es)

-- The event that a worker takes.
pub posts_of-taken :
    (counts : EventId → ℕ → Bool) (before after : List Completion) (c : Completion)
    → posts_of counts (before ++ c ∷ after)
      ≡ one_if (counts c.op c.key) + posts_of counts (before ++ after)
posts_of-taken counts before after c =
    omega (arith, posts_of-append counts before (c ∷ after), posts_of-append counts before after)
