-- ===== src/System/Wear.antt =====
-- What every run of the server does to the golem: its parts only wear down.
use lh_server.Prelude.{
  ℕ, zero, suc, ◌≡◌, refl, ap, ◌∙◌, List, [], ◌∷◌, some, inl, inr, Bool-cases, ltb, length,
}
use lh_server.World.{World, Env, Player, Boss, DbEvent, EventId, ev_monster, ev_boss, ev_fireball}
use lh_server.Boss.Wear.{Worn, Worn-refl, Worn-trans}
use lh_server.Monster.States.Schedule.{update-Schedules}
use lh_server.Timer.{run_due}
use lh_server.Queries.{Dbms, Desk, answer}
use lh_server.Dispatch.{on_event}
use lh_server.System.{
  System, put_world, complete, ask, tick, Step, accepts, receives, leaves, ticks, completes,
  answers, Reach, here, next,
}
use lh_server.System.Packets.{on_recv-Ticks, disconnect-Ticks, accept-Ticks}
use lh_server.System.Background.{answer-Still, fireball_update-Steady}
use lh_server.System.Golem.{on_boss-Wakes}
use lh_server.System.Wakes.{Wakes-golem}
use lh_server.System.Updates.{on_monster-cases}
use lh_server.World.{Event}
use lh_server.Timer.{Completion, fire}
use lh_server.System.Background.{fire-Still}

-- From `w` to `v` the golem wears down, and no other comes.
abbrev pub Wears : World → World → Type 0
Wears w v = (i : ℕ) (b : Boss) → v.bosses i ≡ some b → (a : Boss) × (w.bosses i ≡ some a) × Worn a b

unchanged : (w v : World) → v.bosses ≡ w.bosses → Wears w v
unchanged w v e = λ i b f. (b, rw e at f, Worn-refl b)

on_monster-Wears : (env : Env) (key : ℕ) (w : World) → Wears w (on_event env key ev_monster w)
on_monster-Wears env key w = elim (on_monster-cases env key w) [
  | inl e ↦ unchanged w (on_event env key ev_monster w) (ap (λ (u : World). u.bosses) e)
  | inr (m, e, alive, u) ↦
      let (delay, soon, timers, there, others, bosses, seats) =
        update-Schedules env key w m e alive in
      unchanged w (on_event env key ev_monster w) (ap (λ (v : World). v.bosses) u ∙ bosses)
]

on_event-Wears : (env : Env) (key : ℕ) (op : EventId) (w : World) → Wears w (on_event env key op w)
unfolding on_event
on_event-Wears env key ev_monster w = on_monster-Wears env key w
on_event-Wears env key ev_boss w = Wakes-golem w _ (on_boss-Wakes env key w)
on_event-Wears env key ev_fireball w = (fireball_update-Steady env key w).ticks.golem
on_event-Wears env key _ w = unchanged w w refl

run_due-bosses :
    (fuel now : ℕ) (queue : List Event) (w : World) (posted : List Completion)
    → w.timers ≡ queue
    → (run_due fuel now w posted).0.bosses ≡ w.bosses
unfolding run_due
run_due-bosses zero now queue w posted h = refl
run_due-bosses (suc fuel) now [] w posted h = rw (h, run_due) refl
run_due-bosses (suc fuel) now (e ∷ es) w posted h = elim (Bool-cases (ltb now e.wakeup_time)) [
  | inl early ↦ rw (h, run_due, early) refl
  | inr due ↦
      rw (h, run_due, due)
        (run_due-bosses fuel now _ (fire now e (record w { timers = es })) _ refl
          ∙ (fire-Still now e (record w { timers = es })).2)
]

ask-Wears :
    (env : Env) (db : Dbms) (memory : Player) (s : System)
    → Wears s.server.world (ask env db memory s).server.world
unfolding ask
ask-Wears env db memory s = by_queue s.server.world.queries
  where
    by_queue :
        (qs : List DbEvent)
        → Wears s.server.world
            (elim qs as (λ x. System) [
              | [] ↦ s
              | ev ∷ evs ↦
                  let popped : Desk = record {
                    world = record s.server.world { queries = evs };
                    updates = s.updates;
                  } in
                  let done : Desk = answer env db memory ev popped in
                  record (put_world done.world s) { updates = done.updates }
            ]).server.world
    by_queue [] = unchanged s.server.world s.server.world refl
    by_queue (ev ∷ evs) =
        let popped : Desk = record {
          world = record s.server.world { queries = evs };
          updates = s.updates;
        } in
        unchanged s.server.world (answer env db memory ev popped).world
          (answer-Still env db memory ev popped).2

Step-Wears : (s t : System) → Step s t → Wears s.server.world t.server.world
unfolding complete tick
Step-Wears s t (accepts memory e) = rw e (accept-Ticks memory s.server).golem
Step-Wears s t (receives env db uid bytes e) = rw e (on_recv-Ticks env db uid bytes s.server).golem
Step-Wears s t (leaves uid e) = rw e (disconnect-Ticks uid s.server).golem
Step-Wears s t (ticks now e) = rw e (
    unchanged s.server.world (run_due (suc (length s.server.world.timers)) now s.server.world []).0
      (run_due-bosses (suc (length s.server.world.timers)) now _ s.server.world [] refl))
Step-Wears s t (completes env before after c p e) =
    rw e (on_event-Wears env c.key c.op s.server.world)
Step-Wears s t (answers env db memory e) = rw e (ask-Wears env db memory s)

-- Whatever happens, the golem only wears down: a golem that is there in a later state of the server was
-- there before, with its id; none of its parts has more hits left than it had, none that was destroyed is
-- whole again, and parts that were in order are so still.
pub Reach-Wears :
    (s t : System)
    → Reach s t
    → (i : ℕ) (b : Boss) → t.server.world.bosses i ≡ some b
    → (a : Boss) × (s.server.world.bosses i ≡ some a) × Worn a b
Reach-Wears s t here i b e = (b, e, Worn-refl b)
Reach-Wears s t (next {t = v} q st) i b e =
    let (a, f, worn) = Step-Wears v t st i b e in
    let (z, g, worn') = Reach-Wears s v q i a f in (z, g, Worn-trans z a b worn' worn)
