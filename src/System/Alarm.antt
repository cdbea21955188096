-- ===== src/System/Alarm.antt =====
-- How often the golem is due for an update.
use lh_server.Prelude.{
  ℕ, ◌+◌, ◌≤◌, ◌≡◌, refl, ap, subst, ◌∙◌, Bool, true, false, List, [], ◌∷◌, some, inl, inr, arith,
}
use lh_server.World.{
  World, Env, Player, Monster, Boss, DbEvent, EventId, ev_monster, ev_boss, ev_fireball,
}
use lh_server.World.Timers.{push, add_timer}
use lh_server.Monster.States.Schedule.{update-Schedules, timer}
use lh_server.Net.{Client}
use lh_server.Queries.{Dbms, Desk, answer}
use lh_server.Dispatch.{on_event}
use lh_server.Start.{Spawn, spawn_monster, spawn_all, spawns, create_monsters}
use lh_server.System.{
  System, put_world, boot, complete, ask, Step, accepts, receives, leaves, ticks, completes,
  answers, Reach, here, next,
}
use lh_server.System.Due.{
  of_boss, timers_of, posts_of, updates_of, one_if, timers_of-push, posts_of-taken,
  posts_of-boss_posts,
}
use lh_server.System.Golem.{on_boss-Wakes}
use lh_server.System.Wakes.{Wakes-calls}
use lh_server.System.Background.{answer-Still, fireball_update-Steady}
use lh_server.System.Packets.{on_recv-Ticks, disconnect-Ticks, accept-Ticks}
use lh_server.System.Pending.{tick_updates}
use lh_server.System.Updates.{on_monster-cases}
use lh_server.System.Booted.{IsSound, the_system, boot-Sound}
use lh_server.System.Invariant.{Step-Sound}

-- The golem's timers in the queue and its events with the workers.
abbrev pub calls : System → ℕ
calls s = updates_of of_boss s.server.world.timers s.posted

on_monster-calls :
    (env : Env) (key : ℕ) (w : World)
    → timers_of of_boss (on_event env key ev_monster w).timers ≡ timers_of of_boss w.timers
on_monster-calls env key w = elim (on_monster-cases env key w) [
  | inl e ↦ ap (λ (u : World). timers_of of_boss u.timers) e
  | inr (m, e, alive, u) ↦
      let (delay, soon, timers, there, others, bosses, seats) =
        update-Schedules env key w m e alive in
      ap (λ (v : World). timers_of of_boss v.timers) u
      ∙ (ap (timers_of of_boss) timers
          ∙ (timers_of-push of_boss (timer env m.id delay) w.timers ∙ omega arith))
]

on_event-calls :
    (env : Env) (key : ℕ) (op : EventId) (w : World)
    → timers_of of_boss (on_event env key op w).timers
      ≤ one_if (of_boss op key) + timers_of of_boss w.timers
unfolding on_event
on_event-calls env key ev_monster w = omega (arith, on_monster-calls env key w)
on_event-calls env key ev_boss w =
    omega (arith, Wakes-calls w (on_event env key ev_boss w) (on_boss-Wakes env key w))
on_event-calls env key ev_fireball w = omega (arith, (fireball_update-Steady env key w).ticks.calls)
on_event-calls env key _ w = omega arith

ask-calls :
    (env : Env) (db : Dbms) (memory : Player) (s : System) → calls (ask env db memory s) ≡ calls s
unfolding ask
ask-calls env db memory s = by_queue s.server.world.queries
  where
    by_queue :
        (qs : List DbEvent)
        → calls (elim qs as (λ x. System) [
          | [] ↦ s
          | ev ∷ evs ↦
              let popped : Desk = record {
                world = record s.server.world { queries = evs };
                updates = s.updates;
              } in
              let done : Desk = answer env db memory ev popped in
              record (put_world done.world s) { updates = done.updates }
        ])
          ≡ calls s
    by_queue [] = refl
    by_queue (ev ∷ evs) =
        let popped : Desk = record {
          world = record s.server.world { queries = evs };
          updates = s.updates;
        } in
        ap (λ ts. updates_of of_boss ts s.posted) (answer-Still env db memory ev popped).1

-- No step makes the golem due once more.
Step-calls : (s t : System) → Step s t → IsSound s → calls t ≤ calls s
unfolding complete
Step-calls s t (accepts memory e) k = rw e (omega (arith, (accept-Ticks memory s.server).calls))
Step-calls s t (receives env db uid bytes e) k =
    rw e (omega (arith, (on_recv-Ticks env db uid bytes s.server).calls))
Step-calls s t (leaves uid e) k = rw e (omega (arith, (disconnect-Ticks uid s.server).calls))
Step-calls s t (ticks now e) k =
    rw e (omega (arith, tick_updates of_boss posts_of-boss_posts now s k.queue))
Step-calls s t (completes env before after c p e) k = rw e (
    omega (
      arith,
      on_event-calls env c.key c.op s.server.world,
      posts_of-taken of_boss before after c,
      ap (posts_of of_boss) p,
    ))
Step-calls s t (answers env db memory e) k = rw e (omega (arith, ask-calls env db memory s))

spawn_all-calls :
    (env : Env) (memory : Monster) (ss : List Spawn) (w : World)
    → timers_of of_boss (spawn_all env memory ss w).timers ≡ timers_of of_boss w.timers
unfolding spawn_all spawn_monster add_timer
spawn_all-calls env memory [] w = refl
spawn_all-calls env memory (s ∷ ss) w =
    spawn_all-calls env memory ss (spawn_monster env memory s w)
    ∙ (timers_of-push of_boss _ w.timers ∙ omega arith)

boot-calls :
    (winsock socket height_map : Bool) (env : Env) (memory : ℕ → Client) (monster_memory : Monster)
    (boss_memory : Boss) (s : System)
    → boot winsock socket height_map env memory monster_memory boss_memory ≡ some s
    → calls s ≤ 1
unfolding boot create_monsters add_timer push
boot-calls false socket height_map env memory monster_memory boss_memory s e =
    absurd (ground (arith, e))
boot-calls true false height_map env memory monster_memory boss_memory s e =
    absurd (ground (arith, e))
boot-calls true true false env memory monster_memory boss_memory s e = absurd (ground (arith, e))
boot-calls true true true env memory monster_memory boss_memory s e =
    subst (λ x. calls x ≤ 1) (the_system _ s e)
      (omega (arith, spawn_all-calls env monster_memory spawns _))

-- However the threads of the server take turns, and whatever its clients send, the golem is never due for
-- two updates: in every state that a run of the server reaches from its start, its timers in the queue and its
-- events with the workers are at most one together, and in no later state they are more. So a golem that
-- is due for none is never updated again.
pub Reach-calls :
    (winsock socket height_map : Bool) (env : Env) (memory : ℕ → Client) (monster_memory : Monster)
    (boss_memory : Boss) (s t u : System)
    → boot winsock socket height_map env memory monster_memory boss_memory ≡ some s
    → Reach s t
    → Reach t u
    → (calls t ≤ 1) × (calls u ≤ calls t)
Reach-calls winsock socket height_map env memory monster_memory boss_memory s t u e r q =
    let first =
      run (boot-Sound winsock socket height_map env memory monster_memory boss_memory s e) r in
    (
      omega (
        arith,
        first.1,
        boot-calls winsock socket height_map env memory monster_memory boss_memory s e,
      ),
      (run first.0 q).1,
    )
  where
    run : {x y : System} → IsSound x → Reach x y → IsSound y × (calls y ≤ calls x)
    run k here = (k, omega arith)
    run k (next q st) =
        let before = run k q in
        (Step-Sound _ _ st before.0, omega (arith, before.1, Step-calls _ _ st before.0))
