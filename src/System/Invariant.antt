-- ===== src/System/Invariant.antt =====
-- What every run of the server keeps: no living monster is forgotten, and none is due twice.
use lh_server.Prelude.{ℕ, ◌≡◌, ◌≤◌, Bool, List, [], ◌∷◌, some}
use lh_server.World.{Env, Player, DbEvent, Monster, Boss}
use lh_server.World.Timers.{IsQueue}
use lh_server.System.Due.{of_monster, updates_of}
use lh_server.Net.{Client}
use lh_server.Queries.{Dbms, Desk, answer}
use lh_server.Boss.Wear.{IsIntact}
use lh_server.System.{
  System, put_world, boot, complete, ask, Step, accepts, receives, leaves, ticks, completes,
  answers, Reach, here, next,
}
use lh_server.System.Handlers.{Steady-of_Still}
use lh_server.System.Packets.{on_recv-Ticks, disconnect-Ticks, accept-Ticks}
use lh_server.System.Background.{answer-Still}
use lh_server.System.Pending.{IsKept, Ticks-Sound, tick-Sound}
use lh_server.System.Updates.{complete-Sound}
use lh_server.System.Booted.{IsSound, boot-Sound}

ask-Sound :
    (env : Env) (db : Dbms) (memory : Player) (s : System)
    → IsSound s
    → IsSound (ask env db memory s)
unfolding ask
ask-Sound env db memory s k = by_queue s.server.world.queries
  where
    by_queue :
        (qs : List DbEvent)
        → IsSound (elim qs [
          | [] ↦ s
          | ev ∷ evs ↦
              let popped : Desk = record {
                world = record s.server.world { queries = evs };
                updates = s.updates;
              } in
              let done : Desk = answer env db memory ev popped in
              record (put_world done.world s) { updates = done.updates }
        ])
    by_queue [] = k
    by_queue (ev ∷ evs) =
        let popped : Desk = record {
          world = record s.server.world { queries = evs };
          updates = s.updates;
        } in
        let still = answer-Still env db memory ev popped in
        Ticks-Sound s.server.world (answer env db memory ev popped).world s.posted
          (Steady-of_Still s.server.world _ still).ticks k

pub Step-Sound : (s t : System) → Step s t → IsSound s → IsSound t
unfolding complete
Step-Sound s t (accepts memory e) k =
    rw e (Ticks-Sound s.server.world _ s.posted (accept-Ticks memory s.server) k)
Step-Sound s t (receives env db uid bytes e) k =
    rw e (Ticks-Sound s.server.world _ s.posted (on_recv-Ticks env db uid bytes s.server) k)
Step-Sound s t (leaves uid e) k =
    rw e (Ticks-Sound s.server.world _ s.posted (disconnect-Ticks uid s.server) k)
Step-Sound s t (ticks now e) k = rw e (tick-Sound now s k)
Step-Sound s t (completes env before after c p e) k =
    rw e (complete-Sound env before after c s.server.world (rw p at k))
Step-Sound s t (answers env db memory e) k = rw e (ask-Sound env db memory s k)

-- However the threads of the server take turns, and whatever its clients send, no living monster is
-- forgotten, and none is updated by two workers for two timers: in every state that a run of the server
-- reaches from its start, the timers in the queue and the events with the workers that are for a monster
-- are at most one together, and exactly one if the monster is there and is not in the dead state; each
-- monster is at the place of its id; the timer queue is in the order of waking; and each part of the
-- golem has from none up to its first number of hits left, is destroyed exactly if it has none, and, but
-- for the upper arms, has lost its health only if it is destroyed.
pub Reach-Sound :
    (winsock socket height_map : Bool) (env : Env) (memory : ℕ → Client) (monster_memory : Monster)
    (boss_memory : Boss) (s t : System)
    → boot winsock socket height_map env memory monster_memory boss_memory ≡ some s
    → Reach s t
    → IsQueue t.server.world.timers
      × ((i : ℕ) → updates_of (of_monster i) t.server.world.timers t.posted ≤ 1)
      × ((i : ℕ) (m : Monster)
          → t.server.world.monsters i ≡ some m
          → IsKept i m t.server.world.timers t.posted)
      × ((i : ℕ) (b : Boss) → t.server.world.bosses i ≡ some b → IsIntact b)
Reach-Sound winsock socket height_map env memory monster_memory boss_memory s t e r =
    let k = run r in (k.queue, k.once, k.kept, k.golem)
  where
    run : {u : System} → Reach s u → IsSound u
    run here = boot-Sound winsock socket height_map env memory monster_memory boss_memory s e
    run (next q st) = Step-Sound _ _ st (run q)
