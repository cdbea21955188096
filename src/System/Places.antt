-- ===== src/System/Places.antt =====
-- What every run of the server keeps of its clients: who is connected has a player in its slot.
use lh_server.Prelude.{
  ℕ, ◌<◌, zero, suc, ◌≡◌, refl, ap, ◌∙◌, Bool, true, false, List, [], ◌∷◌, Option, none, some, inl,
  inr, Bool-cases, ltb, length, arith,
}
use lh_server.World.{
  max_player, World, Env, Player, Monster, Boss, DbEvent, Event, EventId, ev_monster, ev_boss,
  ev_fireball,
}
use lh_server.World.Seats.{Seats, id_of, id_at}
use lh_server.Monster.States.Schedule.{update-Schedules}
use lh_server.Net.{Client}
use lh_server.Timer.{Completion, run_due, fire}
use lh_server.Queries.{Dbms, Desk, answer}
use lh_server.Dispatch.{on_event}
use lh_server.System.{
  System, put_world, boot, complete, ask, tick, Step, accepts, receives, leaves, ticks, completes,
  answers, Reach, here, next,
}
use lh_server.System.Golem.{on_boss-Wakes}
use lh_server.System.Wakes.{Wakes-Seats}
use lh_server.System.Background.{answer-Still, fireball_update-Steady, fire-Still}
use lh_server.System.Updates.{on_monster-cases}
use lh_server.System.Clients.{
  Places, Seats-Places, accept-Places, disconnect-Places, on_recv-Places,
}

on_monster-Seats : (env : Env) (key : ℕ) (w : World) → Seats w (on_event env key ev_monster w)
on_monster-Seats env key w i h = elim (on_monster-cases env key w) [
  | inl e ↦ ap (λ (u : World). id_at u.players i) e ∙ h
  | inr (m, e, alive, u) ↦
      let (delay, soon, timers, there, others, bosses, seats) =
        update-Schedules env key w m e alive in
      ap (λ (v : World). id_at v.players i) u ∙ seats i h
]

on_event-Seats : (env : Env) (key : ℕ) (op : EventId) (w : World) → Seats w (on_event env key op w)
unfolding on_event
on_event-Seats env key ev_monster w = on_monster-Seats env key w
on_event-Seats env key ev_boss w = Wakes-Seats w _ (on_boss-Wakes env key w)
on_event-Seats env key ev_fireball w = (fireball_update-Steady env key w).seats
on_event-Seats env key _ w = λ i h. h

run_due-Seats :
    (fuel now : ℕ) (queue : List Event) (w : World) (posted : List Completion)
    → w.timers ≡ queue
    → Seats w (run_due fuel now w posted).0
unfolding run_due
run_due-Seats zero now queue w posted t i h = h
run_due-Seats (suc fuel) now [] w posted t i h = rw (t, run_due) h
run_due-Seats (suc fuel) now (e ∷ es) w posted t i h = elim (Bool-cases (ltb now e.wakeup_time)) [
  | inl early ↦ rw (t, run_due, early) h
  | inr due ↦
      rw (t, run_due, due)
        (run_due-Seats fuel now _ (fire now e (record w { timers = es })) _ refl i
          ((fire-Still now e (record w { timers = es })).3 i h))
]

-- The clients of the system are in their places.
abbrev IsPlaced : System → Type 0
IsPlaced s = Places s.server.connected s.server.world.players

ask-IsPlaced :
    (env : Env) (db : Dbms) (memory : Player) (s : System)
    → IsPlaced s
    → IsPlaced (ask env db memory s)
unfolding ask
ask-IsPlaced env db memory s k = by_queue s.server.world.queries
  where
    by_queue :
        (qs : List DbEvent)
        → IsPlaced (elim qs [
          | [] ↦ s
          | ev ∷ evs ↦
              let popped : Desk = record {
                world = record s.server.world { queries = evs };
                updates = s.updates;
              } in
              let done : Desk = answer env db memory ev popped in
              record (put_world done.world s) { updates = done.updates }
        ])
    by_queue [] = k
    by_queue (ev ∷ evs) =
        let popped : Desk = record {
          world = record s.server.world { queries = evs };
          updates = s.updates;
        } in
        Seats-Places s.server.connected s.server.world (answer env db memory ev popped).world
          (answer-Still env db memory ev popped).3 k

Step-IsPlaced : (s t : System) → Step s t → IsPlaced s → IsPlaced t
unfolding complete tick
Step-IsPlaced s t (accepts memory e) k = rw e (accept-Places memory s.server k)
Step-IsPlaced s t (receives env db uid bytes e) k =
    rw e (on_recv-Places env db uid bytes s.server k)
Step-IsPlaced s t (leaves uid e) k = rw e (disconnect-Places uid s.server k)
Step-IsPlaced s t (ticks now e) k = rw e (
    Seats-Places s.server.connected s.server.world
      (run_due (suc (length s.server.world.timers)) now s.server.world []).0
      (run_due-Seats (suc (length s.server.world.timers)) now _ s.server.world [] refl) k)
Step-IsPlaced s t (completes env before after c p e) k = rw e (
    Seats-Places s.server.connected s.server.world (on_event env c.key c.op s.server.world)
      (on_event-Seats env c.key c.op s.server.world) k)
Step-IsPlaced s t (answers env db memory e) k = rw e (ask-IsPlaced env db memory s k)

nobody_connected :
    (winsock socket height_map : Bool) (env : Env) (memory : ℕ → Client) (monster_memory : Monster)
    (boss_memory : Boss) (s : System)
    → boot winsock socket height_map env memory monster_memory boss_memory ≡ some s
    → IsPlaced s
unfolding boot
nobody_connected true true true env memory monster_memory boss_memory s e i c = absurd (
    ground (
      arith,
      ap (λ (o : Option System). elim o [ none ↦ true | some x ↦ x.server.connected i ]) e,
      c,
    ))
nobody_connected true true false env memory monster_memory boss_memory s e i c =
    absurd (ground (arith, e))
nobody_connected true false height_map env memory monster_memory boss_memory s e i c =
    absurd (ground (arith, e))
nobody_connected false socket height_map env memory monster_memory boss_memory s e i c =
    absurd (ground (arith, e))

seated : (o : Option Player) (i : ℕ) → id_of o ≡ some i → (p : Player) × (o ≡ some p) × (p.id ≡ i)
seated none i h = absurd (ground (arith, h))
seated (some p) i h = (p, refl, ground (arith, h))

-- However the threads of the server take turns, and whatever its clients send, in every state that a run of
-- the server reaches from its start each client that is connected has one of the ten slots, and in it a
-- player whose id is the slot's number.
pub Reach-IsPlaced :
    (winsock socket height_map : Bool) (env : Env) (memory : ℕ → Client) (monster_memory : Monster)
    (boss_memory : Boss) (s t : System)
    → boot winsock socket height_map env memory monster_memory boss_memory ≡ some s
    → Reach s t
    → (i : ℕ) → t.server.connected i ≡ true
    → (i < max_player) × ((p : Player) × (t.server.world.players i ≡ some p) × (p.id ≡ i))
Reach-IsPlaced winsock socket height_map env memory monster_memory boss_memory s t e r i c =
    let place = run r i c in (place.0, seated (t.server.world.players i) i place.1)
  where
    run : {u : System} → Reach s u → IsPlaced u
    run here = nobody_connected winsock socket height_map env memory monster_memory boss_memory s e
    run (next q st) = Step-IsPlaced _ _ st (run q)
