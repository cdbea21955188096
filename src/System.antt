-- ===== src/System.antt =====
-- The server as a whole: `main` of Server/main.cpp, which starts it, and the steps of its threads. Each
-- step is one turn of a thread: a completion that a worker takes, a round of the timer thread, or an
-- answer of the database thread. Which thread is next, and what the clients send, is left open.
pub mod Blows
pub mod Due
pub mod Ticks
pub mod Steady
pub mod Combat
pub mod Handlers
pub mod Packets
pub mod Background
pub mod Wakes
pub mod Golem
pub mod Pending
pub mod Updates
pub mod Booted
pub mod Invariant
pub mod Alarm
pub mod Wear
pub mod Clients
pub mod Places
mod Examples
use lh_server.Prelude.{
  ℕ, suc, ◌≡◌, Bool, true, false, List, [], ◌∷◌, ◌++◌, Option, none, some, not, if◌then◌else◌, ℤ,
  length,
}
use lh_server.World.{World, Env, Player, Monster, Boss, EventId}
use lh_server.Timer.{Completion, run_due}
use lh_server.Net.{Client}
use lh_server.Session.{Server, accept, disconnect}
use lh_server.Dispatch.{Database, on_recv, on_event}
use lh_server.Queries.{Dbms, Desk, answer}
use lh_server.Start.{create_monsters}

-- The shared state, what the timer thread has posted to the completion port and no worker has taken
-- yet, and the statements that the database thread has sent.
pub record System : Type 0 where
  pub server : Server
  pub posted : List Completion
  pub updates : List (List ℕ × ℤ)

abbrev pub put_world : World → System → System
put_world w s = record s { server = record s.server { world = w } }

abbrev nothing_yet : World
nothing_yet = record {
  players = λ i. none;
  monsters = λ i. none;
  bosses = λ i. none;
  timers = [];
  queries = [];
  sent = [];
  crashed = false;
}

-- `main` up to the start of its threads: it gives up if Winsock does not start, if there is no socket, or
-- if the height map is not read. `memory` is what the receive buffers stand on.
unfoldable pub boot : Bool → Bool → Bool → Env → (ℕ → Client) → Monster → Boss → Option System
boot winsock socket height_map env memory monster_memory boss_memory =
    if not winsock
    then none
    else if not socket
    then none
    else if not height_map
    then none
    else some (record {
      server = record {
        world = create_monsters env monster_memory boss_memory nothing_yet;
        connected = λ i. false;
        clients = memory;
      };
      posted = [];
      updates = [];
    })

-- A round of the timer thread.
unfoldable pub tick : ℕ → System → System
tick now s =
    let (w, posted) = run_due (suc (length s.server.world.timers)) now s.server.world [] in
    record (put_world w s) { posted = s.posted ++ posted }

-- A worker takes an event.
unfoldable pub complete : Env → Completion → System → System
complete env c s = put_world (on_event env c.key c.op s.server.world) s

-- The database thread takes a query.
unfoldable pub ask : Env → Dbms → Player → System → System
ask env db memory s = elim s.server.world.queries [
  | [] ↦ s
  | ev ∷ evs ↦
      let popped : Desk = record {
        world = record s.server.world { queries = evs };
        updates = s.updates;
      } in
      let done : Desk = answer env db memory ev popped in
      record (put_world done.world s) { updates = done.updates }
]

pub data Step (s t : System) : Type 0 where
  accepts : (memory : Player) → t ≡ record s { server = accept memory s.server } → Step s t
  receives :
      (env : Env) (db : Database) (uid : ℕ) (bytes : List ℕ)
      → t ≡ record s { server = on_recv env db uid bytes s.server }
      → Step s t
  -- A send that has taken no byte.
  leaves : (uid : ℕ) → t ≡ record s { server = disconnect uid s.server } → Step s t
  ticks : (now : ℕ) → t ≡ tick now s → Step s t
  -- Several workers take events: the order in which they are done is left open.
  completes :
      (env : Env) (before after : List Completion) (c : Completion)
      → s.posted ≡ before ++ c ∷ after
      → t ≡ complete env c (record s { posted = before ++ after })
      → Step s t
  answers : (env : Env) (db : Dbms) (memory : Player) → t ≡ ask env db memory s → Step s t

pub data Reach (s : System) : System → Type 0 where
  here : Reach s s
  next : {t u : System} → Reach s t → Step t u → Reach s u
