-- ===== src/Session.antt =====
-- The clients' slots: OP_ACCEPT of `worker_thread`, and `Disconnect`, of Server/main.cpp.
pub mod Seats
mod Examples
use lh_server.Prelude.{
  ℕ, Bool, true, false, List, [], ◌∷◌, Option, none, some, ltb, if◌then◌else◌, update, pos,
}
use lh_server.Protocol.{Packet}
use lh_server.World.{World, Player, player_ids, set_player, crash}
use lh_server.World.Send.{broadcast}
use lh_server.Net.{Client}

-- The shared state with `isconnected` and the receive buffers of `g_clients`.
pub record Server : Type 0 where
  pub world : World
  pub connected : ℕ → Bool
  pub clients : ℕ → Client

-- The first slot that is free.
unfoldable pub free_slot : (ℕ → Bool) → List ℕ → Option ℕ
free_slot connected [] = none
free_slot connected (i ∷ is) = if connected i then free_slot connected is else some i

-- OP_ACCEPT; `memory` is what the new CPlayer stands on, whose fields `new CPlayer` leaves as they are.
unfoldable pub accept : Player → Server → Server
accept memory s = elim (free_slot s.connected player_ids) [
  | none ↦ s
  | some i ↦ record s {
    world = set_player s.world i (record memory { id = i });
    connected = update s.connected i true;
    clients = update s.clients i (record (s.clients i) { prev_size = 0 });
  }
]

-- The name is read before the index is tested.
unfoldable pub disconnect : ℕ → Server → Server
disconnect uid s = elim (s.world.players uid) [
  | none ↦ record s { world = crash s.world }
  | some p ↦
      if ltb uid 10
      then record s {
        world =
            broadcast (Packet.leave (pos uid))
              (record s.world { players = update s.world.players uid none });
        connected = update s.connected uid false;
      }
      else s
]
