-- ===== src/Lobby.antt =====
-- Server/Lobby.cpp: the waiting room.
mod Full
mod Examples
use lh_server.Prelude.{
  ℕ, ◌+◌, Bool, true, false, List, [], ◌∷◌, Option, none, some, ◌==◌, if◌then◌else◌, ℤ, pos, negsuc,
  ◌+ℤ◌, eqb_ℤ, replicate,
}
use lh_server.Monster.{player_at}
use lh_server.World.{World}

-- NOT_JOINED.
abbrev pub not_joined : ℤ
not_joined = negsuc 0

pub record Lobby : Type 0 where
  pub num_users : ℤ
  pub host_id : ℤ
  pub player_id : List ℤ

unfoldable pub new_lobby : Lobby
new_lobby = record { num_users = pos 0; host_id = negsuc 0; player_id = replicate 10 not_joined }

-- for (auto& pid : playerID) if (pid == NOT_JOINED) pid = id;
unfoldable pub fill : ℤ → List ℤ → List ℤ
fill id [] = []
fill id (pid ∷ pids) = (if eqb_ℤ pid not_joined then id else pid) ∷ fill id pids

-- `AddUser`, which returns no value.
unfoldable pub add_user : ℤ → Lobby → Lobby
add_user id lobby = record lobby {
  player_id = fill id lobby.player_id;
  num_users = lobby.num_users +ℤ pos 1;
}

-- `ready` of Lobby_State.
abbrev pub ready : ℤ
ready = pos 5

-- The loop of `IsAllReady`; `none` where a NULL pointer is followed.
unfoldable pub all_ready : World → List ℤ → Option Bool
all_ready w [] = some true
all_ready w (id ∷ ids) =
    let rest : Option Bool = all_ready w ids in
    if eqb_ℤ id not_joined then rest else elim (player_at id w) [
      | none ↦ none
      | some p ↦ if eqb_ℤ p.state ready then rest else some false
    ]

unfoldable pub is_all_ready : Lobby → World → Option Bool
is_all_ready lobby w = all_ready w lobby.player_id
