-- ===== src/Dispatch.antt =====
-- ProcessPacket, SignUp and Login of Server/main.cpp, and what `worker_thread` does with a completed
-- read and with the events of the timer thread. The packets from the clients are those of
-- Server/protocol.h, read out of the buffer by their offsets.
pub mod Requests
pub mod Wire
pub mod Decoded
pub mod Stream
pub mod Own
pub mod Receive
mod Handlers
mod Examples
use lh_server.Prelude.{
  ℕ, zero, suc, ◌+◌, ◌*◌, Bool, true, false, List, [], ◌∷◌, Option, none, some, ltb, ◌==◌,
  if◌then◌else◌, ℤ, pos, negsuc, ltb_ℤ,
}
use lh_server.Physics.{Position}
use lh_server.Protocol.{Packet}
use lh_server.World.{
  World, Env, Player, Monster, Boss, EventId, ev_login, ev_boss, ev_monster, ev_fireball,
  WeaponType, wpn_sword, wpn_hammer, MoveState, Part, boss_idx, npc_id_start, set_player,
  set_monster, set_boss, with_player, crash,
}
use lh_server.World.Send.{send, broadcast, broadcast_others, send_view}
use lh_server.Player.Combat.{add_quary, attack, berserk, assassinate}
use lh_server.Player.Skills.{set_ready, guard, evade, hide, hide_off, fireball_update}
use lh_server.Player.Weapons.{weapon_on, weapon_off}
use lh_server.Player.Motion.{
  set_position, set_velocity, move_to, set_move_state, enter_game, make_update_packet,
}
use lh_server.Monster.{update_with_client}
use lh_server.Boss.Break.{bone_map_update}
use lh_server.Net.{Client, Finish, returned, bad_count, spins, recv_packet_construct}
use lh_server.Session.{Server, disconnect}
use Requests.{
  Request, cs_login, cs_signup, move_packet, cs_chat, cs_attack, cs_fireball, cs_guard, cs_jump,
  cs_evade, cs_weapon_on, cs_weapon_off, cs_sword_on, cs_sword_off, cs_hammer_on, cs_hammer_off,
  cs_berserk, cs_ready, cs_boss_move, cs_hide, cs_hide_off, cs_assassin, cs_move_stop, cs_npc_move,
  cs_boss_attack, cs_boss_bone, cs_sync_fail, cs_update_move_state, unknown, decode,
}

-- `ExcuteStatementDirect` of the statement that puts the account into the database: whether it succeeds.
abbrev pub Database : Type 0
Database = List ℕ → List ℕ → Bool

unfoldable pub sign_up : Database → ℕ → List ℕ → List ℕ → World → World
sign_up db uid name pass w =
    if db name pass then send uid Packet.signup_ok w else send uid Packet.signup_fail w

-- `Login` puts a query into the queue, and returns.
unfoldable pub login : ℕ → List ℕ → List ℕ → ℤ → World → World
login uid name pass character w =
    let queued : World = add_quary uid ev_login name pass w in
    with_player uid queued λ p. set_player queued uid (record p { obj_type = character })

-- Position(59060.0, 55640.0, 1970.0)
abbrev pub far_place : Position
far_place = record { x = 0x4766b400; y = 0x47595800; z = 0x44f64000 }

-- What follows the `break` of cs_fireball is never reached.
unfoldable pub to_far_place : Env → ℕ → World → World
to_far_place env uid w = with_player uid w λ p.
    let moved : Player = set_position env.fpu p far_place true in
    send uid (make_update_packet moved) (set_player w uid moved)

unfoldable pub draw_weapon : ℕ → World → World
draw_weapon uid w = with_player uid w λ p.
    if p.is_wpn_on
    then w
    else send_view p.view_list (Packet.weapon_on (pos uid) (pos 0))
        (set_player w uid (record p { is_wpn_on = true }))

unfoldable pub sheathe_weapon : ℕ → World → World
sheathe_weapon uid w = with_player uid w λ p.
    send_view p.view_list (Packet.weapon_off (pos uid))
      (set_player w uid (record p { is_wpn_on = false }))

abbrev zero_pos : Position
zero_pos = record { x = 0; y = 0; z = 0 }

-- `if (g_player[uid] == NULL) break;`, and the three calls.
unfoldable pub move : Env → ℕ → Position → Position → Position → World → World
move env uid destination rotation velocity w = elim (w.players uid) [
  | none ↦ w
  | some p ↦
      move_to env.fpu uid destination
        (set_player w uid (record (set_velocity env.fpu p velocity) { rotation = rotation }))
]

unfoldable pub move_boss : ℕ → Position → Position → World → World
move_boss uid destination rotation w = elim (w.bosses boss_idx) [
  | none ↦ w
  | some b ↦
      broadcast_others uid (Packet.update_obj destination (pos boss_idx) rotation zero_pos)
        (set_boss w boss_idx (record b { rotation = rotation; pos = destination }))
]

unfoldable pub stop_moving : ℕ → World → World
stop_moving uid w = with_player uid w λ p. broadcast (Packet.move_stop (pos uid) p.pos zero_pos) w

-- The golem's branch goes by the global `boss`, which is NULL.
unfoldable pub move_npc : Env → ℤ → Position → World → World
move_npc env (negsuc oid) place w = w
move_npc env (pos oid) place w =
    if ltb oid boss_idx
    then elim (w.monsters oid) [
      | none ↦ w
      | some m ↦
          update_with_client env.fpu oid
            (set_monster w oid (lh_server.Monster.set_position env.fpu m place))
    ]
    else w

unfoldable pub boss_attack : ℕ → ℤ → ℤ → World → World
boss_attack uid (negsuc oid) atk w = w
boss_attack uid (pos oid) atk w = elim (w.bosses oid) [
  | none ↦ w
  | some b ↦ broadcast_others uid (Packet.boss_attack (pos oid) atk zero_pos) w
]

unfoldable pub boss_bone : ℤ → (Part → ℤ) → World → World
boss_bone (negsuc oid) bones w = w
boss_bone (pos oid) bones w = elim (w.bosses oid) [
  | none ↦ w
  | some b ↦ bone_map_update oid bones w
]

unfoldable pub change_move_state : ℕ → MoveState → World → World
change_move_state uid state w = elim (w.players uid) [
  | none ↦ w
  | some p ↦ set_move_state uid state w
]

-- The cases of `ProcessPacket` but the last.
unfoldable pub handle : Env → Database → ℕ → Request → World → World
handle env db uid (cs_login name pass character) w =
    enter_game uid (login uid name pass character w)
handle env db uid (cs_signup name pass) w = sign_up db uid name pass w
handle env db uid (move_packet destination rotation velocity) w =
    move env uid destination rotation velocity w
handle env db uid cs_chat w = w
handle env db uid cs_attack w = attack env uid w
handle env db uid cs_fireball w = to_far_place env uid w
handle env db uid cs_guard w = guard env uid w
handle env db uid cs_jump w = broadcast (Packet.jump (pos uid)) w
handle env db uid cs_evade w = evade env uid w
handle env db uid cs_weapon_on w = draw_weapon uid w
handle env db uid cs_weapon_off w = sheathe_weapon uid w
handle env db uid cs_sword_on w = weapon_on wpn_sword uid w
handle env db uid cs_sword_off w = weapon_off wpn_sword uid w
handle env db uid cs_hammer_on w = weapon_on wpn_hammer uid w
handle env db uid cs_hammer_off w = weapon_off wpn_hammer uid w
handle env db uid cs_berserk w = berserk env uid w
handle env db uid cs_ready w = set_ready uid w
handle env db uid (cs_boss_move destination rotation) w = move_boss uid destination rotation w
handle env db uid cs_hide w = hide uid w
handle env db uid cs_hide_off w = hide_off uid w
handle env db uid cs_assassin w = assassinate env uid w
handle env db uid cs_move_stop w = stop_moving uid w
handle env db uid (cs_npc_move oid place) w = move_npc env oid place w
handle env db uid (cs_boss_attack oid atk) w = boss_attack uid oid atk w
handle env db uid (cs_boss_bone oid bones) w = boss_bone oid bones w
handle env db uid cs_sync_fail w = w
handle env db uid (cs_update_move_state state) w = change_move_state uid state w
handle env db uid unknown w = w

abbrev pub is_unknown : Request → Bool
is_unknown unknown = true
is_unknown _ = false

-- `ProcessPacket`: a type that it does not know disconnects the client, and ends the process.
unfoldable pub process_packet : Env → Database → ℕ → List ℕ → Server → Server
process_packet env db uid buf s =
    let request : Request = decode buf in
    let left : Server = disconnect uid s in
    if is_unknown request
    then record left { world = crash left.world }
    else record s { world = handle env db uid request s.world }

unfoldable pub process_all : Env → Database → ℕ → List (List ℕ) → Server → Server
process_all env db uid [] s = s
process_all env db uid (buf ∷ bufs) s =
    process_all env db uid bufs (process_packet env db uid buf s)

-- OP_RECV: a read of no bytes is the end of the connection.
unfoldable pub on_recv : Env → Database → ℕ → List ℕ → Server → Server
on_recv env db uid [] s = disconnect uid s
on_recv env db uid (b ∷ bs) s =
    let (finish, bufs) = recv_packet_construct (s.clients uid) (b ∷ bs) in
    let done : Server = process_all env db uid bufs s in
    elim finish [
      | returned cu ↦ record done { clients = λ j. if j == uid then cu else done.clients j }
      | bad_count ↦ record done { world = crash done.world }
      | spins ↦ record done { world = crash done.world }
    ]

-- EV_BOSS, EV_MONSTER and EV_FIREBALL.
unfoldable pub on_event : Env → ℕ → EventId → World → World
on_event env key op w = elim op [
  | ev_boss ↦ elim (w.bosses boss_idx) [
    | none ↦ w
    | some b ↦ lh_server.Boss.States.update env boss_idx w
  ]
  | ev_monster ↦
      if ltb key npc_id_start
      then w
      else elim (w.monsters key) [ none ↦ w | some m ↦ lh_server.Monster.States.update env key w ]
  | ev_fireball ↦ fireball_update env key w
  | _ ↦ w
]
