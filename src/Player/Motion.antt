-- ===== src/Player/Motion.antt =====
-- MoveTo, SetPosition, IsTeleport, SetVelocity, SetMoveState, EnterGame, EnterObj, the two
-- `Initialize` and the Make...Packet functions of Server/CPlayer.cpp.
pub mod Meet
pub mod Views
use lh_server.Prelude.{
  ℕ, Bool, true, false, List, [], ◌∷◌, none, some, ◌==◌, ◌&&◌, not, if◌then◌else◌, ℤ, pos, ltb_ℤ,
  eqb_ℤ, leb_ℤ, for_range,
}
use lh_server.Physics.{Fpu, Position, get_distance, is_zero}
use lh_server.Protocol.{Packet}
use lh_server.World.{
  World, Env, Player, MoveState, p_walking, p_onwall, p_jumping, p_faling, p_hanging, p_other,
  wpn_none, wpn_sword, wpn_hammer, set_player, with_player, max_monster, npc_id_start,
}
use lh_server.World.Send.{send, broadcast, broadcast_others}

unfoldable pub make_update_packet : Player → Packet
make_update_packet p = Packet.update_obj p.pos (pos p.id) p.rotation p.velocity

unfoldable pub make_enter_packet : Player → Packet
make_enter_packet p = Packet.enter_obj p.obj_type p.name (pos p.id) p.pos

unfoldable pub make_leave_packet : Player → Packet
make_leave_packet p = Packet.leave_obj (pos p.id)

-- The third portal, as the constant of `IsTeleport`: the bits of its floats.
abbrev pub potal3 : Position
potal3 = record { x = 0x476806a5; y = 0x4757a282; z = 0x45070000 }

unfoldable pub is_teleport : Fpu → Player → Bool
is_teleport f p = if ltb_ℤ (get_distance f p.pos potal3) (pos 300) then true else false

-- A step of less than 100 is not taken, unless the player stands at the portal. The argument
-- `teleport` is not read.
unfoldable pub set_position : Fpu → Player → Position → Bool → Player
set_position f p q teleport =
    if not (is_teleport f p) && ltb_ℤ (get_distance f p.pos q) (pos 100)
    then p
    else record p { pos = q }

unfoldable pub set_velocity : Fpu → Player → Position → Player
set_velocity f p v = if is_zero f v then p else record p { velocity = v }

-- The lists of who sees whom are built and then left unused: the function returns before them.
unfoldable pub move_to : Fpu → ℕ → Position → World → World
move_to f me q w = with_player me w λ p.
    let moved : Player = set_position f p q false in
    broadcast_others moved.id (make_update_packet moved) (set_player w me moved)

abbrev pub move_number : MoveState → ℤ
move_number p_walking = pos 0
move_number p_onwall = pos 1
move_number p_jumping = pos 2
move_number p_faling = pos 3
move_number p_hanging = pos 4
move_number (p_other n) = n

abbrev eq_move : MoveState → MoveState → Bool
eq_move p_walking p_walking = true
eq_move p_onwall p_onwall = true
eq_move p_jumping p_jumping = true
eq_move p_faling p_faling = true
eq_move p_hanging p_hanging = true
eq_move (p_other m) (p_other n) = eqb_ℤ m n
eq_move _ _ = false

unfoldable pub set_move_state : ℕ → MoveState → World → World
set_move_state me new_state w = with_player me w λ p.
    if eq_move new_state p.move_state
    then w
    else broadcast (Packet.update_move_state (pos p.id) (move_number new_state))
        (set_player w me (record p { move_state = new_state }))

-- An unordered_set of ids, as the list of those put in.
unfoldable pub contains : List ℕ → ℕ → Bool
contains [] i = false
contains (x ∷ xs) i = if x == i then true else contains xs i

unfoldable pub insert_view : ℕ → List ℕ → List ℕ
unfolding contains
insert_view i xs = if contains xs i then xs else i ∷ xs

unfoldable pub enter_obj : ℕ → ℕ → World → World
enter_obj me oid w =
    with_player me w λ p. set_player w me (record p { view_list = insert_view oid p.view_list })

-- What `me` is told of the weapon and of the moves of the player `i`.
unfoldable pub tell_weapon : ℕ → ℕ → Player → World → World
tell_weapon id i q w = elim q.wpn_type [
  | wpn_none ↦ w
  | wpn_sword ↦ send id (Packet.sword_on (pos i)) w
  | wpn_hammer ↦ send id (Packet.hammer_on (pos i)) w
]

-- The round of EnterGame for the player `i`: the two see one another.
unfoldable pub meet : ℕ → ℕ → World → World
meet me i w = with_player me w λ p. if p.id == i then w else elim (w.players i) [
  | none ↦ w
  | some q ↦
      if not q.is_alive
      then w
      else (let seen : World =
            set_player (set_player w me (record p { view_list = insert_view i p.view_list })) i
              (record q { view_list = insert_view p.id q.view_list }) in
          send p.id (Packet.update_move_state (pos i) (move_number q.move_state)) (
            tell_weapon p.id i q
              (send p.id (make_enter_packet q) (send i (make_enter_packet p) seen))))
]

-- The living monsters are shown to the player who enters.
unfoldable pub show_monster : ℕ → ℕ → World → World
show_monster id i w = elim (w.monsters i) [
  | none ↦ w
  | some m ↦
      if leb_ℤ m.health_point (pos 0)
      then w
      else send id (lh_server.Monster.Packets.make_enter_packet m) w
]

unfoldable pub enter_game : ℕ → World → World
enter_game me w = with_player me (for_range 10 0 (meet me) w) λ p.
    let shown : World =
      for_range max_monster npc_id_start (show_monster p.id) (for_range 10 0 (meet me) w) in
    let settled : World = set_player shown me (record p { is_host = p.id == 0 }) in
    if p.id == 0 then send p.id Packet.set_host settled else settled

-- The second `Initialize`: the row of the player's account, and a fixed place.
unfoldable pub initialize : Env → Player → ℤ → ℤ → ℤ → ℤ → ℤ → Player
initialize env p hp o_type exp lv mp = record p {
  max_hp = hp;
  health_point = hp;
  max_mp = mp;
  magic_point = mp;
  obj_type = o_type;
  exp = exp;
  level = lv;
  atk_point = pos 10;
  pos = record { x = 0x461fcd40; y = 0x47956ef4; z = 0xc3daac28 };
  is_berserk = false;
  is_guard = false;
  is_wpn_on = false;
  is_alive = true;
  is_evade = false;
  is_spell_fireball = false;
  is_hide = false;
  is_assasinate = false;
  combo_cnt = 0;
  last_atk_time = env.now;
  rotation = record { x = 0; y = 0; z = 0 };
  wpn_type = wpn_none;
  move_state = p_walking;
}
