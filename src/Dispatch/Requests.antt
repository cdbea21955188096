-- ===== src/Dispatch/Requests.antt =====
-- The packets of the clients: the CS_ structs of Server/protocol.h, and the `switch` on `buf[1]` of
-- ProcessPacket. A byte that is read out of the buffer's end is 0.
use lh_server.Prelude.{
  ℕ, ◌+◌, ◌*◌, ◌-◌, List, [], ◌∷◌, ltb, ◌==◌, if◌then◌else◌, ℤ, pos, negsuc, get_or, drop,
}
use lh_server.Physics.{Float, Position}
use lh_server.World.{MoveState, p_walking, p_onwall, p_jumping, p_faling, p_hanging, p_other, Part}
use lh_server.Boss.{part_number}

pub data Request : Type 0 where
  cs_login : List ℕ → List ℕ → ℤ → Request
  cs_signup : List ℕ → List ℕ → Request
  move_packet : Position → Position → Position → Request
  cs_chat cs_attack cs_fireball cs_guard cs_jump cs_evade cs_weapon_on cs_weapon_off : Request
  cs_sword_on cs_sword_off cs_hammer_on cs_hammer_off cs_berserk cs_ready : Request
  cs_boss_move : Position → Position → Request
  cs_hide cs_hide_off cs_assassin cs_move_stop : Request
  cs_npc_move : ℤ → Position → Request
  cs_boss_attack : ℤ → ℤ → Request
  cs_boss_bone : ℤ → (Part → ℤ) → Request
  cs_sync_fail : Request
  cs_update_move_state : MoveState → Request
  unknown : Request

abbrev pub byte_at : List ℕ → ℕ → ℕ
byte_at buf i = get_or buf i 0

-- A char and a short, which are signed.
unfoldable pub char_at : List ℕ → ℕ → ℤ
char_at buf i = let b : ℕ = byte_at buf i in if ltb b 128 then pos b else negsuc (255 - b)

unfoldable pub short_at : List ℕ → ℕ → ℤ
short_at buf i =
    let n : ℕ = byte_at buf i + 256 * byte_at buf (i + 1) in
    if ltb n 32768 then pos n else negsuc (65535 - n)

abbrev pub float_at : List ℕ → ℕ → Float
float_at buf i =
    byte_at buf i
    + 256 * byte_at buf (i + 1)
    + 65536 * byte_at buf (i + 2)
    + 16777216 * byte_at buf (i + 3)

unfoldable pub position_at : List ℕ → ℕ → Position
position_at buf i = record {
  x = float_at buf i;
  y = float_at buf (i + 4);
  z = float_at buf (i + 8);
}

-- The string that begins at a place: up to the first 0, even beyond the field.
unfoldable pub string_of : List ℕ → List ℕ
string_of [] = []
string_of (b ∷ bs) = if b == 0 then [] else b ∷ string_of bs

-- static_cast<Movement_State>
abbrev pub move_state_of : ℤ → MoveState
move_state_of (negsuc n) = p_other (negsuc n)
move_state_of (pos n) =
    if n == 0
    then p_walking
    else if n == 1
    then p_onwall
    else if n == 2
    then p_jumping
    else if n == 3
    then p_faling
    else if n == 4
    then p_hanging
    else p_other (pos n)

abbrev pub bones_at : List ℕ → ℕ → Part → ℤ
bones_at buf i part = char_at buf (i + part_number part)

-- The packet that a buffer holds.
unfoldable pub decode : List ℕ → Request
decode buf =
    let type : ℕ = byte_at buf 1 in
    if type == 0
    then cs_login (string_of (drop 2 buf)) (string_of (drop 12 buf)) (char_at buf 22)
    else if type == 1
    then cs_signup (string_of (drop 2 buf)) (string_of (drop 12 buf))
    else if type == 6
    then move_packet (position_at buf 2) (position_at buf 14) (position_at buf 26)
    else if type == 21
    then cs_chat
    else if type == 23
    then cs_attack
    else if type == 24
    then cs_guard
    else if type == 27
    then cs_fireball
    else if type == 30
    then cs_jump
    else if type == 32
    then cs_evade
    else if type == 33
    then cs_weapon_on
    else if type == 34
    then cs_weapon_off
    else if type == 38
    then cs_berserk
    else if type == 40
    then cs_ready
    else if type == 49
    then cs_boss_move (position_at buf 2) (position_at buf 14)
    else if type == 52
    then cs_hide
    else if type == 54
    then cs_hide_off
    else if type == 56
    then cs_assassin
    else if type == 58
    then cs_move_stop
    else if type == 61
    then cs_sword_on
    else if type == 62
    then cs_sword_off
    else if type == 63
    then cs_hammer_on
    else if type == 64
    then cs_hammer_off
    else if type == 69
    then cs_npc_move (short_at buf 2) (position_at buf 4)
    else if type == 73
    then cs_boss_attack (short_at buf 2) (short_at buf 4)
    else if type == 75
    then cs_boss_bone (short_at buf 2) (bones_at buf 4)
    else if type == 78
    then cs_sync_fail
    else if type == 81
    then cs_update_move_state (move_state_of (short_at buf 2))
    else unknown
