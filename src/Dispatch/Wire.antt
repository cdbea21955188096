-- ===== src/Dispatch/Wire.antt =====
-- The packets of the clients as bytes: the packed CS_ structs of Server/protocol.h. A field that the
-- server does not read is written as 0.
use lh_server.Prelude.{ℕ, ◌≡◌, ◌<◌, List, [], ◌∷◌, ◌++◌, ℤ, pos, negsuc, replicate, length, NoZero}
use lh_server.Physics.{Position}
use lh_server.World.{MoveState, Part}
use lh_server.Protocol.{char_byte, le16, bytes_pos, name_bytes, max_len}
use lh_server.Boss.{all_parts}
use lh_server.Player.Motion.{move_number}
use lh_server.Dispatch.Requests.{
  Request, cs_login, cs_signup, move_packet, cs_chat, cs_attack, cs_fireball, cs_guard, cs_jump,
  cs_evade, cs_weapon_on, cs_weapon_off, cs_sword_on, cs_sword_off, cs_hammer_on, cs_hammer_off,
  cs_berserk, cs_ready, cs_boss_move, cs_hide, cs_hide_off, cs_assassin, cs_move_stop, cs_npc_move,
  cs_boss_attack, cs_boss_bone, cs_sync_fail, cs_update_move_state, unknown, move_state_of,
}

abbrev pub bone_bytes : (Part → ℤ) → List Part → List ℕ
bone_bytes bones [] = []
bone_bytes bones (part ∷ parts) = char_byte (bones part) ++ bone_bytes bones parts

-- The size, the type and the fields of a packet.
unfoldable pub encode_request : Request → List ℕ
encode_request (cs_login name pass character) =
    23 ∷ 0 ∷ name_bytes name ++ (name_bytes pass ++ char_byte character)
encode_request (cs_signup name pass) = 22 ∷ 1 ∷ name_bytes name ++ name_bytes pass
encode_request (move_packet destination rotation velocity) =
    38 ∷ 6 ∷ bytes_pos destination ++ (bytes_pos rotation ++ bytes_pos velocity)
encode_request cs_chat = 84 ∷ 21 ∷ replicate 82 0
encode_request cs_attack = 2 ∷ 23 ∷ []
encode_request cs_guard = 2 ∷ 24 ∷ []
encode_request cs_fireball = 2 ∷ 27 ∷ []
encode_request cs_jump = 2 ∷ 30 ∷ []
encode_request cs_evade = 2 ∷ 32 ∷ []
encode_request cs_weapon_on = 3 ∷ 33 ∷ 0 ∷ []
encode_request cs_weapon_off = 2 ∷ 34 ∷ []
encode_request cs_berserk = 2 ∷ 38 ∷ []
encode_request cs_ready = 2 ∷ 40 ∷ []
encode_request (cs_boss_move destination rotation) =
    26 ∷ 49 ∷ bytes_pos destination ++ bytes_pos rotation
encode_request cs_hide = 2 ∷ 52 ∷ []
encode_request cs_hide_off = 2 ∷ 54 ∷ []
encode_request cs_assassin = 2 ∷ 56 ∷ []
encode_request cs_move_stop = 2 ∷ 58 ∷ []
encode_request cs_sword_on = 2 ∷ 61 ∷ []
encode_request cs_sword_off = 2 ∷ 62 ∷ []
encode_request cs_hammer_on = 2 ∷ 63 ∷ []
encode_request cs_hammer_off = 2 ∷ 64 ∷ []
encode_request (cs_npc_move oid place) = 16 ∷ 69 ∷ le16 oid ++ bytes_pos place
encode_request (cs_boss_attack oid atk_num) = 6 ∷ 73 ∷ le16 oid ++ le16 atk_num
encode_request (cs_boss_bone oid bones) = 16 ∷ 75 ∷ le16 oid ++ bone_bytes bones all_parts
encode_request cs_sync_fail = 4 ∷ 78 ∷ 0 ∷ 0 ∷ []
encode_request (cs_update_move_state state) = 4 ∷ 81 ∷ le16 (move_number state)
encode_request unknown = 2 ∷ 127 ∷ []

-- The values that a field can hold.
abbrev pub IsChar : ℤ → Type 0
IsChar (pos n) = n < 128
IsChar (negsuc n) = n < 128

abbrev pub IsShort : ℤ → Type 0
IsShort (pos n) = n < 32768
IsShort (negsuc n) = n < 32768

abbrev pub IsPosition : Position → Type 0
IsPosition p = (p.x < 4294967296) × (p.y < 4294967296) × (p.z < 4294967296)

abbrev pub IsName : List ℕ → Type 0
IsName name = NoZero name × (length name < max_len)

abbrev pub IsMoveState : MoveState → Type 0
IsMoveState s = IsShort (move_number s) × (move_state_of (move_number s) ≡ s)

-- A packet whose fields fit into its struct, with names that end before their arrays do.
abbrev pub IsSendable : Request → Type 0
IsSendable (cs_login name pass character) = IsName name × (IsName pass × IsChar character)
IsSendable (cs_signup name pass) = IsName name × IsName pass
IsSendable (move_packet destination rotation velocity) =
    IsPosition destination × (IsPosition rotation × IsPosition velocity)
IsSendable (cs_boss_move destination rotation) = IsPosition destination × IsPosition rotation
IsSendable (cs_npc_move oid place) = IsShort oid × IsPosition place
IsSendable (cs_boss_attack oid atk_num) = IsShort oid × IsShort atk_num
IsSendable (cs_boss_bone oid bones) = IsShort oid × ((part : Part) → IsChar (bones part))
IsSendable (cs_update_move_state state) = IsMoveState state
IsSendable unknown = ⊥
IsSendable _ = Unit {0}
