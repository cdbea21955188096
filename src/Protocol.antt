-- ===== src/Protocol.antt =====
-- The packets that the server sends, and their bytes: the packed structs and the PACKET_TYPE
-- numbers of Server/protocol.h. A constructor takes the fields behind `size` and `type` in the order
-- of its struct; the oid of a `short`, and every other number, is narrowed to its width as it is
-- written. A name that is `[]` is memory that nobody initialised, written as zero bytes.
pub mod Frames
mod Examples
use lh_server.Prelude.{
  ℕ, ◌+◌, ◌-◌, ◌/◌, ◌%◌, ◌^◌, List, [], ◌∷◌, ◌++◌, ℤ, pos, negsuc, take, replicate,
}
use lh_server.Physics.{Position}

-- MAXLEN
abbrev pub max_len : ℕ
max_len = 10

pub data Packet : Type 0 where
  update_obj : Position → ℤ → Position → Position → Packet
  enter_obj : ℤ → List ℕ → ℤ → Position → Packet
  leave_obj : ℤ → Packet
  leave : ℤ → Packet
  login_fail : Packet
  login_ok : ℤ → List ℕ → Packet
  signup_ok : Packet
  signup_fail : Packet
  attack : ℤ → ℤ → Packet
  guard : ℤ → Packet
  fireball : ℤ → Packet
  jump : ℤ → Packet
  evade : ℤ → Packet
  weapon_on : ℤ → ℤ → Packet
  weapon_off : ℤ → Packet
  set_host : Packet
  berserk : ℤ → Packet
  level_up : ℤ → ℤ → ℤ → ℤ → ℤ → Packet
  dead : ℤ → Packet
  damaged : ℤ → ℤ → Packet
  get_exp : ℤ → Packet
  block : ℤ → Packet
  fireball_off : ℤ → Packet
  fireball_move : ℤ → Position → Position → Packet
  hide : ℤ → Packet
  hide_off : ℤ → Packet
  assassin : ℤ → Packet
  move_stop : ℤ → Position → Position → Packet
  sword_on : ℤ → Packet
  sword_off : ℤ → Packet
  hammer_on : ℤ → Packet
  hammer_off : ℤ → Packet
  bone_break : ℤ → ℤ → Packet
  set_rotation : ℤ → Position → Packet
  update_move_state : ℤ → ℤ → Packet
  boss_attack : ℤ → ℤ → Position → Packet

-- An integer modulo 2 ^ w, as a number: what a cast to a w-bit type keeps.
abbrev pub low_bits : ℕ → ℤ → ℕ
low_bits m (pos n) = n % m
low_bits m (negsuc n) = m - 1 - n % m

abbrev pub char_byte : ℤ → List ℕ
char_byte a = low_bits 256 a ∷ []

abbrev pub le16 : ℤ → List ℕ
le16 a = let n : ℕ = low_bits 65536 a in n % 256 ∷ n / 256 % 256 ∷ []

abbrev pub le32_bits : ℕ → List ℕ
le32_bits n = n % 256 ∷ n / 256 % 256 ∷ n / 65536 % 256 ∷ n / 16777216 % 256 ∷ []

abbrev pub le32 : ℤ → List ℕ
le32 a = le32_bits (low_bits 4294967296 a)

abbrev pub bytes_pos : Position → List ℕ
bytes_pos p = le32_bits p.x ++ (le32_bits p.y ++ le32_bits p.z)

-- char name[MAXLEN], filled up with zeros.
abbrev pub name_bytes : List ℕ → List ℕ
name_bytes name = take max_len (name ++ replicate max_len 0)

-- sizeof of the packet's struct.
unfoldable pub size_of : Packet → ℕ
size_of (update_obj place oid rotation velocity) = 40
size_of (enter_obj o_type name oid place) = 27
size_of (leave_obj id) = 6
size_of (leave id) = 4
size_of login_fail = 2
size_of (login_ok uid name) = 14
size_of signup_ok = 2
size_of signup_fail = 2
size_of (attack oid combo) = 5
size_of (guard oid) = 4
size_of (fireball oid) = 4
size_of (jump oid) = 4
size_of (evade oid) = 4
size_of (weapon_on w_type oid) = 5
size_of (weapon_off oid) = 4
size_of set_host = 2
size_of (berserk oid) = 4
size_of (level_up oid level exp hp mp) = 12
size_of (dead oid) = 4
size_of (damaged oid hp) = 6
size_of (get_exp exp) = 4
size_of (block oid) = 4
size_of (fireball_off owner) = 4
size_of (fireball_move owner place rotation) = 28
size_of (hide oid) = 4
size_of (hide_off oid) = 4
size_of (assassin oid) = 4
size_of (move_stop oid place rot) = 28
size_of (sword_on oid) = 4
size_of (sword_off oid) = 4
size_of (hammer_on oid) = 4
size_of (hammer_off oid) = 4
size_of (bone_break oid part) = 6
size_of (set_rotation oid rot) = 16
size_of (update_move_state oid state) = 6
size_of (boss_attack oid atk_state target) = 17

-- The PACKET_TYPE of the packet, by its place in the enum.
unfoldable pub type_of : Packet → ℕ
type_of (update_obj place oid rotation velocity) = 18
type_of (enter_obj o_type name oid place) = 19
type_of (leave_obj id) = 20
type_of (leave id) = 10
type_of login_fail = 13
type_of (login_ok uid name) = 14
type_of signup_ok = 15
type_of signup_fail = 16
type_of (attack oid combo) = 25
type_of (guard oid) = 26
type_of (fireball oid) = 28
type_of (jump oid) = 31
type_of (evade oid) = 35
type_of (weapon_on w_type oid) = 36
type_of (weapon_off oid) = 37
type_of set_host = 29
type_of (berserk oid) = 39
type_of (level_up oid level exp hp mp) = 44
type_of (dead oid) = 45
type_of (damaged oid hp) = 46
type_of (get_exp exp) = 47
type_of (block oid) = 48
type_of (fireball_off owner) = 50
type_of (fireball_move owner place rotation) = 51
type_of (hide oid) = 53
type_of (hide_off oid) = 55
type_of (assassin oid) = 57
type_of (move_stop oid place rot) = 59
type_of (sword_on oid) = 65
type_of (sword_off oid) = 66
type_of (hammer_on oid) = 67
type_of (hammer_off oid) = 68
type_of (bone_break oid part) = 76
type_of (set_rotation oid rot) = 80
type_of (update_move_state oid state) = 82
type_of (boss_attack oid atk_state target) = 74

body : Packet → List ℕ
body (update_obj place oid rotation velocity) =
    bytes_pos place ++ (le16 oid ++ (bytes_pos rotation ++ bytes_pos velocity))
body (enter_obj o_type name oid place) =
    char_byte o_type ++ (name_bytes name ++ (le16 oid ++ bytes_pos place))
body (leave_obj id) = le32 id
body (leave id) = le16 id
body login_fail = []
body (login_ok uid name) = le16 uid ++ name_bytes name
body signup_ok = []
body signup_fail = []
body (attack oid combo) = le16 oid ++ char_byte combo
body (guard oid) = le16 oid
body (fireball oid) = le16 oid
body (jump oid) = le16 oid
body (evade oid) = le16 oid
body (weapon_on w_type oid) = char_byte w_type ++ le16 oid
body (weapon_off oid) = le16 oid
body set_host = []
body (berserk oid) = le16 oid
body (level_up oid level exp hp mp) = le16 oid ++ (le16 level ++ (le16 exp ++ (le16 hp ++ le16 mp)))
body (dead oid) = le16 oid
body (damaged oid hp) = le16 oid ++ le16 hp
body (get_exp exp) = le16 exp
body (block oid) = le16 oid
body (fireball_off owner) = le16 owner
body (fireball_move owner place rotation) = le16 owner ++ (bytes_pos place ++ bytes_pos rotation)
body (hide oid) = le16 oid
body (hide_off oid) = le16 oid
body (assassin oid) = le16 oid
body (move_stop oid place rot) = le16 oid ++ (bytes_pos place ++ bytes_pos rot)
body (sword_on oid) = le16 oid
body (sword_off oid) = le16 oid
body (hammer_on oid) = le16 oid
body (hammer_off oid) = le16 oid
body (bone_break oid part) = le16 oid ++ le16 part
body (set_rotation oid rot) = le16 oid ++ bytes_pos rot
body (update_move_state oid state) = le16 oid ++ le16 state
body (boss_attack oid atk_state target) = le16 oid ++ (char_byte atk_state ++ bytes_pos target)

-- The bytes that `send_packet` puts on the wire.
unfoldable pub encode : Packet → List ℕ
unfolding body size_of type_of
encode p = size_of p ∷ type_of p ∷ body p
