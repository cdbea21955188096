-- ===== src/Dispatch/Decoded.antt =====
-- The packets that clients send, read back by ProcessPacket.
use lh_server.Prelude.{
  ℕ, zero, suc, ◌≡◌, ◌<◌, ◌+◌, ◌*◌, ◌/◌, ◌%◌, refl, ap, ◌∙◌, List, [], ◌∷◌, ◌++◌, ℤ, pos, negsuc,
  get_or, length, take, drop, replicate, NoZero, arith, append_assoc,
}
use mathlib.Core.Path.{fun_ext}
use lh_server.Physics.{Position}
use lh_server.World.{
  Part, r_hand, r_forearm, r_upperarm, r_foor, r_calf, r_thight, l_hand, l_forearm, l_upperarm,
  l_foor, l_calf, l_thight,
}
use lh_server.Protocol.{low_bits, char_byte, le16, bytes_pos, name_bytes}
use lh_server.Boss.{part_number}
use lh_server.Dispatch.Requests.{
  Request, cs_login, cs_signup, move_packet, cs_boss_move, cs_npc_move, cs_boss_attack,
  cs_boss_bone, cs_update_move_state, unknown, decode, char_at, short_at, position_at, string_of,
  bones_at, move_state_of,
}
use lh_server.Protocol.Frames.{length-name_bytes}
use lh_server.Player.Motion.{move_number}
use lh_server.Dispatch.Wire.{encode_request, IsChar, IsShort, IsPosition, IsName, IsSendable}

-- A number behind `before`, as the bytes of its type.
char_value : (a : ℤ) (rest : List ℕ) → IsChar a → char_at (char_byte a ++ rest) 0 ≡ a
unfolding char_at
char_value (pos n) rest h = ground (arith, h)
char_value (negsuc n) rest h = ground (arith, h)

short_value : (a : ℤ) (rest : List ℕ) → IsShort a → short_at (le16 a ++ rest) 0 ≡ a
unfolding short_at
short_value (pos n) rest h = ground (arith, h)
short_value (negsuc n) rest h = ground (arith, h)

float_value :
    (n : ℕ)
    → n < 4294967296
    → n % 256 + 256 * (n / 256 % 256) + 65536 * (n / 65536 % 256) + 16777216 * (n / 16777216 % 256)
      ≡ n
float_value n h = omega (arith, h)

position_value :
    (p : Position) (rest : List ℕ) → IsPosition p → position_at (bytes_pos p ++ rest) 0 ≡ p
unfolding position_at
position_value p rest h =
    ground (arith, float_value p.x h.0, float_value p.y h.1, float_value p.z h.2)

-- A field of `n` bytes with a name in it that is followed by a 0.
name_value :
    (n m : ℕ) (name rest : List ℕ)
    → NoZero name
    → length name < n
    → 0 < m
    → string_of (take n (name ++ replicate m 0) ++ rest) ≡ name
unfolding string_of
name_value zero m name rest z h k = absurd (omega arith)
name_value (suc n) zero name rest z h k = absurd (omega arith)
name_value (suc n) (suc m) [] rest z h k = refl
name_value (suc n) (suc m) (b ∷ bs) rest z h k =
    ground (arith, z.0, name_value n (suc m) bs rest z.1 (omega (arith, h)) k)

-- What follows a field of ten bytes.
drop-append : (n : ℕ) (xs ys : List ℕ) → length xs ≡ n → drop n (xs ++ ys) ≡ ys
drop-append zero [] ys e = refl
drop-append zero (x ∷ xs) ys e = absurd (omega arith)
drop-append (suc n) [] ys e = absurd (omega arith)
drop-append (suc n) (x ∷ xs) ys e = drop-append n xs ys (omega (arith, e))

behind_name : (name rest : List ℕ) → drop 10 (name_bytes name ++ rest) ≡ rest
behind_name name rest = drop-append 10 (name_bytes name) rest (length-name_bytes name)

drop_twice : (n m k : ℕ) (xs : List ℕ) → k ≡ n + m → drop k xs ≡ drop m (drop n xs)
drop_twice zero m k xs e = ap (λ j. drop j xs) (omega (arith, e))
drop_twice (suc n) m zero xs e = absurd (omega (arith, e))
drop_twice (suc n) zero (suc k) [] e = refl
drop_twice (suc n) (suc m) (suc k) [] e = refl
drop_twice (suc n) m (suc k) (x ∷ xs) e = drop_twice n m k xs (omega (arith, e))

get_or-drop : (n : ℕ) (xs : List ℕ) → get_or xs n 0 ≡ get_or (drop n xs) 0 0
get_or-drop zero xs = refl
get_or-drop (suc n) [] = refl
get_or-drop (suc n) (x ∷ xs) = get_or-drop n xs

character_value :
    (name pass rest : List ℕ) (character : ℤ)
    → IsChar character
    → char_at (23 ∷ 0 ∷ name_bytes name ++ (name_bytes pass ++ (char_byte character ++ rest))) 22
      ≡ character
unfolding char_at
character_value name pass rest character h =
    let fields : List ℕ = name_bytes name ++ (name_bytes pass ++ (char_byte character ++ rest)) in
    let place : drop 20 fields ≡ char_byte character ++ rest =
      drop_twice 10 10 20 fields (omega arith)
      ∙ ap (drop 10) (behind_name name _)
      ∙ behind_name pass (char_byte character ++ rest) in
    let byte : get_or fields 20 0 ≡ low_bits 256 character =
      get_or-drop 20 fields ∙ ap (λ l. get_or l 0 0) place in
    rw byte (char_value character rest h)

name_at : (name rest : List ℕ) → IsName name → string_of (name_bytes name ++ rest) ≡ name
name_at name rest h = name_value 10 10 name rest h.0 h.1 (omega arith)

name_behind :
    (first name rest : List ℕ)
    → IsName name
    → string_of (drop 10 (name_bytes first ++ (name_bytes name ++ rest))) ≡ name
name_behind first name rest h = ap string_of (behind_name first _) ∙ name_at name rest h

bone_value :
    (oid : ℤ) (bones : Part → ℤ) (rest : List ℕ)
    → ((part : Part) → IsChar (bones part))
    → (part : Part) → bones_at (encode_request (cs_boss_bone oid bones) ++ rest) 4 part ≡ bones part
unfolding encode_request char_at part_number
bone_value oid bones rest h r_hand = char_value (bones r_hand) [] (h r_hand)
bone_value oid bones rest h r_forearm = char_value (bones r_forearm) [] (h r_forearm)
bone_value oid bones rest h r_upperarm = char_value (bones r_upperarm) [] (h r_upperarm)
bone_value oid bones rest h r_foor = char_value (bones r_foor) [] (h r_foor)
bone_value oid bones rest h r_calf = char_value (bones r_calf) [] (h r_calf)
bone_value oid bones rest h r_thight = char_value (bones r_thight) [] (h r_thight)
bone_value oid bones rest h l_hand = char_value (bones l_hand) [] (h l_hand)
bone_value oid bones rest h l_forearm = char_value (bones l_forearm) [] (h l_forearm)
bone_value oid bones rest h l_upperarm = char_value (bones l_upperarm) [] (h l_upperarm)
bone_value oid bones rest h l_foor = char_value (bones l_foor) [] (h l_foor)
bone_value oid bones rest h l_calf = char_value (bones l_calf) [] (h l_calf)
bone_value oid bones rest h l_thight = char_value (bones l_thight) [] (h l_thight)

-- Whatever stands behind a packet in the buffer, it is read as itself.
pub decode-append :
    (r : Request) (rest : List ℕ) → IsSendable r → decode (encode_request r ++ rest) ≡ r
unfolding decode encode_request position_at short_at
decode-append (cs_login name pass character) rest h =
    rw
      (
        append_assoc (name_bytes name) (name_bytes pass ++ char_byte character) rest,
        append_assoc (name_bytes pass) (char_byte character) rest,
      )
      (λ i.
        cs_login (name_at name (name_bytes pass ++ (char_byte character ++ rest)) h.0 i)
          (name_behind name pass (char_byte character ++ rest) h.1.0 i)
          (character_value name pass rest character h.1.1 i))
decode-append (cs_signup name pass) rest h =
    rw (append_assoc (name_bytes name) (name_bytes pass) rest) (λ i.
      cs_signup (name_at name (name_bytes pass ++ rest) h.0 i) (name_behind name pass rest h.1 i))
decode-append (move_packet destination rotation velocity) rest h = λ i.
    move_packet (position_value destination [] h.0 i) (position_value rotation [] h.1.0 i)
      (position_value velocity [] h.1.1 i)
decode-append (cs_boss_move destination rotation) rest h =
    λ i. cs_boss_move (position_value destination [] h.0 i) (position_value rotation [] h.1 i)
decode-append (cs_npc_move oid place) rest h =
    λ i. cs_npc_move (short_value oid [] h.0 i) (position_value place [] h.1 i)
decode-append (cs_boss_attack oid atk_num) rest h =
    λ i. cs_boss_attack (short_value oid [] h.0 i) (short_value atk_num [] h.1 i)
decode-append (cs_boss_bone oid bones) rest h =
    λ i. cs_boss_bone (short_value oid [] h.0 i) (fun_ext (bone_value oid bones rest h.1) i)
decode-append (cs_update_move_state state) rest h =
    ap cs_update_move_state (ap move_state_of (short_value (move_number state) [] h.0) ∙ h.1)
decode-append unknown rest h = absurd h
decode-append _ rest h = refl
