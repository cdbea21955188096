-- ===== src/Protocol/Frames.antt =====
-- Every packet is a frame in the sense of Net/Framing.
use lh_server.Prelude.{
  ℕ, ◌≡◌, List, [], ◌∷◌, ◌++◌, map, some, length, replicate, length-append, length-take,
  length-replicate, arith,
}
use lh_server.Net.Framing.{feed, concat, IsFrame, AllFrames, feed-concat}
use lh_server.Protocol.{Packet, encode, name_bytes, max_len}

pub length-name_bytes : (name : List ℕ) → length (name_bytes name) ≡ 10
length-name_bytes name = omega (
  arith,
  length-take max_len (name ++ replicate max_len 0),
  length-append name (replicate max_len 0),
  length-replicate max_len (let z : ℕ = 0 in z),
)

-- The first byte of every packet is the number of its bytes, and no negative `char`.
pub encode-IsFrame : (p : Packet) → IsFrame (encode p)
unfolding encode
encode-IsFrame (Packet.update_obj pos oid rotation velocity) = omega arith
encode-IsFrame (Packet.enter_obj o_type name oid pos) =
    omega (arith, length-name_bytes name, length-append {0})
encode-IsFrame (Packet.login_ok uid name) = omega (arith, length-name_bytes name)
encode-IsFrame _ = omega arith

AllFrames-map-encode : (ps : List Packet) → AllFrames (map encode ps)
AllFrames-map-encode [] = tt
AllFrames-map-encode (p ∷ ps) = (encode-IsFrame p, AllFrames-map-encode ps)

-- The bytes of any packets that are sent one after another are cut back into those packets by a
-- reader that frames by the first byte, with nothing left over.
pub feed-sent : (ps : List Packet) → feed [] (concat (map encode ps)) ≡ (some [], map encode ps)
feed-sent ps = feed-concat (map encode ps) (AllFrames-map-encode ps)
