-- ===== src/Protocol/Examples.antt =====
-- Packets on concrete fields.
use lh_server.Prelude.{◌≡◌, refl, [], ◌∷◌, map, some, pos, negsuc}
use lh_server.Net.Framing.{feed, concat}
use lh_server.Protocol.{Packet, encode}
use lh_server.Protocol.Frames.{feed-sent}

abbrev hurt : Packet
hurt = Packet.damaged (pos 3) (negsuc 4)

-- A health of -5 goes out as a negative short.
encode-hurt : encode hurt ≡ 6 ∷ 46 ∷ 3 ∷ 0 ∷ 251 ∷ 255 ∷ []
unfolding encode
encode-hurt = refl

feed-sent_example :
    feed [] (concat (map encode (hurt ∷ Packet.set_host ∷ [])))
    ≡ (some [], map encode (hurt ∷ Packet.set_host ∷ []))
feed-sent_example = feed-sent (hurt ∷ Packet.set_host ∷ [])
