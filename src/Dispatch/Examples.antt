-- ===== src/Dispatch/Examples.antt =====
-- Packets from the player of the sample field.
use lh_server.Prelude.{map, ℕ, ◌≡◌, refl, true, List, [], ◌∷◌, ◌==◌, replicate, arith}
use lh_server.World.Samples.{field, noon}
use lh_server.Net.{buf_size}
use lh_server.Session.{Server}
use lh_server.Dispatch.Requests.{Request, move_packet, cs_attack}
use lh_server.Dispatch.Wire.{encode_request}
use lh_server.Dispatch.Stream.{handle_all, on_recv-encode_request}
use lh_server.Dispatch.{on_recv}
use lh_server.Net.Framing.{concat}
use lh_server.Net.Contract.{Keeps}

abbrev server : Server
server = record {
  world = field;
  connected = λ i. i == 3;
  clients = λ i. record { prev_size = 0; packet_buf = replicate buf_size 0 };
}

abbrev attack_bytes : List ℕ
attack_bytes = 2 ∷ 23 ∷ []

nothing-Keeps : Keeps [] (server.clients 3)
nothing-Keeps = record { stored = refl; counted = refl; room = refl; pending = tt }

-- An attack, and a move to a place.
abbrev requests : List Request
requests =
    move_packet (record { x = 7; y = 8; z = 9 }) (record { x = 1; y = 2; z = 3 })
      (record { x = 4; y = 5; z = 6 })
    ∷ []

on_recv-encode_request_example :
    let bytes = concat (map encode_request (cs_attack ∷ requests)) in
    let t = on_recv noon (λ name pass. true) 3 bytes server in
    (t.world ≡ handle_all noon (λ name pass. true) 3 (cs_attack ∷ requests) field)
    × (t.connected ≡ server.connected)
    × Keeps [] (t.clients 3)
on_recv-encode_request_example =
    on_recv-encode_request noon (λ name pass. true) 3 cs_attack requests server
      (tt, ((omega arith, (omega arith, omega arith)), tt)) nothing-Keeps
