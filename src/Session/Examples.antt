-- ===== src/Session/Examples.antt =====
-- A client that joins the sample field, and one that leaves it.
use lh_server.Prelude.{ℕ, ◌≡◌, ◌≢◌, refl, false, true, some, ◌==◌, replicate}
use lh_server.World.Samples.{hero, field}
use lh_server.World.{player_ids}
use lh_server.Net.{buf_size}
use lh_server.Session.{Server, accept, free_slot}
use lh_server.Session.Seats.{Seated, accept_lem}

abbrev server : Server
server = record {
  world = field;
  connected = λ i. i == 3;
  clients = λ i. record { prev_size = 1; packet_buf = replicate buf_size 0 };
}

first_free : free_slot server.connected player_ids ≡ some 0
unfolding free_slot
first_free = refl

accept_lem_example :
    (server.connected 0 ≡ false)
    × ((accept hero server).connected 0 ≡ true)
    × ((accept hero server).world.players 0 ≡ some (record hero { id = 0 }))
    × (((accept hero server).clients 0).prev_size ≡ 0)
    × ((j : ℕ) → j ≢ 0 → (accept hero server).world.players j ≡ field.players j)
    × ((j : ℕ) → Seated server j → Seated (accept hero server) j)
accept_lem_example = accept_lem hero server 0 first_free
