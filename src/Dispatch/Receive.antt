-- ===== src/Dispatch/Receive.antt =====
-- A completed read of a client, from its bytes to the players.
use lh_server.Prelude.{ℕ, ◌≡◌, ◌≢◌, true, false, Option, none, some, List, [], ◌∷◌}
use lh_server.Net.Contract.{Keeps}
use lh_server.Session.{Server}
use lh_server.Dispatch.Requests.{decode}
use lh_server.Dispatch.Own.{is_login}

-- No packet of the list is a login.
abbrev pub NoLogin : List (List ℕ) → Type 0
NoLogin [] = Unit {0}
NoLogin (buf ∷ bufs) = (is_login (decode buf) ≡ false) × NoLogin bufs

-- What is left of the stream is kept for the next read; a stream that is no sequence of frames, for
-- which `feed` gives `none`, ends the server.
abbrev pub Received : ℕ → Option (List ℕ) → Server → Type 0
Received uid none t = t.world.crashed ≡ true
Received uid (some v) t = Keeps v (t.clients uid)

-- No other player has changed, and no other client's buffer.
abbrev pub Alone : ℕ → Server → Server → Type 0
Alone uid s t =
    (j : ℕ) → j ≢ uid → (t.world.players j ≡ s.world.players j) × (t.clients j ≡ s.clients j)
