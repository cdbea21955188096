-- ===== src/World/Send.antt =====
-- Sending to one player and to all: `send_packet` of Server/main.cpp, and the loop over the players
-- that every handler repeats.
use lh_server.Prelude.{
  ℕ, Bool, true, false, List, [], ◌∷◌, Option, none, some, ltb, ◌==◌, ◌&&◌, not, if◌then◌else◌,
}
use lh_server.Protocol.{Packet}
use lh_server.World.{World, player_ids}

abbrev pub is_some {ℓ} : {A : Type ℓ} → Option A → Bool
is_some none = false
is_some (some a) = true

unfoldable pub send : ℕ → Packet → World → World
send i p w = record w { sent = (i, p) ∷ w.sent }

-- for i: if (g_player[i] == NULL) continue; send_packet(i, &p);
unfoldable pub post : List ℕ → (ℕ → Bool) → Packet → List (ℕ × Packet) → List (ℕ × Packet)
post [] to p log = log
post (i ∷ is) to p log = post is to p (if to i then (i, p) ∷ log else log)

unfoldable pub broadcast : Packet → World → World
broadcast p w = record w { sent = post player_ids (λ i. is_some (w.players i)) p w.sent }

-- The same without the player `me`.
unfoldable pub broadcast_others : ℕ → Packet → World → World
broadcast_others me p w = record w {
  sent = post player_ids (λ i. is_some (w.players i) && not (i == me)) p w.sent;
}

-- To all indices, with no test: `send_packet(i, &pack)` for every i.
unfoldable pub broadcast_all : Packet → World → World
broadcast_all p w = record w { sent = post player_ids (λ i. true) p w.sent }

-- To the players of a view list.
unfoldable pub send_view : List ℕ → Packet → World → World
send_view view p w = record w { sent = post view (λ i. ltb i 10) p w.sent }
