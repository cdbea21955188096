-- ===== src/System/Clients.antt =====
-- What accepting a client, serving it and its leaving keep: who is connected has a player in its slot.
use lh_server.Prelude.{
  ℕ, ◌<◌, ◌≡◌, Bool, true, List, [], ◌∷◌, Option, some, ◌==◌, inl, inr, Bool-cases, Option-cases,
  ltb, arith, if◌then◌else◌,
}
use lh_server.World.{Env, Player}
use lh_server.World.Send.{broadcast}
use lh_server.World.Seats.{id_at, Seats}
use lh_server.Net.{Finish, returned, bad_count, spins, recv_packet_construct}
use lh_server.Session.{Server, free_slot, accept, disconnect}
use lh_server.Dispatch.Requests.{decode}
use lh_server.Dispatch.{Database, handle, is_unknown, process_packet, process_all, on_recv}
use lh_server.World.{player_ids, crash, max_player, World}
use lh_server.System.Packets.{handle-Steady}

-- Who is connected has one of the slots, and a player in it with the slot for its id.
abbrev pub Places : (ℕ → Bool) → (ℕ → Option Player) → Type 0
Places connected players =
    (i : ℕ) → connected i ≡ true → (i < max_player) × (id_at players i ≡ some i)

pub Seats-Places :
    (connected : ℕ → Bool) (w v : World)
    → Seats w v
    → Places connected w.players
    → Places connected v.players
Seats-Places connected w v k h i c = let old = h i c in (old.0, k i old.1)

abbrev AllBelow : ℕ → List ℕ → Type 0
AllBelow n [] = Unit {0}
AllBelow n (i ∷ is) = (i < n) × AllBelow n is

free_slot-low :
    (connected : ℕ → Bool) (ids : List ℕ) (n i : ℕ)
    → free_slot connected ids ≡ some i
    → AllBelow n ids
    → i < n
unfolding free_slot
free_slot-low connected [] n i e h = absurd (ground arith)
free_slot-low connected (j ∷ js) n i e h = elim (Bool-cases (connected j)) [
  | inl c ↦ free_slot-low connected js n i (ground (arith, c, e)) h.1
  | inr c ↦ ground (arith, c, e, h.0)
]

pub accept-Places :
    (memory : Player) (s : Server)
    → Places s.connected s.world.players
    → Places (accept memory s).connected (accept memory s).world.players
unfolding accept
accept-Places memory s h = elim (Option-cases (free_slot s.connected player_ids)) [
  | inl e ↦ rw (e, accept) h
  | inr (i, e) ↦
      rw (e, accept)
        λ j c. elim (Bool-cases (j == i)) [
          | inl same ↦ (
            ground
                (arith, same, free_slot-low s.connected player_ids max_player i e (ground arith)),
            ground (arith, same),
          )
          | inr other ↦ rw other (h j (rw other at c))
        ]
]

pub disconnect-Places :
    (uid : ℕ) (s : Server)
    → Places s.connected s.world.players
    → Places (disconnect uid s).connected (disconnect uid s).world.players
unfolding disconnect broadcast crash
disconnect-Places uid s h = elim (Option-cases (s.world.players uid)) [
  | inl e ↦ rw (e, disconnect) h
  | inr (p, e) ↦
      rw (e, disconnect)
        (elim (Bool-cases (ltb uid 10)) [
          | inl low ↦ rw low λ j c. elim (Bool-cases (j == uid)) [
            | inl same ↦ absurd (ground (arith, same, c))
            | inr other ↦ rw other (h j (rw other at c))
          ]
          | inr high ↦ rw high h
        ])
]

process_packet-Places :
    (env : Env) (db : Database) (uid : ℕ) (buf : List ℕ) (s : Server)
    → Places s.connected s.world.players
    → Places
        (process_packet env db uid buf s).connected
        (process_packet env db uid buf s).world.players
unfolding process_packet crash
process_packet-Places env db uid buf s h = elim (Bool-cases (is_unknown (decode buf))) [
  | inl e ↦ rw e (disconnect-Places uid s h)
  | inr e ↦ rw e (
      Seats-Places s.connected s.world (handle env db uid (decode buf) s.world)
        (handle-Steady env db uid (decode buf) s.world).seats h)
]

process_all-Places :
    (env : Env) (db : Database) (uid : ℕ) (bufs : List (List ℕ)) (s : Server)
    → Places s.connected s.world.players
    → Places (process_all env db uid bufs s).connected (process_all env db uid bufs s).world.players
unfolding process_all
process_all-Places env db uid [] s h = h
process_all-Places env db uid (buf ∷ bufs) s h =
    process_all-Places env db uid bufs (process_packet env db uid buf s)
      (process_packet-Places env db uid buf s h)

pub on_recv-Places :
    (env : Env) (db : Database) (uid : ℕ) (bytes : List ℕ) (s : Server)
    → Places s.connected s.world.players
    → Places (on_recv env db uid bytes s).connected (on_recv env db uid bytes s).world.players
unfolding on_recv crash
on_recv-Places env db uid [] s h = disconnect-Places uid s h
on_recv-Places env db uid (b ∷ bs) s h = ends (recv_packet_construct (s.clients uid) (b ∷ bs))
  where
    ends :
        (o : Finish × List (List ℕ))
        → let done : Server = process_all env db uid o.1 s in
          let t : Server = elim o.0 [
            | returned cu ↦ record done { clients = λ j. if j == uid then cu else done.clients j }
            | bad_count ↦ record done { world = crash done.world }
            | spins ↦ record done { world = crash done.world }
          ] in
          Places t.connected t.world.players
    ends (returned cu, bufs) = process_all-Places env db uid bufs s h
    ends (bad_count, bufs) = process_all-Places env db uid bufs s h
    ends (spins, bufs) = process_all-Places env db uid bufs s h
