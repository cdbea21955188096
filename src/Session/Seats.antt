-- ===== src/Session/Seats.antt =====
-- Who is connected has a player, and the player knows its slot.
use lh_server.Prelude.{
  ℕ, ◌<◌, ◌≡◌, ◌≢◌, refl, Bool, true, false, List, [], ◌∷◌, none, some, Bool-cases, inl, inr, arith,
  ◌⊎◌, update, ◌==◌, lt→ltb,
}
use lh_server.World.{Player, player_ids}
use lh_server.World.Send.{broadcast}
use lh_server.Session.{Server, free_slot, accept, disconnect}

-- In each slot: connected, and with a player whose id is the slot; or free, and with none.
abbrev pub Seated : Server → ℕ → Type 0
Seated s i =
    ((s.connected i ≡ true) × ((p : Player) × (s.world.players i ≡ some p) × (p.id ≡ i)))
    ⊎ ((s.connected i ≡ false) × (s.world.players i ≡ none))

free_slot-free :
    (connected : ℕ → Bool) (ids : List ℕ) (i : ℕ)
    → free_slot connected ids ≡ some i
    → connected i ≡ false
unfolding free_slot
free_slot-free connected [] i e = absurd (ground arith)
free_slot-free connected (j ∷ js) i e = elim (Bool-cases (connected j)) [
  | inl c ↦ free_slot-free connected js i (ground (arith, c, e))
  | inr c ↦ ground (arith, c, e)
]

seat_taken :
    (s : Server) (i j : ℕ) (p : Player)
    → p.id ≡ i
    → Seated s j
    → ((update s.connected i true j ≡ true)
        × ((q : Player) × (update s.world.players i (some p) j ≡ some q) × (q.id ≡ j)))
      ⊎ ((update s.connected i true j ≡ false) × (update s.world.players i (some p) j ≡ none))
seat_taken s i j p e seated = elim (Bool-cases (j == i)) [
  | inl h ↦ inl (ground (arith, h), (p, ground (arith, h), ground (arith, h, e)))
  | inr h ↦ rw h seated
]

seat_left :
    (s : Server) (i j : ℕ)
    → Seated s j
    → ((update s.connected i false j ≡ true)
        × ((q : Player) × (update s.world.players i none j ≡ some q) × (q.id ≡ j)))
      ⊎ ((update s.connected i false j ≡ false) × (update s.world.players i none j ≡ none))
seat_left s i j seated = elim (Bool-cases (j == i)) [
  | inl h ↦ inr (ground (arith, h), ground (arith, h))
  | inr h ↦ rw h seated
]

-- A new client gets a slot that was free, a player of its own, and an empty buffer; no player of another
-- slot changes. Every slot that was in order is so afterwards: connected with a player that knows its
-- slot, or free and without one.
pub accept_lem :
    (memory : Player) (s : Server) (i : ℕ)
    → free_slot s.connected player_ids ≡ some i
    → (s.connected i ≡ false)
      × ((accept memory s).connected i ≡ true)
      × ((accept memory s).world.players i ≡ some (record memory { id = i }))
      × (((accept memory s).clients i).prev_size ≡ 0)
      × ((j : ℕ) → j ≢ i → (accept memory s).world.players j ≡ s.world.players j)
      × ((j : ℕ) → Seated s j → Seated (accept memory s) j)
unfolding accept
accept_lem memory s i e =
    rw (e, accept)
      (
        free_slot-free s.connected player_ids i e,
        ground arith,
        ground arith,
        ground arith,
        λ j h. ground arith,
        λ j seated. seat_taken s i j (record memory { id = i }) refl seated,
      )

-- Who leaves one of the ten slots, with a player there, has the slot freed; no player of another slot
-- changes, and every slot that was in order is so afterwards.
pub disconnect_lem :
    (uid : ℕ) (s : Server) (p : Player)
    → s.world.players uid ≡ some p
    → uid < 10
    → ((disconnect uid s).connected uid ≡ false)
      × ((disconnect uid s).world.players uid ≡ none)
      × ((j : ℕ) → j ≢ uid → (disconnect uid s).world.players j ≡ s.world.players j)
      × ((j : ℕ) → Seated s j → Seated (disconnect uid s) j)
unfolding disconnect broadcast
disconnect_lem uid s p e small =
    rw (e, lt→ltb uid 10 small, disconnect)
      (ground arith, ground arith, λ j h. ground arith, λ j seated. seat_left s uid j seated)
