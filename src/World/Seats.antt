-- ===== src/World/Seats.antt =====
-- Which slots hold a player with the slot's number for its id.
use lh_server.Prelude.{ℕ, ◌≡◌, ap, sym, ◌∙◌, Option, none, some, ◌==◌, Bool-cases, inl, inr, arith}
use lh_server.World.{World, Player, set_player}

-- The id of the player in a slot.
abbrev pub id_of : Option Player → Option ℕ
id_of none = none
id_of (some p) = some p.id

abbrev pub id_at : (ℕ → Option Player) → ℕ → Option ℕ
id_at players i = id_of (players i)

-- A player who sits in the slot of its id does so still.
abbrev pub Seats : World → World → Type 0
Seats w v = (i : ℕ) → id_at w.players i ≡ some i → id_at v.players i ≡ some i

-- A player is written back with its id.
pub set_player-Seats :
    (me : ℕ) (p q : Player) (w v : World)
    → v.players me ≡ some p
    → q.id ≡ p.id
    → Seats w v
    → Seats w (set_player v me q)
set_player-Seats me p q w v e id k i h = elim (Bool-cases (i == me)) [
  | inl same ↦
      let here : i ≡ me = ground (arith, same) in
      let before : v.players i ≡ some p = ap v.players here ∙ e in
      rw same (ap some id ∙ sym (ap id_of before) ∙ k i h)
  | inr other ↦ rw other (k i h)
]
