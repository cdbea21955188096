-- ===== src/Damage/Clamp.antt =====
-- Health never falls below 0, and who has none left is dead.
use lh_server.Prelude.{ℕ, ◌≡◌, ◌≢◌, ◌⊎◌, false, some, ℤ, pos, ◌-ℤ◌, ◌≤ℤ◌, ◌<ℤ◌, -ℤ_parts, arith}
use lh_server.World.{World, Player, with_player-some}
use lh_server.World.Send.{broadcast}
use lh_server.Damage.{take_damage}

-- The player's health after the damage is what is left of it, or 0; who falls to 0 is dead; nobody
-- else changes.
pub take_damage_lem :
    (me : ℕ) (damage : ℤ) (w : World) (p : Player)
    → w.players me ≡ some p
    → (((p.health_point ≤ℤ damage)
          × ((take_damage me damage w).players me
              ≡ some (record p { health_point = pos 0; is_alive = false })))
        ⊎ ((damage <ℤ p.health_point)
            × ((take_damage me damage w).players me
                ≡ some (record p { health_point = p.health_point -ℤ damage }))))
      × ((j : ℕ) → j ≢ me → (take_damage me damage w).players j ≡ w.players j)
unfolding take_damage broadcast
take_damage_lem me damage w p e = (
  rw (with_player-some me w _ e) (ground (arith, -ℤ_parts p.health_point damage)),
  λ j h. rw (with_player-some me w _ e) (ground arith),
)
