-- ===== src/Damage/Examples.antt =====
-- Damage on the goblin and on the player of the sample field.
use lh_server.Prelude.{ℕ, ◌≡◌, ◌≢◌, ◌⊎◌, refl, some, false, pos, ◌-ℤ◌, ◌≤ℤ◌, ◌<ℤ◌}
use lh_server.World.Samples.{hero, field}
use lh_server.Damage.{take_damage}
use lh_server.Damage.Clamp.{take_damage_lem}

take_damage_lem_example :
    (((pos 10 ≤ℤ pos 12)
        × ((take_damage 3 (pos 12) field).players 3
            ≡ some (record hero { health_point = pos 0; is_alive = false })))
      ⊎ ((pos 12 <ℤ pos 10)
          × ((take_damage 3 (pos 12) field).players 3
              ≡ some (record hero { health_point = pos 10 -ℤ pos 12 }))))
    × ((j : ℕ) → j ≢ 3 → (take_damage 3 (pos 12) field).players j ≡ field.players j)
take_damage_lem_example = take_damage_lem 3 (pos 12) field hero refl
