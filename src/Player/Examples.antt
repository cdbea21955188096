-- ===== src/Player/Examples.antt =====
-- The player of the sample field: weapon, skills, a kill.
use lh_server.Prelude.{
  [], ◌∷◌, ℕ, suc, ◌≡◌, ◌≢◌, ◌⊎◌, refl, none, some, ◌==◌, true, false, pos, ◌+ℤ◌, ◌-ℤ◌, ◌<ℤ◌, arith,
  if◌then◌else◌,
}
use lh_server.Player.Motion.{contains, enter_game}
use lh_server.Player.Motion.Views.{enter_game_lem}
use lh_server.World.{World, Player, wpn_none, wpn_sword}
use lh_server.World.Samples.{hero, goblin, field, noon}
use lh_server.Player.Combat.{kill_monster, attack, berserk, berserk_off, berserk_sweep}
use lh_server.Player.Combat.Hits.{Mine, berserk-berserk_off}
use lh_server.Player.Combat.Levels.{kill_monster_lem}
use lh_server.Player.Combat.Frames.{attack-Mine}
use lh_server.Player.Skills.{hide, hide_off}
use lh_server.Player.Skills.Flight.{Flight}
use lh_server.Player.Skills.Flags.{hide-hide_off}
use lh_server.Player.Weapons.{eq_wpn, weapon_on, weapon_call}
use lh_server.Player.Weapons.Toggle.{weapon_on_lem}

berserk-berserk_off_example :
    ((j : ℕ)
      → (berserk_off 3 (berserk noon 3 field)).players j
        ≡ (berserk_sweep noon 3 hero field).players j)
    × ((j : ℕ) → j ≢ 3 → (berserk_off 3 (berserk noon 3 field)).players j ≡ field.players j)
berserk-berserk_off_example = berserk-berserk_off noon 3 field hero refl refl refl

kill_monster_lem_example :
    (q : Player) × ((kill_monster 3 10000 field).players 3 ≡ some q)
    × ((j : ℕ) → j ≢ 3 → (kill_monster 3 10000 field).players j ≡ field.players j)
    × (q.exp <ℤ pos 100)
    × (((q.level ≡ pos 1) × (q.exp ≡ pos 95 +ℤ pos 10))
        ⊎ ((q.level ≡ pos 1 +ℤ pos 1)
            × (q.exp ≡ pos 95 +ℤ pos 10 -ℤ pos 100)
            × (q.health_point ≡ q.max_hp)))
kill_monster_lem_example =
    kill_monster_lem 3 10000 field hero goblin refl refl (omega arith) (omega arith)

attack-Mine_example : Mine 3 false field (attack noon 3 field)
attack-Mine_example = attack-Mine noon 3 field hero refl

hide-hide_off_example :
    ((j : ℕ) → (hide_off 3 (hide 3 field)).players j ≡ field.players j)
    × (hide 3 (hide 3 field) ≡ hide 3 field)
hide-hide_off_example = hide-hide_off 3 field hero refl refl

sword_held : wpn_sword ≢ wpn_none
sword_held e = ground arith

weapon_on_lem_example :
    ((weapon_on wpn_sword 3 field).players 3
      ≡ some
          (record hero { wpn_type = if eq_wpn wpn_sword wpn_sword then wpn_none else wpn_sword }))
    × ((weapon_on wpn_sword 3 field).crashed ≡ field.crashed)
    × ((n : ℕ) → weapon_call (suc (suc n)) true wpn_sword 3 field ≡ weapon_on wpn_sword 3 field)
weapon_on_lem_example = weapon_on_lem wpn_sword 3 field hero sword_held refl

abbrev crowded : World
crowded = record field {
  players =
      λ i. if i == 3 then some hero else if i == 5 then some (record hero { id = 5 }) else none;
}

enter_game_lem_example :
    ((a : Player) × ((enter_game 3 crowded).players 3 ≡ some a) × (contains a.view_list 5 ≡ true))
    × ((c : Player) × ((enter_game 3 crowded).players 5 ≡ some c) × (contains c.view_list 3 ≡ true))
enter_game_lem_example =
    enter_game_lem 3 5 crowded hero (record hero { id = 5 }) (λ e. absurd (omega arith))
      (omega arith) refl refl refl refl

abbrev caster : Player
caster = record hero { is_spell_fireball = true; view_list = 10000 ∷ [] }

abbrev range : World
range = record field { players = λ i. if i == 3 then some caster else none }
