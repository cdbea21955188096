-- ===== src/Damage.antt =====
-- Taking damage: `TakeDamage` and `Death` of Server/CMonster.cpp, `TakeDamage` of Server/Boss.cpp and
-- of Server/CPlayer.cpp.
pub mod Clamp
mod Examples
use lh_server.Prelude.{
  ℕ, Bool, true, false, Option, none, some, ltb, if◌then◌else◌, ℤ, pos, ◌-ℤ◌, leb_ℤ, update, ◌==◌,
}
use lh_server.Physics.{Float, Position}
use lh_server.Protocol.{Packet}
use lh_server.World.{
  World, Player, Monster, Boss, set_player, set_monster, set_boss, with_player, with_monster, crash,
}
use lh_server.Monster.Packets.{make_damaged_packet}
use lh_server.World.Send.{broadcast}

abbrev pub origin : Position
origin = record { x = 0; y = 0; z = 0 }

-- The monster after `Death`; 0 is the bit pattern of the float 0.
unfoldable pub death : Monster → Monster
death m = record m { health_point = pos 0; pos = origin }

-- The monster `oid` loses `atk_point`; the result is what the call returns.
unfoldable pub monster_take_damage : ℕ → ℤ → World → World × ℤ
unfolding death
monster_take_damage oid atk_point w = elim (w.monsters oid) [
  | none ↦ (crash w, pos 0)
  | some m ↦
      let hp : ℤ = m.health_point -ℤ atk_point in
      if leb_ℤ hp (pos 0)
      then (set_monster w oid (death (record m { health_point = hp })), pos 0)
      else (
        broadcast (make_damaged_packet (record m { health_point = hp }))
            (set_monster w oid (record m { health_point = hp })),
        hp,
      )
]

unfoldable pub boss_take_damage : ℕ → ℤ → World → World
boss_take_damage oid damage w = elim (w.bosses oid) [
  | none ↦ crash w
  | some b ↦
      let hp : ℤ = b.main_hp -ℤ damage in
      if leb_ℤ hp (pos 0)
      then broadcast (Packet.dead (pos b.id)) (set_boss w oid (record b { main_hp = pos 0 }))
      else set_boss w oid (record b { main_hp = hp })
]

-- The packet goes out with the health before it is held at 0.
unfoldable pub take_damage : ℕ → ℤ → World → World
take_damage me damage w = with_player me w λ p.
    let hp : ℤ = p.health_point -ℤ damage in
    let hurt : World =
      broadcast (Packet.damaged (pos p.id) hp) (set_player w me (record p { health_point = hp })) in
    if leb_ℤ hp (pos 0)
    then broadcast (Packet.dead (pos p.id))
        (set_player hurt me (record p { health_point = pos 0; is_alive = false }))
    else hurt
