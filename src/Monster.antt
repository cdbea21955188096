-- ===== src/Monster.antt =====
-- A monster's life: `Initialize`, `ChangeState`, `SetPosition`, `UpdateTarget`, `Chase`, `Attack` and
-- `UpdateWithClient` of Server/CMonster.cpp. The five states are in Monster/States.
pub mod States
pub mod Target
pub mod Packets
mod Keeps
mod Examples
use lh_server.Prelude.{
  ℕ, zero, suc, ◌+◌, ◌-◌, Bool, true, false, List, [], ◌∷◌, Option, none, some, ltb, leb, ◌==◌,
  ◌&&◌, ◌||◌, not, if◌then◌else◌, ℤ, pos, negsuc, ltb_ℤ, leb_ℤ, eqb_ℤ, get_or, set, replicate,
  pos_part, for_range, length,
}
use lh_server.Physics.{Float, Fpu, Position, get_distance, get_degree, add_pos, sub_pos, scale_pos}
use lh_server.Protocol.{Packet}
use lh_server.World.{
  World, Env, Player, Monster, MonState, m_idle, m_chase, m_attack, m_rhome, m_dead, set_monster,
  set_player, with_monster, with_player, crash, no_detected, player_ids,
}
use lh_server.World.Send.{broadcast}
use lh_server.Damage.{take_damage}
use lh_server.Monster.Packets.{make_update_packet}
use lh_server.Player.Combat.{attack_range}

-- The distance that stands for a player who is not there.
abbrev pub far_off : ℤ
far_off = pos 999_999_999

-- `Initialize` and `SetIndex`: a goblin has 50 health points, all others 30. OBJ_GOBLIN is 4.
unfoldable pub new_monster : ℕ → Position → ℤ → Monster → Monster
new_monster idx place type memory = record memory {
  id = idx;
  pos = place;
  default_pos = place;
  health_point = if eqb_ℤ type (pos 4) then pos 50 else pos 30;
  m_type = type;
  state = m_idle;
  target = no_detected;
  recovery_cool_time = pos 0;
  exp = pos 10;
  atk_point = pos 10;
  atk_range = attack_range;
  player_dir = replicate 10 far_off;
  is_active = false;
}

-- `SetPosition` takes a step of less than 10 only.
unfoldable pub set_position : Fpu → Monster → Position → Monster
set_position f m q = if ltb_ℤ (get_distance f m.pos q) (pos 10) then record m { pos = q } else m

-- The `Exit` and the `Enter` of each state that do something. Enter of the chase and of the attack
-- writes the name of the target, and so follows its pointer: see `change_state`.
abbrev pub idle_exit : Monster → Monster
idle_exit m = record m { recovery_cool_time = pos 0 }

abbrev pub chase_exit : Monster → Monster
chase_exit m = record m { velocity = record { x = 0; y = 0; z = 0 }; chase_end_pos = m.pos }

abbrev pub idle_enter : Monster → Monster
idle_enter m = record m { mon_state = m_idle; is_active = false }

abbrev pub chase_enter : Monster → Monster
chase_enter m = record m { mon_state = m_chase }

abbrev pub attack_enter : Monster → Monster
attack_enter m = record m { mon_state = m_attack }

abbrev pub home_enter : Monster → Monster
home_enter m = record m { prev_health = m.health_point; mon_state = m_rhome }

abbrev pub dead_enter : Monster → Monster
dead_enter m = record m { mon_state = m_dead }

unfoldable pub leave_state : MonState → Monster → Monster
leave_state m_idle m = idle_exit m
leave_state m_chase m = chase_exit m
leave_state m_attack m = m
leave_state m_rhome m = m
leave_state m_dead m = m

-- `state = newState`, and its `Enter`.
unfoldable pub enter_state : MonState → Monster → Monster
enter_state m_idle m = idle_enter (record m { state = m_idle })
enter_state m_chase m = chase_enter (record m { state = m_chase })
enter_state m_attack m = attack_enter (record m { state = m_attack })
enter_state m_rhome m = home_enter (record m { state = m_rhome })
enter_state m_dead m = dead_enter (record m { state = m_dead })

-- g_player[target], for a target that may be -1: there is no player at a negative key.
unfoldable pub player_at : ℤ → World → Option Player
player_at (pos i) w = w.players i
player_at (negsuc i) w = none

abbrev names_target : MonState → Bool
names_target m_idle = false
names_target m_chase = true
names_target m_attack = true
names_target m_rhome = false
names_target m_dead = false

unfoldable pub change_state : ℕ → MonState → World → World
unfolding leave_state enter_state
change_state oid next w = with_monster oid w λ m.
    let changed : World = set_monster w oid (enter_state next (leave_state m.state m)) in
    if names_target next
    then elim (player_at m.target w) [ none ↦ crash changed | some p ↦ changed ]
    else changed

-- The first loop of UpdateTarget: the distance to each player.
unfoldable pub measure : Fpu → Position → (ℕ → Option Player) → List ℕ → List ℤ
measure f at players [] = []
measure f at players (i ∷ is) =
    elim (players i) [ none ↦ far_off | some p ↦ get_distance f at p.pos ] ∷ measure f at players is

abbrev pub dir_at : List ℤ → ℤ → ℤ
dir_at dirs (pos i) = get_or dirs i far_off
dir_at dirs (negsuc i) = far_off

abbrev pub living : (ℕ → Option Player) → ℕ → Bool
living players i = elim (players i) [ none ↦ false | some p ↦ p.is_alive ]

-- The second: the nearest living player, if nearer than the target. With no target the source reads
-- player_dir[-1], before the array; the value here is that of a player who is not there.
unfoldable pub nearest : (ℕ → Option Player) → List ℤ → ℤ → List ℕ → ℤ
nearest players dirs target [] = target
nearest players dirs target (i ∷ is) =
    nearest players dirs
      (if living players i
          && (leb_ℤ (pos 0) (dir_at dirs (pos i))
              && ltb_ℤ (dir_at dirs (pos i)) (dir_at dirs target))
        then pos i
        else target)
      is

unfoldable pub update_target : Env → ℕ → World → World
update_target env oid w = with_monster oid w λ m.
    let dirs : List ℤ = measure env.fpu m.pos w.players player_ids in
    set_monster w oid
      (record m { player_dir = dirs; target = nearest w.players dirs m.target player_ids })

-- SPEED 0.03, as a float.
abbrev pub chase_speed : Float
chase_speed = 0x3cf5c28f

-- `Chase` goes a part of the way towards the target.
unfoldable pub chase : Env → ℕ → Player → World → World
chase env oid p w = with_monster oid w λ m.
    let velocity : Position = record (sub_pos env.fpu p.pos m.pos) { z = 0 } in
    let place : Position = add_pos env.fpu m.pos (scale_pos env.fpu velocity chase_speed) in
    let moved : Monster = record m {
      velocity = velocity;
      pos = place;
      rotation = record m.rotation { y = get_degree env.fpu place p.pos };
    } in
    broadcast (make_update_packet moved) (set_monster w oid moved)

-- GUARD_RANGE.
abbrev pub guard_range : ℤ
guard_range = pos 300

-- `Attack`: turn to the player, show the attack, and hurt the player unless guard or evasion stops it.
unfoldable pub monster_attack : Env → ℕ → ℕ → World → World
monster_attack env oid t w = with_monster oid w λ m. with_player t w λ p.
    let d : ℤ = get_distance env.fpu m.pos p.pos in
    if ltb_ℤ attack_range d
    then w
    else if leb_ℤ d (pos 0)
    then w
    else (let turned : Position = record m.rotation { y = get_degree env.fpu m.pos p.pos } in
        let shown : World = broadcast (Packet.attack (pos m.id) (pos (env.draw 3))) (
          broadcast (Packet.set_rotation (pos m.id) turned)
            (set_monster w oid (record m { rotation = turned }))) in
        if ltb_ℤ d guard_range && p.is_guard
        then broadcast (Packet.block (pos m.id)) shown
        else if ltb_ℤ d guard_range && p.is_evade
        then shown
        else take_damage t m.atk_point (broadcast (Packet.damaged (pos p.id) p.health_point) shown))

-- `UpdateWithClient`.
unfoldable pub update_with_client : Fpu → ℕ → World → World
update_with_client f oid w = with_monster oid w λ m. elim m.mon_state [
  | m_chase ↦ elim (player_at m.target w) [
    | none ↦ w
    | some p ↦ set_monster w oid (record m { velocity = sub_pos f p.pos m.pos })
  ]
  | _ ↦ w
]
