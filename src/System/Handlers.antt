-- ===== src/System/Handlers.antt =====
-- The handlers of the packets, and Disconnect and accepting, leave the monsters to themselves.
use lh_server.Prelude.{ℕ, ◌≡◌, refl, true, none, some, ℤ, pos, negsuc, arith, ltb}
use lh_server.Physics.{Fpu, Position, sub_pos}
use lh_server.World.{
  World, Env, Player, Monster, MonState, m_idle, m_chase, m_attack, m_rhome, m_dead, WeaponType,
  MoveState, crash, with_player, set_player, set_monster, boss_idx,
}
use lh_server.World.Send.{send, broadcast, broadcast_others, broadcast_all, send_view}
use lh_server.Player.Skills.{is_battle_mode, set_ready, guard, evade, hide, hide_off}
use lh_server.Player.Weapons.{
  weapon_on, weapon_off, weapon_call, weapon_on_body, weapon_off_body, tell_on,
}
use lh_server.Player.Motion.{
  move_to, set_position, set_velocity, set_move_state, meet, show_monster, tell_weapon,
}
use lh_server.Protocol.{Packet}
use lh_server.Monster.{update_with_client, player_at}
use lh_server.Dispatch.{
  to_far_place, draw_weapon, sheathe_weapon, move, stop_moving, move_npc, change_move_state,
}
use lh_server.System.Ticks.{Ticks-refl, Ticks-untouched}
use lh_server.World.Seats.{Seats}
use lh_server.System.Steady.{
  set_player-Steady, Steady, Steady-refl, Steady-untouched, add_timer-Steady, set_monster-Steady,
  if-Steady, with_player-Steady, with_monster-Steady, elim-Steady,
}

-- Neither the monsters nor the timers nor the golem have changed, and the players sit where they did.
abbrev pub Still : World → World → Type 0
Still w v = (v.monsters ≡ w.monsters) × (v.timers ≡ w.timers) × (v.bosses ≡ w.bosses) × Seats w v

pub Steady-of_Still : (w v : World) → Still w v → Steady w v
Steady-of_Still w v s = record {
  ticks = Ticks-untouched w w v s.0 s.1 s.2 (Ticks-refl w);
  seats = s.3;
}

pub guard-Steady : (env : Env) (uid : ℕ) (w : World) → Steady w (guard env uid w)
unfolding guard broadcast
guard-Steady env uid w = with_player-Steady uid w w _ (Steady-refl w) λ p e.
    let guarding : Player = record p { is_guard = true } in
    if-Steady p.is_guard w w _ (Steady-refl w) (
      add_timer-Steady _ _ _ _ w _ refl refl (
        Steady-untouched w (set_player w uid guarding) _ refl refl refl refl
          (set_player-Steady uid p guarding w w e refl (Steady-refl w))))

pub hide-Still : (uid : ℕ) (w : World) → Still w (hide uid w)
unfolding hide with_player crash broadcast
hide-Still uid w = (ground arith, ground arith, ground arith, λ i h. ground (arith, h))

pub hide_off-Still : (uid : ℕ) (w : World) → Still w (hide_off uid w)
unfolding hide_off with_player crash broadcast
hide_off-Still uid w = (ground arith, ground arith, ground arith, λ i h. ground (arith, h))

pub set_ready-Still : (uid : ℕ) (w : World) → Still w (set_ready uid w)
unfolding set_ready with_player crash
set_ready-Still uid w = (ground arith, ground arith, ground arith, λ i h. ground (arith, h))

pub to_far_place-Still : (env : Env) (uid : ℕ) (w : World) → Still w (to_far_place env uid w)
unfolding to_far_place set_position with_player crash send
to_far_place-Still env uid w = (ground arith, ground arith, ground arith, λ i h. ground (arith, h))

pub draw_weapon-Still : (uid : ℕ) (w : World) → Still w (draw_weapon uid w)
unfolding draw_weapon with_player crash send_view
draw_weapon-Still uid w = (ground arith, ground arith, ground arith, λ i h. ground (arith, h))

pub sheathe_weapon-Still : (uid : ℕ) (w : World) → Still w (sheathe_weapon uid w)
unfolding sheathe_weapon with_player crash send_view
sheathe_weapon-Still uid w = (ground arith, ground arith, ground arith, λ i h. ground (arith, h))

pub move-Still :
    (env : Env) (uid : ℕ) (destination rotation velocity : Position) (w : World)
    → Still w (move env uid destination rotation velocity w)
unfolding move move_to set_position set_velocity with_player crash broadcast_others
move-Still env uid destination rotation velocity w =
    (ground arith, ground arith, ground arith, λ i h. ground (arith, h))

pub stop_moving-Still : (uid : ℕ) (w : World) → Still w (stop_moving uid w)
unfolding stop_moving with_player crash broadcast
stop_moving-Still uid w = (ground arith, ground arith, ground arith, λ i h. ground (arith, h))

pub change_move_state-Still :
    (uid : ℕ) (state : MoveState) (w : World) → Still w (change_move_state uid state w)
unfolding change_move_state set_move_state with_player crash broadcast
change_move_state-Still uid state w =
    (ground arith, ground arith, ground arith, λ i h. ground (arith, h))

pub weapon_on-Still : (wpn : WeaponType) (uid : ℕ) (w : World) → Still w (weapon_on wpn uid w)
unfolding weapon_on weapon_call weapon_on_body weapon_off_body tell_on with_player crash
    broadcast_all
weapon_on-Still wpn uid w = (ground arith, ground arith, ground arith, λ i h. ground (arith, h))

pub weapon_off-Still : (wpn : WeaponType) (uid : ℕ) (w : World) → Still w (weapon_off wpn uid w)
unfolding weapon_off weapon_call weapon_on_body weapon_off_body tell_on with_player crash
    broadcast_all
weapon_off-Still wpn uid w = (ground arith, ground arith, ground arith, λ i h. ground (arith, h))

pub evade-Steady : (env : Env) (uid : ℕ) (w : World) → Steady w (evade env uid w)
unfolding evade broadcast_others
evade-Steady env uid w = with_player-Steady uid w w _ (Steady-refl w) λ p e.
    let moving : World = set_player w uid (record p { is_evade = true }) in
    let told : World = broadcast_others p.id (Packet.evade (pos p.id)) moving in
    let telling : Steady w told =
      Steady-untouched w moving told refl refl refl refl
        (set_player-Steady uid p _ w w e refl (Steady-refl w)) in
    if-Steady p.is_evade w w _ (Steady-refl w) (
      add_timer-Steady _ _ _ _ w _ refl refl
        (if-Steady (is_battle_mode env.fpu uid moving) w told told telling telling))

pub update_with_client-Steady :
    (f : Fpu) (oid : ℕ) (w v : World) → Steady w v → Steady w (update_with_client f oid v)
unfolding update_with_client
update_with_client-Steady f oid w v k =
    with_monster-Steady oid w v _ k λ m e. by_state m e m.mon_state
  where
    by_state :
        (m : Monster)
        → v.monsters oid ≡ some m
        → (s : MonState)
        → Steady w (elim s [
          | m_chase ↦ elim (player_at m.target v) [
            | none ↦ v
            | some p ↦ set_monster v oid (record m { velocity = sub_pos f p.pos m.pos })
          ]
          | _ ↦ v
        ])
    by_state m e m_idle = k
    by_state m e m_chase =
        elim-Steady (player_at m.target v) w v _ k
          λ p h. set_monster-Steady oid m _ w v e refl refl k
    by_state m e m_attack = k
    by_state m e m_rhome = k
    by_state m e m_dead = k

moved-same :
    (f : Fpu) (m : Monster) (q : Position)
    → ((lh_server.Monster.set_position f m q).id ≡ m.id)
      × ((lh_server.Monster.set_position f m q).state ≡ m.state)
unfolding lh_server.Monster.set_position
moved-same f m q = ground arith

pub move_npc-Steady :
    (env : Env) (oid : ℤ) (place : Position) (w : World) → Steady w (move_npc env oid place w)
unfolding move_npc
move_npc-Steady env (negsuc oid) place w = Steady-refl w
move_npc-Steady env (pos oid) place w =
    let k = Steady-refl w in
    if-Steady (ltb oid boss_idx) w _ w
      (elim-Steady (w.monsters oid) w w _ k λ m e.
        let same = moved-same env.fpu m place in
        update_with_client-Steady env.fpu oid w _
          (set_monster-Steady oid m _ w w e same.0 same.1 k))
      k

pub meet-Still : (me i : ℕ) (w : World) → Still w (meet me i w)
unfolding meet with_player crash tell_weapon send
meet-Still me i w = (ground arith, ground arith, ground arith, λ i h. ground (arith, h))

pub show_monster-Still : (me i : ℕ) (w : World) → Still w (show_monster me i w)
unfolding show_monster send
show_monster-Still me i w = (ground arith, ground arith, ground arith, λ i h. ground (arith, h))
