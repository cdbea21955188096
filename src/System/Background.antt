-- ===== src/System/Background.antt =====
-- The events of the timer thread, the fireballs and the database thread leave the monsters to
-- themselves.
use lh_server.Prelude.{ℕ, ◌+◌, refl, Option, none, some, pos, if◌then◌else◌, arith, ltb_ℤ}
use lh_server.Physics.{Position, get_distance3}
use lh_server.Protocol.{Packet}
use lh_server.World.{
  World, Env, Player, Fireball, Event, DbEvent, with_player, crash, set_player, ev_fireball,
}
use lh_server.World.Send.{send, send_view}
use lh_server.World.Timers.{add_timer}
use lh_server.Player.Combat.{berserk_off, calmed, strike}
use lh_server.Player.Skills.{
  advance, first_hit, fireball_range, monster_place, spent, fireball_update,
}
use lh_server.Timer.{fire, unless_null}
use lh_server.Player.Motion.{initialize}
use lh_server.Queries.{Dbms, Desk, find_or_new, log_in, retrieve, save, answer}
use lh_server.System.Steady.{
  Steady, Steady-refl, Steady-untouched, set_player-Steady, add_timer-Steady, if-Steady,
  with_player-Steady, elim-Steady,
}
use lh_server.System.Combat.{strike-Steady}
use lh_server.System.Handlers.{Still}

pub fire-Still : (now : ℕ) (e : Event) (w : World) → Still w (fire now e w)
unfolding fire unless_null berserk_off calmed with_player crash
fire-Still now e w = (ground arith, ground arith, ground arith, λ i h. ground (arith, h))

log_in-Still :
    (env : Env) (db : Dbms) (memory : Player) (ev : DbEvent) (w : World)
    → Still w (log_in env db memory ev w)
unfolding log_in retrieve find_or_new initialize send
log_in-Still env db memory ev w =
    (ground arith, ground arith, ground arith, λ i h. ground (arith, h))

pub answer-Still :
    (env : Env) (db : Dbms) (memory : Player) (ev : DbEvent) (d : Desk)
    → Still d.world (answer env db memory ev d).world
unfolding answer save crash
answer-Still env db memory ev d =
    let logged = log_in-Still env db memory ev d.world in
    (
      ground (arith, logged.0),
      ground (arith, logged.1),
      ground (arith, logged.2),
      λ i h. ground (arith, h, logged.3 i h),
    )

spent-Steady : (owner : ℕ) (w v : World) → Steady w v → Steady w (spent owner v)
unfolding spent
spent-Steady owner w v k =
    with_player-Steady owner w v _ k λ p e. set_player-Steady owner p _ w v e refl k

pub fireball_update-Steady :
    (env : Env) (owner : ℕ) (w : World) → Steady w (fireball_update env owner w)
unfolding fireball_update send send_view crash
fireball_update-Steady env owner w = with_player-Steady owner w w _ (Steady-refl w) λ p e.
    let ball : Fireball = advance env.fpu p.fireball in
    let turn : Position = record { x = 0; y = ball.rotation; z = 0 } in
    let move : Packet = Packet.fireball_move (pos ball.owner_id) ball.pos turn in
    let moved : World =
      send ball.owner_id move
        (send_view p.view_list move (set_player w owner (record p { fireball = ball }))) in
    let moving : Steady w moved =
      Steady-untouched w (set_player w owner (record p { fireball = ball })) moved refl refl refl
        refl
        (set_player-Steady owner p (record p { fireball = ball }) w w e refl (Steady-refl w)) in
    elim-Steady (first_hit env.fpu ball (monster_place w) p.view_list) w _ _
      (Steady-untouched w moved (crash moved) refl refl refl refl moving)
      λ hit f. ends p ball moved moving hit
  where
    ends :
        (p : Player) (ball : Fireball) (moved : World)
        → Steady w moved
        → (hit : Option ℕ)
        → Steady w (elim hit [
          | none ↦
              if ltb_ℤ fireball_range (get_distance3 env.fpu ball.pos ball.def_pos)
              then spent owner moved
              else add_timer ball.owner_id ev_fireball (env.now + 2) (pos 0) moved
          | some i ↦
              let off : Packet = Packet.fireball_off (pos ball.owner_id) in
              spent owner (
                send ball.owner_id off
                  (send_view p.view_list off (strike owner ball.damage i moved)))
        ])
    ends p ball moved k none =
        if-Steady _ w _ _ (spent-Steady owner w moved k)
          (add_timer-Steady _ ev_fireball _ _ w moved refl refl k)
    ends p ball moved k (some i) = spent-Steady owner w _ (
        Steady-untouched w (strike owner ball.damage i moved) _ refl refl refl refl
          (strike-Steady owner ball.damage i w moved k))
