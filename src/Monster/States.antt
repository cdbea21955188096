-- ===== src/Monster/States.antt =====
-- Server/state.cpp: what each state of a monster does when its timer fires.
pub mod Schedule
use lh_server.Prelude.{
  ℕ, ◌+◌, Bool, true, false, List, [], ◌∷◌, Option, none, some, ltb, leb, ◌==◌, ◌&&◌, ◌||◌, not,
  if◌then◌else◌, ℤ, pos, negsuc, ltb_ℤ, leb_ℤ, eqb_ℤ, get_or,
}
use lh_server.Physics.{Fpu, Position, get_distance}
use lh_server.World.{
  World, Env, Player, Monster, MonState, m_idle, m_chase, m_attack, m_rhome, m_dead, ev_monster,
  set_monster, with_monster, crash, no_detected, player_ids,
}
use lh_server.World.Timers.{add_timer}
use lh_server.Monster.{change_state, player_at, update_target, chase, monster_attack, living}

-- CHASE_RANGE, ACTIVITY_RANGE 4000'00, IDLE_RANGE.
abbrev pub chase_range : ℤ
chase_range = pos 2000

abbrev pub activity_range : ℤ
activity_range = pos 400000

abbrev pub idle_range : ℤ
idle_range = pos 5

-- AddTimer(mon->GetID(), EV_MONSTER, now + delay, NULL)
unfoldable pub again : Env → ℕ → ℕ → World → World
again env oid delay w =
    with_monster oid w λ m. add_timer m.id ev_monster (env.now + delay) (pos 0) w

abbrev pub nobody_near : ℤ
nobody_near = pos 9_999_999

-- disArray: the distance to each living player who is in reach.
unfoldable pub look_around : Fpu → Position → (ℕ → Option Player) → List ℕ → List ℤ
look_around f at players [] = []
look_around f at players (i ∷ is) =
    elim (players i) [
      | none ↦ nobody_near
      | some p ↦
          let d : ℤ = get_distance f at p.pos in
          if p.is_alive && (leb_ℤ (pos 0) d && ltb_ℤ d chase_range) then d else nobody_near
    ]
    ∷ look_around f at players is

-- chaseID: the first place of the least distance.
unfoldable pub pick : List ℤ → ℕ → List ℕ → ℕ
pick dis best [] = best
pick dis best (i ∷ is) =
    let d : ℤ = get_or dis i nobody_near in
    pick dis
      (if not (eqb_ℤ d no_detected) && (leb_ℤ (pos 0) d && ltb_ℤ d (get_or dis best nobody_near))
        then i
        else best)
      is

-- `Execute` behind the choice of the player `t`, whom it chases, attacks or leaves.
unfoldable pub idle_decide : Env → ℕ → ℕ → Player → World → World
idle_decide env oid t p w = with_monster oid w λ m.
    let aimed : World = set_monster w oid (record m { target = pos t }) in
    let d : ℤ = get_distance env.fpu m.pos p.pos in
    again env oid 1000 (
      if ltb_ℤ d m.atk_range
      then (if ltb_ℤ d (pos 0) then aimed else change_state oid m_attack aimed)
      else if ltb_ℤ activity_range (get_distance env.fpu m.pos m.default_pos)
      then change_state oid m_rhome aimed
      else if ltb_ℤ d chase_range
      then change_state oid m_chase aimed
      else aimed)

-- `IdleState::Execute`. A monster without health enters the dead state, and the call goes on.
unfoldable pub idle_execute : Env → ℕ → World → World
idle_execute env oid w = with_monster oid w λ m.
    let v : World = if leb_ℤ m.health_point (pos 0) then change_state oid m_dead w else w in
    let chase_id : ℕ = pick (look_around env.fpu m.pos w.players player_ids) 0 player_ids in
    elim (w.players chase_id) [
      | none ↦ again env oid 1000 v
      | some p ↦ if p.is_alive then idle_decide env oid chase_id p v else again env oid 1000 v
    ]

-- `ChaseState::Execute` behind UpdateTarget.
unfoldable pub chase_on : Env → ℕ → World → World
chase_on env oid w = with_monster oid w λ m. elim (player_at m.target w) [
  | none ↦ again env oid 1000 w
  | some p ↦
      let gone : World = chase env oid p w in
      with_monster oid gone λ n.
        if ltb_ℤ (get_distance env.fpu n.pos p.pos) n.atk_range
        then again env oid 1000 (change_state oid m_attack gone)
        else again env oid 100 gone
]

unfoldable pub chase_execute : Env → ℕ → World → World
chase_execute env oid w = with_monster oid w λ m.
    if leb_ℤ m.health_point (pos 0)
    then again env oid 1000 (change_state oid m_dead w)
    else chase_on env oid (update_target env oid w)

unfoldable pub attack_on : Env → ℕ → ℕ → Player → World → World
attack_on env oid t p w = with_monster oid w λ m.
    if ltb_ℤ m.atk_range (get_distance env.fpu m.pos p.pos)
    then again env oid 1000 (change_state oid m_chase w)
    else again env oid 3000 w

-- `AttackState::Execute`.
unfoldable pub attack_execute : Env → ℕ → World → World
attack_execute env oid w = with_monster oid w λ m.
    if leb_ℤ m.health_point (pos 0)
    then again env oid 1000 (change_state oid m_dead w)
    else elim m.target [
      | negsuc t ↦ again env oid 1000 (change_state oid m_idle w)
      | pos t ↦ elim (w.players t) [
        | none ↦ again env oid 1000 (change_state oid m_idle w)
        | some p ↦
            if not p.is_alive
            then again env oid 1000 (change_state oid m_idle w)
            else attack_on env oid t p (monster_attack env oid t w)
      ]
    ]

-- `ReturnHomeState::Execute`: three tests in a row, each with its change of state.
unfoldable pub home_execute : Env → ℕ → World → World
home_execute env oid w = with_monster oid w λ m.
    let a : World = if leb_ℤ m.health_point (pos 0) then change_state oid m_dead w else w in
    let b : World =
      if ltb_ℤ (get_distance env.fpu m.pos m.default_pos) idle_range
      then change_state oid m_idle a
      else a in
    let c : World = if ltb_ℤ m.health_point m.prev_health then change_state oid m_chase b else b in
    again env oid 1000 c

-- `CMonster::Update`.
unfoldable pub update : Env → ℕ → World → World
update env oid w = with_monster oid w λ m. elim m.state [
  | m_idle ↦ idle_execute env oid w
  | m_chase ↦ chase_execute env oid w
  | m_attack ↦ attack_execute env oid w
  | m_rhome ↦ home_execute env oid w
  | m_dead ↦ w
]
