-- ===== src/Boss/States.antt =====
-- Server/BossState.cpp: what each state of the golem does when its timer fires, and `Boss::Update`.
use lh_server.Prelude.{
  ℕ, ◌+◌, ◌%◌, Bool, true, false, Option, none, some, ◌==◌, ◌||◌, not, if◌then◌else◌, ℤ, pos, leb_ℤ,
}
use lh_server.Physics.{Position, get_degree}
use lh_server.Protocol.{Packet}
use lh_server.World.{
  World, Env, Player, Boss, BState, b_idle, b_chase, b_attack, b_dead, b_dash_atk, b_swing_atk,
  b_strike_atk, b_throw_atk, b_stomp_atk, b_icespear_atk, b_handclap_atk, b_punch_atk, b_down_atk,
  b_normal_atk, b_down_atk_r, b_down_atk_l, b_down_atk_sweep, l_foor, r_foor, ev_boss, set_boss,
  crash,
}
use lh_server.World.Send.{broadcast}
use lh_server.World.Timers.{add_timer}
use lh_server.Monster.{player_at}
use lh_server.Boss.Break.{is_part_destroyed}
use lh_server.Boss.{with_boss, attack, is_leg_broken, is_r_hand_broken, is_l_hand_broken}
use lh_server.Boss.Chase.{idle, chase}

-- The numbers of B_STATE, as they are sent.
unfoldable pub state_number : BState → ℤ
state_number b_idle = pos 0
state_number b_chase = pos 1
state_number b_attack = pos 2
state_number b_dead = pos 3
state_number b_dash_atk = pos 4
state_number b_swing_atk = pos 5
state_number b_strike_atk = pos 6
state_number b_throw_atk = pos 7
state_number b_stomp_atk = pos 8
state_number b_icespear_atk = pos 9
state_number b_handclap_atk = pos 10
state_number b_punch_atk = pos 11
state_number b_down_atk = pos 12
state_number b_normal_atk = pos 13
state_number b_down_atk_r = pos 14
state_number b_down_atk_l = pos 15
state_number b_down_atk_sweep = pos 16

-- ChangeNextState: a value that is no state of its own leads to the dead one.
unfoldable pub next_state : BState → BState
next_state b_normal_atk = b_dead
next_state b_down_atk_r = b_dead
next_state b_down_atk_l = b_dead
next_state b_down_atk_sweep = b_dead
next_state s = s

-- `ChangeState`; no Exit and no Enter does more than to name the state.
unfoldable pub change_state : ℕ → BState → World → World
change_state oid next w = with_boss oid w λ b. set_boss w oid (record b { state = next })

-- AddTimer(b->GetID(), 4, now + delay, b->GetTarget())
unfoldable pub again : Env → ℕ → ℕ → World → World
again env oid delay w = with_boss oid w λ b. add_timer b.id ev_boss (env.now + delay) b.target w

abbrev pub is_b_idle : BState → Bool
is_b_idle b_idle = true
is_b_idle _ = false

abbrev pub is_b_chase : BState → Bool
is_b_chase b_chase = true
is_b_chase _ = false

unfoldable pub idle_execute : Env → ℕ → World → World
idle_execute env oid w = with_boss oid w λ b.
    let next : BState = idle env.fpu b w in
    again env oid 1000 (if is_b_idle next then w else change_state oid (next_state next) w)

unfoldable pub chase_execute : Env → ℕ → World → World
chase_execute env oid w = with_boss oid w λ b.
    if b.is_destroy l_foor || b.is_destroy r_foor
    then change_state oid b_idle w
    else elim (chase env.fpu b w) [
      | none ↦ crash w
      | some (moved, next) ↦
          let v : World = set_boss w oid moved in
          if is_b_chase next then v else change_state oid (next_state next) v
    ]

-- Turn to the player and show the attack, to all players.
unfoldable pub show_turn : Env → Boss → Player → World → World
show_turn env b p w =
    let turn : Position = record { x = 0; y = get_degree env.fpu b.pos p.pos; z = 0 } in
    broadcast (Packet.set_rotation (pos b.id) turn) w

unfoldable pub show_attack : Boss → BState → Player → World → World
unfolding state_number
show_attack b atk p w = broadcast (Packet.boss_attack (pos b.id) (state_number atk) p.pos) w

abbrev pub is_b_attack : BState → Bool
is_b_attack b_attack = true
is_b_attack _ = false

abbrev pub is_b_normal_atk : BState → Bool
is_b_normal_atk b_normal_atk = true
is_b_normal_atk _ = false

-- `BossAttack::Execute` behind the choice.
unfoldable pub after_choice : Env → ℕ → Boss → BState → World → World
after_choice env oid b next w =
    if is_b_attack next
    then again env oid 1000 w
    else again env oid 1000 (
        if is_b_normal_atk next
        then elim (player_at b.target w) [
          | none ↦ crash w
          | some p ↦ show_attack b b_normal_atk p (show_turn env b p w)
        ]
        else change_state oid (next_state next) w)

unfoldable pub attack_execute : Env → ℕ → World → World
attack_execute env oid w = with_boss oid w λ b.
    let (aimed, next) = attack env b w in after_choice env oid aimed next (set_boss w oid aimed)

-- The Execute of the dash, the swing, the strike, the throw, the stomp, the ice spear, the hand clap
-- and the punch: one shape, with the number of the attack and the time that it takes. Without a target
-- or with a broken leg no timer is set.
unfoldable pub special_execute : Env → BState → ℕ → ℕ → World → World
special_execute env atk delay oid w = with_boss oid w λ b. elim (player_at b.target w) [
  | none ↦ change_state oid b_attack w
  | some p ↦
      if is_leg_broken b
      then change_state oid b_attack w
      else again env oid delay
          (change_state oid b_attack (show_attack b atk p (show_turn env b p w)))
]

-- The attack on the ground that the arms which are left allow.
unfoldable pub down_attack : Env → Boss → Option BState
down_attack env b =
    if is_l_hand_broken b
    then (if is_r_hand_broken b then none else some b_down_atk_r)
    else if is_r_hand_broken b
    then (if is_l_hand_broken b
        then none
        else if env.draw 2 % 2 == 0
        then some b_down_atk_l
        else some b_down_atk_sweep)
    else if env.draw 3 % 3 == 0
    then some b_down_atk_l
    else if env.draw 3 % 3 == 1
    then some b_down_atk_r
    else some b_down_atk_sweep

unfoldable pub down_execute : Env → ℕ → World → World
down_execute env oid w = with_boss oid w λ b. elim (player_at b.target w) [
  | none ↦ change_state oid b_attack w
  | some p ↦
      if not (is_leg_broken b) then change_state oid b_attack w else elim (down_attack env b) [
        | none ↦ show_turn env b p w
        | some atk ↦
            again env oid 5000
              (change_state oid b_attack (show_attack b atk p (show_turn env b p w)))
      ]
]

unfoldable pub execute : Env → BState → ℕ → World → World
execute env b_idle oid w = idle_execute env oid w
execute env b_chase oid w = chase_execute env oid w
execute env b_attack oid w = attack_execute env oid w
execute env b_dash_atk oid w = special_execute env b_dash_atk 5000 oid w
execute env b_swing_atk oid w = special_execute env b_swing_atk 3000 oid w
execute env b_strike_atk oid w = special_execute env b_strike_atk 3000 oid w
execute env b_throw_atk oid w = special_execute env b_throw_atk 5000 oid w
execute env b_stomp_atk oid w = special_execute env b_stomp_atk 5000 oid w
execute env b_icespear_atk oid w = special_execute env b_icespear_atk 5000 oid w
execute env b_handclap_atk oid w = special_execute env b_handclap_atk 5000 oid w
execute env b_punch_atk oid w = special_execute env b_punch_atk 5000 oid w
execute env b_down_atk oid w = down_execute env oid w
-- BossDead; the last four are no states.
execute env _ oid w = w

-- `Boss::Update`.
unfoldable pub update : Env → ℕ → World → World
update env oid w = with_boss oid w λ b.
    if leb_ℤ b.body_hp (pos 0)
    then change_state oid b_dead w
    else if leb_ℤ b.main_hp (pos 0)
    then change_state oid b_dead w
    else execute env b.state oid (set_boss w oid (is_part_destroyed b))
