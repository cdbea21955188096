-- ===== src/Boss.antt =====
-- The golem: Server/Boss.cpp. Its states are in Boss/States, `Idle` and `Chase` in Boss/Chase.
pub mod Break
pub mod Chase
pub mod States
pub mod Bones
pub mod Wear
pub mod Aim
pub mod Keeps
pub mod Timing
pub mod Examples
use lh_server.Prelude.{
  ℕ, ◌≡◌, zero, suc, ◌+◌, ◌*◌, ◌-◌, ◌%◌, Bool, true, false, List, [], ◌∷◌, Option, none, some, ltb,
  leb, ◌==◌, ◌&&◌, ◌||◌, not, if◌then◌else◌, ℤ, pos, negsuc, ◌+ℤ◌, ◌-ℤ◌, ltb_ℤ, leb_ℤ,
}
use lh_server.Physics.{Float, Fpu, Position, get_distance_f}
use lh_server.PathFinder.{Pos2d, wrap16, get_path}
use lh_server.Protocol.{Packet}
use lh_server.World.{
  World, Env, Player, Boss, BState, b_idle, b_chase, b_attack, b_dash_atk, b_swing_atk, b_throw_atk,
  b_stomp_atk, b_icespear_atk, b_handclap_atk, b_punch_atk, b_down_atk, b_normal_atk, Part, r_hand,
  r_forearm, r_upperarm, r_foor, r_calf, r_thight, l_hand, l_forearm, l_upperarm, l_foor, l_calf,
  l_thight, set_boss, crash, no_detected, player_ids,
}
use lh_server.World.Send.{broadcast}
use lh_server.Monster.{player_at}

unfoldable pub with_boss : ℕ → World → (Boss → World) → World
with_boss i w f = elim (w.bosses i) [ none ↦ crash w | some b ↦ f b ]

pub with_boss-some :
    (i : ℕ) (w : World) {b : Boss} (f : Boss → World) → w.bosses i ≡ some b → with_boss i w f ≡ f b
unfolding with_boss
with_boss-some i w f e = rw (e, with_boss)

-- R_HAND 0 to L_THIGHT 11.
unfoldable pub part_number : Part → ℕ
part_number r_hand = 0
part_number r_forearm = 1
part_number r_upperarm = 2
part_number r_foor = 3
part_number r_calf = 4
part_number r_thight = 5
part_number l_hand = 6
part_number l_forearm = 7
part_number l_upperarm = 8
part_number l_foor = 9
part_number l_calf = 10
part_number l_thight = 11

abbrev pub all_parts : List Part
all_parts =
    r_hand ∷ r_forearm ∷ r_upperarm ∷ r_foor ∷ r_calf ∷ r_thight ∷ l_hand ∷ l_forearm ∷ l_upperarm
    ∷ l_foor ∷ l_calf ∷ l_thight ∷ []

-- `m[part] = v`.
unfoldable pub set_part {ℓ} : {A : Type ℓ} → (Part → A) → Part → A → Part → A
unfolding part_number
set_part m part v q = if part_number q == part_number part then v else m q

-- The hits that each part takes before it breaks.
unfoldable pub first_bones : Part → ℤ
first_bones r_hand = pos 20
first_bones r_forearm = pos 22
first_bones r_upperarm = pos 24
first_bones r_foor = pos 20
first_bones r_calf = pos 22
first_bones r_thight = pos 24
first_bones l_hand = pos 5
first_bones l_forearm = pos 7
first_bones l_upperarm = pos 9
first_bones l_foor = pos 20
first_bones l_calf = pos 22
first_bones l_thight = pos 24

-- The two upper arms are left as they are.
unfoldable pub first_hp : (Part → ℤ) → Part → ℤ
first_hp memory r_upperarm = memory r_upperarm
first_hp memory l_upperarm = memory l_upperarm
first_hp memory _ = pos 100

-- `Initialize` on the memory of a new Boss.
unfoldable pub initialize : ℕ → Position → Boss → Boss
initialize id p memory = record memory {
  body_hp = pos 100;
  head_hp = pos 100;
  part_hp = first_hp memory.part_hp;
  is_destroy = λ q. false;
  head_destroyed = false;
  bone_map = first_bones;
  default_pos = p;
  pos = record { x = 0x46b38100; y = 0x470b93b3; z = 0xc4691333 };
  target = no_detected;
  id = id;
  state = b_idle;
  is_active = true;
  main_hp = pos 600;
}

-- BOSS_ACTIVITY_RANGE and B_LONG_ATK_RANGE.
abbrev pub boss_activity_range : ℤ
boss_activity_range = pos 4000

abbrev pub b_long_atk_range : ℤ
b_long_atk_range = pos 1500

unfoldable pub is_leg_broken : Boss → Bool
is_leg_broken b =
    b.is_destroy r_foor
    || (b.is_destroy r_thight
        || (b.is_destroy r_calf
            || (b.is_destroy l_foor || (b.is_destroy l_thight || b.is_destroy l_calf))))

unfoldable pub is_r_hand_broken : Boss → Bool
is_r_hand_broken b = b.is_destroy r_forearm || (b.is_destroy r_upperarm || b.is_destroy r_hand)

unfoldable pub is_l_hand_broken : Boss → Bool
is_l_hand_broken b = b.is_destroy l_forearm || (b.is_destroy l_upperarm || b.is_destroy l_hand)

-- The loop of `Attack` over the players: targetID and targetDis.
unfoldable pub aim : Fpu → Position → (ℕ → Option Player) → ℕ × ℤ → List ℕ → ℕ × ℤ
aim f at players (target_id, target_dis) [] = (target_id, target_dis)
aim f at players (target_id, target_dis) (i ∷ is) =
    aim f at players
      (elim (players i) [
        | none ↦ (target_id, target_dis)
        | some p ↦
            let dis : Float = get_distance_f f at p.pos in
            if f.lt (f.of_int target_dis) dis
            then (if f.lt dis (f.of_int (pos 0))
                then (target_id, target_dis)
                else if f.lt (f.of_int boss_activity_range) dis
                then (target_id, target_dis)
                else (i, f.to_int dis))
            else (target_id, target_dis)
      ])
      is

abbrev far_attack : ℕ → BState
far_attack n = if n == 0 then b_throw_atk else if n == 1 then b_dash_atk else b_icespear_atk

abbrev near_attack : ℕ → BState
near_attack n =
    if n == 0
    then b_stomp_atk
    else if n == 1
    then b_handclap_atk
    else if n == 2
    then b_swing_atk
    else if n == 3
    then b_normal_atk
    else b_punch_atk

-- if (g_player[targetID] != NULL) target = targetID;
unfoldable pub take_target : ℕ → Boss → World → Boss
take_target target_id b w = elim (w.players target_id) [
  | none ↦ b
  | some _ ↦ record b { target = pos target_id }
]

-- The rest of `Attack`: what it returns.
unfoldable pub choose_attack : Env → Boss → ℤ → World → BState
choose_attack env b target_dis w =
    if ltb_ℤ target_dis (pos 0) || ltb_ℤ boss_activity_range target_dis
    then b_attack
    else if is_leg_broken b
    then b_down_atk
    else elim (player_at b.target w) [
      | none ↦ b_idle
      | some p ↦
          if ltb_ℤ b_long_atk_range (env.fpu.to_int (get_distance_f env.fpu b.pos p.pos))
          then far_attack (env.draw 3 % 3)
          else near_attack (env.draw 5 % 5)
    ]

-- `Attack` up to the first `return` that is always reached: the golem with its target, and the attack.
unfoldable pub attack : Env → Boss → World → Boss × BState
attack env b w =
    let (target_id, target_dis) = aim env.fpu b.pos w.players (0, boss_activity_range) player_ids in
    (take_target target_id b w, choose_attack env (take_target target_id b w) target_dis w)
