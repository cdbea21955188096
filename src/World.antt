-- ===== src/World.antt =====
-- The state that the handlers share: the maps `g_player`, `g_monster` and `g_boss`, the timer queue
-- of Server/Event.cpp and the query queue of Server/CDBConnector.cpp, and the record of what was
-- sent. An absent key and a NULL pointer are both `none`. The objects' fields are those of
-- Server/CPlayer.h, CMonster.h, Boss.h and CObject.h.
pub mod Send
pub mod Timers
pub mod Seats
pub mod Samples
use lh_server.Prelude.{
  ℕ, ◌≡◌, Bool, true, List, [], ◌∷◌, Option, none, some, ℤ, negsuc, ltb, if◌then◌else◌, update, ◌*◌,
}
use lh_server.Physics.{Float, Fpu, Position}
use lh_server.Protocol.{Packet}
use lh_server.PathFinder.{Pos2d}

-- MAX_PLAYER, MAX_MONSTER, NPC_ID_START, BOSS_IDX.
abbrev pub max_player : ℕ
max_player = 10

abbrev pub max_monster : ℕ
max_monster = 10000

abbrev pub npc_id_start : ℕ
npc_id_start = 10000

abbrev pub boss_idx : ℕ
boss_idx = 20000

-- for (int i = 0; i < MAX_PLAYER; ++i)
abbrev pub player_ids : List ℕ
player_ids = 0 ∷ 1 ∷ 2 ∷ 3 ∷ 4 ∷ 5 ∷ 6 ∷ 7 ∷ 8 ∷ 9 ∷ []

-- ENUMOP, the events of it.
pub data EventId : Type 0 where
  ev_monster ev_boss ev_login ev_sign ev_update ev_berserk ev_atk_off ev_guard_off : EventId
  ev_evade_off ev_fireball ev_ass_off : EventId

-- Times are in milliseconds.
pub record Event : Type 0 where
  pub obj_id : ℕ
  pub event_id : EventId
  pub wakeup_time : ℕ
  pub target_id : ℤ

pub record DbEvent : Type 0 where
  pub user_id : ℕ
  pub ev_id : EventId
  pub name : List ℕ
  pub pass : List ℕ

pub data WeaponType : Type 0 where
  wpn_none wpn_sword wpn_hammer : WeaponType

pub data MoveState : Type 0 where
  p_walking p_onwall p_jumping p_faling p_hanging : MoveState
  -- A number that is none of the above, put there by a cast.
  p_other : ℤ → MoveState

-- The fields of `CObject` that a fireball uses.
pub record Fireball : Type 0 where
  pub pos : Position
  pub def_pos : Position
  pub volume : ℤ
  pub rotation : Float
  pub speed : Float
  pub damage : ℤ
  pub owner_id : ℕ

pub record Player : Type 0 where
  pub name : List ℕ
  pub m_pass : List ℕ
  pub state : ℤ
  pub level : ℤ
  pub exp : ℤ
  pub id : ℕ
  pub is_ready : Bool
  pub health_point : ℤ
  pub max_hp : ℤ
  pub magic_point : ℤ
  pub max_mp : ℤ
  pub atk_point : ℤ
  pub obj_type : ℤ
  pub pos : Position
  pub rotation : Position
  pub velocity : Position
  pub is_berserk : Bool
  pub wpn_type : WeaponType
  pub move_state : MoveState
  pub fireball : Fireball
  pub view_list : List ℕ
  pub is_wpn_on : Bool
  pub is_guard : Bool
  pub is_attack : Bool
  pub is_alive : Bool
  pub is_evade : Bool
  pub is_spell_fireball : Bool
  pub is_hide : Bool
  pub is_assasinate : Bool
  pub is_host : Bool
  pub combo_cnt : ℕ
  pub last_atk_time : ℕ

-- The `State*` of a monster, and M_STATE, which the states' `Enter` sets beside it.
pub data MonState : Type 0 where
  m_idle m_chase m_attack m_rhome m_dead : MonState

pub record Monster : Type 0 where
  pub id : ℕ
  pub default_pos : Position
  pub pos : Position
  pub health_point : ℤ
  pub m_type : ℤ
  pub state : MonState
  pub mon_state : MonState
  pub target : ℤ
  pub prev_health : ℤ
  pub recovery_cool_time : ℤ
  pub exp : ℤ
  pub atk_point : ℤ
  pub atk_range : ℤ
  pub rotation : Position
  pub velocity : Position
  pub player_dir : List ℤ
  pub is_active : Bool
  pub chase_end_pos : Position

-- B_STATE.
pub data BState : Type 0 where
  b_idle b_chase b_attack b_dead b_dash_atk b_swing_atk b_strike_atk b_throw_atk : BState
  b_stomp_atk b_icespear_atk b_handclap_atk b_punch_atk b_down_atk b_normal_atk : BState
  b_down_atk_r b_down_atk_l b_down_atk_sweep : BState

-- The parts of the golem, in the order of BoneMap (R_HAND 0 to L_THIGHT 11).
pub data Part : Type 0 where
  r_hand r_forearm r_upperarm r_foor r_calf r_thight : Part
  l_hand l_forearm l_upperarm l_foor l_calf l_thight : Part

-- HealthPoint, IsDestroy and BoneMap, each by part; the head and the body stand beside them.
pub record Boss : Type 0 where
  pub body_hp : ℤ
  pub head_hp : ℤ
  pub part_hp : Part → ℤ
  pub is_destroy : Part → Bool
  pub head_destroyed : Bool
  pub bone_map : Part → ℤ
  pub default_pos : Position
  pub pos : Position
  pub rotation : Position
  pub state : BState
  pub is_active : Bool
  pub target : ℤ
  pub id : ℕ
  pub main_hp : ℤ
  pub chase_path : List Pos2d

-- `crashed` says that a NULL pointer was followed, or that a string did not fit its array; what a
-- handler does after that is of no meaning. `sent` is newest first; `timers` is in the order of waking; `queries` is oldest first.
pub record World : Type 0 where
  pub players : ℕ → Option Player
  pub monsters : ℕ → Option Monster
  pub bosses : ℕ → Option Boss
  pub timers : List Event
  pub queries : List DbEvent
  pub sent : List (ℕ × Packet)
  pub crashed : Bool

-- What a handler takes from outside: the processor, the clock, and the random numbers of its draws.
pub record Env : Type 0 where
  pub fpu : Fpu
  pub now : ℕ
  pub draw : ℕ → ℕ

-- NO_DETECTED.
abbrev pub no_detected : ℤ
no_detected = negsuc 0

unfoldable pub crash : World → World
crash w = record w { crashed = true }

-- p->f(): with a pointer that is NULL the process ends.
unfoldable pub with_player : ℕ → World → (Player → World) → World
with_player i w f = elim (w.players i) [ none ↦ crash w | some p ↦ f p ]

unfoldable pub with_monster : ℕ → World → (Monster → World) → World
with_monster i w f = elim (w.monsters i) [ none ↦ crash w | some m ↦ f m ]

pub with_player-some :
    (i : ℕ) (w : World) {p : Player} (f : Player → World)
    → w.players i ≡ some p
    → with_player i w f ≡ f p
unfolding with_player
with_player-some i w f e = rw (e, with_player)

pub with_monster-some :
    (i : ℕ) (w : World) {m : Monster} (f : Monster → World)
    → w.monsters i ≡ some m
    → with_monster i w f ≡ f m
unfolding with_monster
with_monster-some i w f e = rw (e, with_monster)

abbrev pub set_player : World → ℕ → Player → World
set_player w i p = record w { players = update w.players i (some p) }

abbrev pub set_monster : World → ℕ → Monster → World
set_monster w i m = record w { monsters = update w.monsters i (some m) }

abbrev pub set_boss : World → ℕ → Boss → World
set_boss w i b = record w { bosses = update w.bosses i (some b) }
