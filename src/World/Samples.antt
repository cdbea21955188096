-- ===== src/World/Samples.antt =====
-- A player, a goblin, and a field with the two, for runs of the model.
use lh_server.Prelude.{true, false, [], ◌∷◌, none, some, pos, ◌==◌, if◌then◌else◌, replicate}
use lh_server.Physics.{Position}
use lh_server.Physics.Whole.{whole}
use lh_server.World.{World, Env, Player, Monster, wpn_sword, p_walking, m_idle, no_detected}

abbrev here : Position
here = record { x = 5; y = 5; z = 0 }

abbrev pub hero : Player
hero = record {
  name = 65 ∷ [];
  m_pass = 66 ∷ [];
  state = pos 0;
  level = pos 1;
  exp = pos 95;
  id = 3;
  is_ready = true;
  health_point = pos 10;
  max_hp = pos 100;
  magic_point = pos 50;
  max_mp = pos 100;
  atk_point = pos 10;
  obj_type = pos 1;
  pos = here;
  rotation = here;
  velocity = here;
  is_berserk = false;
  wpn_type = wpn_sword;
  move_state = p_walking;
  fireball = record {
    pos = here;
    def_pos = here;
    volume = pos 100;
    rotation = 0;
    speed = 1;
    damage = pos 10;
    owner_id = 3;
  };
  view_list = [];
  is_wpn_on = true;
  is_guard = false;
  is_attack = false;
  is_alive = true;
  is_evade = false;
  is_spell_fireball = false;
  is_hide = false;
  is_assasinate = false;
  is_host = false;
  combo_cnt = 0;
  last_atk_time = 0;
}

abbrev pub goblin : Monster
goblin = record {
  id = 10000;
  default_pos = here;
  pos = here;
  health_point = pos 50;
  m_type = pos 4;
  state = m_idle;
  mon_state = m_idle;
  target = no_detected;
  prev_health = pos 50;
  recovery_cool_time = pos 0;
  exp = pos 10;
  atk_point = pos 10;
  atk_range = pos 300;
  rotation = here;
  velocity = here;
  player_dir = replicate 10 (pos 0);
  is_active = false;
  chase_end_pos = here;
}

abbrev pub field : World
field = record {
  players = λ i. if i == 3 then some hero else none;
  monsters = λ i. if i == 10000 then some goblin else none;
  bosses = λ i. none;
  timers = [];
  queries = [];
  sent = [];
  crashed = false;
}

abbrev pub noon : Env
noon = record { fpu = whole; now = 1000; draw = λ n. 0 }
