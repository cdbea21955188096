-- ===== src/Player/Combat.antt =====
-- KillMonster, LevelUp, Attck, Berserk, BerserkOff and Assassinate of Server/CPlayer.cpp, and AddQuary
-- of Server/CDBConnector.cpp.
pub mod Hits
pub mod Levels
pub mod Frames
use lh_server.Prelude.{
  ℕ, ◌+◌, ◌%◌, Bool, true, false, List, [], ◌∷◌, ◌++◌, Option, none, some, ltb, leb, ◌==◌, ◌&&◌,
  not, if◌then◌else◌, ℤ, pos, negsuc, ◌+ℤ◌, ◌-ℤ◌, ltb_ℤ, leb_ℤ, eqb_ℤ, length, for_range,
}
use lh_server.Physics.{Fpu, Position, get_distance, get_degree}
use lh_server.Protocol.{Packet}
use lh_server.World.{
  World, Env, Player, Monster, EventId, DbEvent, WeaponType, ev_update, ev_berserk, ev_atk_off,
  ev_ass_off, wpn_none, wpn_sword, wpn_hammer, set_player, with_player, with_monster, crash,
  max_monster, npc_id_start, boss_idx,
}
use lh_server.World.Send.{send, broadcast, send_view}
use lh_server.World.Timers.{add_timer}
use lh_server.Damage.{monster_take_damage, boss_take_damage}

-- ATTACK_RANGE, BERSERK_RANGE, BERSERK_BONUS, LEVEL_UP_BONUS.
abbrev pub attack_range : ℤ
attack_range = pos 300

abbrev pub berserk_range : ℤ
berserk_range = pos 600

abbrev pub bonus : ℤ
bonus = pos 2

-- strcpy_s into char[10] ends the process for a string of ten characters or more.
unfoldable pub add_quary : ℕ → EventId → List ℕ → List ℕ → World → World
add_quary uid eid name pass w =
    if leb 10 (length name) then crash w else if leb 10 (length pass) then crash w else record w {
      queries = w.queries ++ record { user_id = uid; ev_id = eid; name = name; pass = pass } ∷ [];
    }

-- The fields that LevelUp changes.
unfoldable pub leveled : Player → Player
leveled p = record p {
  level = p.level +ℤ pos 1;
  exp = p.exp -ℤ pos 100;
  atk_point = p.atk_point +ℤ bonus;
  max_hp = p.max_hp +ℤ bonus;
  max_mp = p.max_mp +ℤ bonus;
  health_point = p.max_hp +ℤ bonus;
  magic_point = p.max_mp +ℤ bonus;
}

-- The packet goes to `id`, once for each player that is there.
unfoldable pub level_up : ℕ → World → World
level_up me w = with_player me w λ p.
    let q : Player = leveled p in
    let pack : Packet = Packet.level_up (pos q.id) q.level q.exp q.health_point q.magic_point in
    let told : World = set_player w me q in
    add_quary q.id ev_update q.name q.m_pass
      (for_range 10 0 (λ i v. elim (v.players i) [ none ↦ v | some _ ↦ send q.id pack v ]) told)

unfoldable pub kill_monster : ℕ → ℕ → World → World
kill_monster me oid w = with_player me w λ p. with_monster oid w λ m.
    let q : Player = record p { exp = p.exp +ℤ m.exp } in
    let told : World =
      broadcast (Packet.dead (pos oid)) (send q.id (Packet.get_exp q.exp) (set_player w me q)) in
    if leb_ℤ (pos 100) q.exp then level_up me told else told

-- `if (TakeDamage(atk) <= 0) KillMonster(i)`
unfoldable pub strike : ℕ → ℤ → ℕ → World → World
strike me atk i w =
    let (hit, left) = monster_take_damage i atk w in
    if leb_ℤ left (pos 0) then kill_monster me i hit else hit

-- The tests of the loops over the monsters: the monster is there, lives, and is near.
unfoldable pub in_reach : Fpu → ℤ → ℕ → ℕ → World → Bool
in_reach f range me i w = elim (w.players me) [
  | none ↦ false
  | some p ↦ elim (w.monsters i) [
    | none ↦ false
    | some m ↦
        let d : ℤ = get_distance f p.pos m.pos in
        not (eqb_ℤ m.health_point (pos 0)) && (ltb_ℤ d range && not (ltb_ℤ d (pos 0)))
  ]
]

abbrev pub player_atk : ℕ → World → ℤ
player_atk me w = elim (w.players me) [ none ↦ pos 0 | some p ↦ p.atk_point ]

-- Turn to the monster `i`, and tell the players.
unfoldable pub face : Env → ℕ → ℕ → World → World
face env me i w = with_player me w λ p. with_monster i w λ m.
    let turned : Position = record p.rotation { y = get_degree env.fpu p.pos m.pos } in
    broadcast (Packet.set_rotation (pos p.id) turned)
      (set_player w me (record p { rotation = turned }))

-- A round of the loop of Attck; the flag says that the player has turned to a monster already.
unfoldable pub attack_round : Env → ℕ → ℕ → World × Bool → World × Bool
attack_round env me i (w, flag) =
    if in_reach env.fpu attack_range me i w
    then (
      let facing : World = if flag then w else face env me i w in
          strike me (player_atk me facing) i facing,
      true,
    )
    else (w, flag)

unfoldable pub strike_boss : Env → ℕ → World → World
strike_boss env me w = with_player me w λ p. elim (w.bosses boss_idx) [
  | none ↦ w
  | some b ↦
      if ltb_ℤ (pos 0) b.main_hp && ltb_ℤ (get_distance env.fpu p.pos b.pos) attack_range
      then boss_take_damage boss_idx (pos 20) w
      else w
]

-- MAX_SWORD_COMBO 3, MAX_HAMMER_COMBO 4; an attack within a second continues the combo.
unfoldable pub next_combo : WeaponType → Bool → ℕ → ℕ
next_combo wpn_none late combo = if late then 0 else combo
next_combo wpn_sword late combo = if late then 0 else (combo + 1) % 3
next_combo wpn_hammer late combo = if late then 0 else (combo + 1) % 4

abbrev pub is_wpn_none : WeaponType → Bool
is_wpn_none wpn_none = true
is_wpn_none wpn_sword = false
is_wpn_none wpn_hammer = false

abbrev pub is_wpn_sword : WeaponType → Bool
is_wpn_sword wpn_none = false
is_wpn_sword wpn_sword = true
is_wpn_sword wpn_hammer = false

-- `Attck`. The three tests of the combo come after the one that a weapon is held.
unfoldable pub attack : Env → ℕ → World → World
attack env me w = with_player me w λ p.
    if p.is_attack
    then w
    else if is_wpn_none p.wpn_type
    then w
    else (let combo : ℕ =
          next_combo p.wpn_type (leb (p.last_atk_time + 1000) env.now) p.combo_cnt in
        let begun : World =
          broadcast (Packet.attack (pos p.id) (pos combo))
            (set_player w me (record p { is_attack = true; combo_cnt = combo })) in
        let swept : World × Bool =
          for_range max_monster npc_id_start (attack_round env me) (begun, false) in
        add_timer p.id ev_atk_off (env.now + 500) (pos 0) (strike_boss env me swept.0))

unfoldable pub berserk_round : Env → ℕ → ℕ → World → World
berserk_round env me i w =
    if in_reach env.fpu berserk_range me i w then strike me (pos 50) i w else w

-- What Berserk does to the player at its end, and BerserkOff takes back.
unfoldable pub enraged : Player → Player
enraged p = record p {
  is_berserk = true;
  atk_point = p.atk_point +ℤ bonus;
  magic_point = p.magic_point +ℤ bonus;
}

unfoldable pub berserk_sweep : Env → ℕ → Player → World → World
berserk_sweep env me p w =
    for_range max_monster npc_id_start (berserk_round env me)
      (send_view p.view_list (Packet.berserk (pos p.id)) w)

unfoldable pub berserk : Env → ℕ → World → World
berserk env me w = with_player me w λ p.
    if p.is_berserk
    then w
    else if not (is_wpn_sword p.wpn_type)
    then w
    else (let swept : World = berserk_sweep env me p w in
        with_player me swept λ q.
          add_timer q.id ev_berserk (env.now + 15000) (pos 0) (set_player swept me (enraged q)))

unfoldable pub calmed : Player → Player
calmed p = record p {
  is_berserk = false;
  atk_point = p.atk_point -ℤ bonus;
  magic_point = p.magic_point -ℤ bonus;
}

unfoldable pub berserk_off : ℕ → World → World
berserk_off me w = with_player me w λ p. set_player w me (calmed p)

-- A round of the loop of Assassinate, which also ends the hiding.
unfoldable pub assassinate_round : Env → ℕ → ℕ → World → World
assassinate_round env me i w =
    if in_reach env.fpu attack_range me i w
    then (let hit : World = strike me (player_atk me w +ℤ player_atk me w) i w in
        with_player me hit λ p. set_player hit me (record p { is_hide = false }))
    else w

-- `isAssasinate` is tested here, and no line of the program sets it.
unfoldable pub assassinate : Env → ℕ → World → World
assassinate env me w = with_player me w λ p.
    if p.is_assasinate
    then w
    else add_timer p.id ev_ass_off (env.now + 2000) (pos 0) (
        for_range max_monster npc_id_start (assassinate_round env me)
          (broadcast (Packet.assassin (pos p.id)) w))
