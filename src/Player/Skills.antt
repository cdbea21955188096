-- ===== src/Player/Skills.antt =====
-- Ready, Guard, Evade, FireBall, Hide, HideOff and IsBattleMode of Server/CPlayer.cpp, and
-- `CObject::Update` and `CollideTest` of Server/CObject.cpp, which move the fireball.
pub mod Flags
pub mod Timers
pub mod Flight
use lh_server.Prelude.{
  ℕ, ◌+◌, Bool, true, false, List, [], ◌∷◌, Option, none, some, ltb, leb, ◌==◌, ◌&&◌, ◌||◌, not,
  if◌then◌else◌, ℤ, pos, negsuc, ◌-ℤ◌, ltb_ℤ, leb_ℤ, for_range,
}
use lh_server.Physics.{Float, Fpu, Position, get_distance, get_distance3}
use lh_server.Protocol.{Packet}
use lh_server.World.{
  World, Env, Player, Fireball, ev_guard_off, ev_evade_off, ev_fireball, set_player, with_player,
  crash, max_monster, npc_id_start, boss_idx,
}
use lh_server.World.Send.{send, broadcast, broadcast_others, send_view}
use lh_server.World.Timers.{add_timer}
use lh_server.Player.Combat.{strike}

unfoldable pub set_ready : ℕ → World → World
set_ready me w =
    with_player me w
      λ p. set_player w me (record p { is_ready = if p.is_ready then false else true })

unfoldable pub guard : Env → ℕ → World → World
guard env me w = with_player me w λ p.
    if p.is_guard
    then w
    else add_timer p.id ev_guard_off (env.now + 3000) (pos 0)
        (broadcast (Packet.guard (pos p.id)) (set_player w me (record p { is_guard = true })))

-- A monster, or else the golem, at a distance between 0 and 1000.
unfoldable pub is_battle_mode : Fpu → ℕ → World → Bool
is_battle_mode f me w = elim (w.players me) [
  | none ↦ false
  | some p ↦
      let near : Position → Bool =
        λ q. ltb_ℤ (pos 0) (get_distance f p.pos q) && ltb_ℤ (get_distance f p.pos q) (pos 1000) in
      let monster_near : Bool =
        for_range max_monster npc_id_start
          (λ i found. elim (w.monsters i) [ none ↦ found | some m ↦ found || near m.pos ]) false in
      if monster_near then true else elim (w.bosses boss_idx) [ none ↦ false | some b ↦ near b.pos ]
]

-- Outside a battle the source fills an SC_JUMP with the size and the type of an SC_EVADE, so the
-- bytes are those of an SC_EVADE on both branches.
unfoldable pub evade : Env → ℕ → World → World
evade env me w = with_player me w λ p.
    if p.is_evade
    then w
    else (let moving : World = set_player w me (record p { is_evade = true }) in
        add_timer p.id ev_evade_off (env.now + 2000) (pos 0) (
          if is_battle_mode env.fpu me moving
          then broadcast_others p.id (Packet.evade (pos p.id)) moving
          else broadcast_others p.id (Packet.evade (pos p.id)) moving))

unfoldable pub cast_fireball : Env → ℕ → World → World
cast_fireball env me w = with_player me w λ p.
    if p.is_spell_fireball
    then w
    else if ltb_ℤ p.magic_point (pos 10)
    then w
    else (let ball : Fireball = record p.fireball {
      pos = p.pos;
      def_pos = p.pos;
      volume = pos 100;
      rotation = p.rotation.y;
      owner_id = p.id;
    } in
        let cast : Player = record p {
          magic_point = p.magic_point -ℤ pos 10;
          is_spell_fireball = true;
          fireball = ball;
        } in
        add_timer p.id ev_fireball (env.now + 1000) (pos 0)
          (broadcast (Packet.fireball (pos p.id)) (set_player w me cast)))

unfoldable pub hide : ℕ → World → World
hide me w = with_player me w λ p.
    if p.is_hide
    then w
    else broadcast (Packet.hide (pos p.id)) (set_player w me (record p { is_hide = true }))

unfoldable pub hide_off : ℕ → World → World
hide_off me w = with_player me w λ p.
    if not p.is_hide
    then w
    else broadcast (Packet.hide_off (pos p.id)) (set_player w me (record p { is_hide = false }))

-- FIREBALL_RANGE.
abbrev pub fireball_range : ℤ
fireball_range = pos 500

-- Whether `other` lies in the square of the ball's volume.
unfoldable pub collide_test : Fpu → Fireball → Position → Bool
collide_test f ball other =
    let reach : Float = f.of_int ball.volume in
    if f.lt (f.add ball.pos.x reach) other.x
    then false
    else if f.lt other.x (f.sub ball.pos.x reach)
    then false
    else if f.lt (f.add ball.pos.y reach) other.y
    then false
    else if f.lt other.y (f.sub ball.pos.y reach)
    then false
    else true

unfoldable pub advance : Fpu → Fireball → Fireball
advance f ball = record ball {
  pos = record ball.pos {
    x = f.add ball.pos.x (f.mul (f.cos ball.rotation) ball.speed);
    y = f.add ball.pos.y (f.mul (f.sin ball.rotation) ball.speed);
  };
}

-- The search of a view list for a monster that the ball touches: `some (some i)` if `i` is the first,
-- `some none` if the list has none. The `else` of the loop belongs to the test of the touch, so a
-- monster that is not touched leads to `boss->GetPosition()`, and no line sets the global `boss`:
-- that NULL pointer, and a monster that is not there, are `none`.
unfoldable pub first_hit : Fpu → Fireball → (ℕ → Option Position) → List ℕ → Option (Option ℕ)
first_hit f ball where_is [] = some none
first_hit f ball where_is (i ∷ is) =
    let rest : Option (Option ℕ) = first_hit f ball where_is is in
    if ltb i npc_id_start then rest else if i == boss_idx then rest else elim (where_is i) [
      | none ↦ none
      | some q ↦ if collide_test f ball q then some (some i) else none
    ]

abbrev pub monster_place : World → ℕ → Option Position
monster_place w i = elim (w.monsters i) [ none ↦ none | some m ↦ some m.pos ]

-- The ball of `owner` is spent.
unfoldable pub spent : ℕ → World → World
spent owner w = with_player owner w λ p. set_player w owner (record p { is_spell_fireball = false })

-- `CObject::Update` of the ball of `owner`.
unfoldable pub fireball_update : Env → ℕ → World → World
fireball_update env owner w = with_player owner w λ p.
    let ball : Fireball = advance env.fpu p.fireball in
    let turn : Position = record { x = 0; y = ball.rotation; z = 0 } in
    let move : Packet = Packet.fireball_move (pos ball.owner_id) ball.pos turn in
    let moved : World =
      send ball.owner_id move
        (send_view p.view_list move (set_player w owner (record p { fireball = ball }))) in
    elim (first_hit env.fpu ball (monster_place w) p.view_list) [
      | none ↦ crash moved
      | some none ↦
          if ltb_ℤ fireball_range (get_distance3 env.fpu ball.pos ball.def_pos)
          then spent owner moved
          else add_timer ball.owner_id ev_fireball (env.now + 2) (pos 0) moved
      | some (some i) ↦
          let off : Packet = Packet.fireball_off (pos ball.owner_id) in
          spent owner
            (send ball.owner_id off (send_view p.view_list off (strike owner ball.damage i moved)))
    ]
