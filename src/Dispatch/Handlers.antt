-- ===== src/Dispatch/Handlers.antt =====
-- What each handler of a packet may change of the players.
use lh_server.Prelude.{
  ℕ, ◌≡◌, ◌≢◌, refl, ◌∙◌, Bool, true, false, List, [], ◌∷◌, some, ℤ, pos, negsuc, if◌then◌else◌,
  not, ◌+◌, Option-cases, inl, inr, arith, for_range-keeps,
}
use lh_server.Physics.{Position}
use lh_server.World.{
  World, Env, Player, WeaponType, MoveState, Part, ev_berserk, set_player, with_player,
  with_player-some, crash, max_monster, npc_id_start, with_monster,
}
use lh_server.World.Send.{send, broadcast, broadcast_others, broadcast_all, send_view}
use lh_server.World.Timers.{add_timer}
use lh_server.Player.Combat.{
  attack, is_wpn_sword, berserk, enraged, assassinate, assassinate_round, berserk_sweep, in_reach,
  attack_range,
}
use lh_server.Player.Combat.Hits.{Mine, berserk_sweep-Mine, if-Mine, strike-Mine, Mine-set}
use lh_server.Player.Combat.Frames.{attack-Mine, with_player-Mine, itself}
use lh_server.Player.Skills.{set_ready, guard, evade, hide, hide_off}
use lh_server.Player.Weapons.{
  weapon_on, weapon_off, weapon_call, weapon_on_body, weapon_off_body, tell_on,
}
use lh_server.Player.Motion.{move_to, set_move_state}
use lh_server.Monster.{update_with_client}
use lh_server.Boss.Break.{bone_map_update, hit_bones, hit_bone}
use lh_server.Boss.{with_boss}
use lh_server.Dispatch.{
  to_far_place, draw_weapon, sheathe_weapon, move, move_boss, stop_moving, move_npc, boss_attack,
  boss_bone, change_move_state,
}

-- Of the players none but `uid` has changed.
abbrev pub Own : ℕ → World → World → Type 0
Own uid w v = (j : ℕ) → j ≢ uid → v.players j ≡ w.players j

pub guard-Own : (env : Env) (uid : ℕ) (w : World) → Own uid w (guard env uid w)
unfolding guard with_player crash add_timer broadcast
guard-Own env uid w j h = ground arith

pub evade-Own : (env : Env) (uid : ℕ) (w : World) → Own uid w (evade env uid w)
unfolding evade with_player crash add_timer broadcast_others
evade-Own env uid w j h = ground arith

pub hide-Own : (uid : ℕ) (w : World) → Own uid w (hide uid w)
unfolding hide with_player crash broadcast
hide-Own uid w j h = ground arith

pub hide_off-Own : (uid : ℕ) (w : World) → Own uid w (hide_off uid w)
unfolding hide_off with_player crash broadcast
hide_off-Own uid w j h = ground arith

pub set_ready-Own : (uid : ℕ) (w : World) → Own uid w (set_ready uid w)
unfolding set_ready with_player crash
set_ready-Own uid w j h = ground arith

pub to_far_place-Own : (env : Env) (uid : ℕ) (w : World) → Own uid w (to_far_place env uid w)
unfolding to_far_place with_player crash send
to_far_place-Own env uid w j h = ground arith

pub draw_weapon-Own : (uid : ℕ) (w : World) → Own uid w (draw_weapon uid w)
unfolding draw_weapon with_player crash send_view
draw_weapon-Own uid w j h = ground arith

pub sheathe_weapon-Own : (uid : ℕ) (w : World) → Own uid w (sheathe_weapon uid w)
unfolding sheathe_weapon with_player crash send_view
sheathe_weapon-Own uid w j h = ground arith

pub move-Own :
    (env : Env) (uid : ℕ) (destination rotation velocity : Position) (w : World)
    → Own uid w (move env uid destination rotation velocity w)
unfolding move move_to with_player crash broadcast_others
move-Own env uid destination rotation velocity w j h = ground arith

pub stop_moving-Own : (uid : ℕ) (w : World) → Own uid w (stop_moving uid w)
unfolding stop_moving with_player crash broadcast
stop_moving-Own uid w j h = ground arith

pub change_move_state-Own :
    (uid : ℕ) (state : MoveState) (w : World) → Own uid w (change_move_state uid state w)
unfolding change_move_state set_move_state with_player crash broadcast
change_move_state-Own uid state w j h = ground arith

pub move_boss-players :
    (uid : ℕ) (destination rotation : Position) (w : World)
    → (move_boss uid destination rotation w).players ≡ w.players
unfolding move_boss broadcast_others
move_boss-players uid destination rotation w = ground arith

pub boss_attack-players :
    (uid : ℕ) (oid atk : ℤ) (w : World) → (boss_attack uid oid atk w).players ≡ w.players
unfolding boss_attack broadcast_others
boss_attack-players uid oid atk w = ground arith

pub hit_bone-players :
    (oid : ℕ) (seen : Part → ℤ) (part : Part) (w : World)
    → (hit_bone oid seen part w).players ≡ w.players
unfolding hit_bone with_boss crash broadcast
hit_bone-players oid seen part w = ground arith

pub hit_bones-players :
    (oid : ℕ) (seen : Part → ℤ) (parts : List Part) (w : World)
    → (hit_bones oid seen parts w).players ≡ w.players
unfolding hit_bones
hit_bones-players oid seen [] w = refl
hit_bones-players oid seen (part ∷ parts) w =
    hit_bones-players oid seen parts (hit_bone oid seen part w) ∙ hit_bone-players oid seen part w

pub boss_bone-players :
    (oid : ℤ) (seen : Part → ℤ) (w : World) → (boss_bone oid seen w).players ≡ w.players
unfolding boss_bone bone_map_update
boss_bone-players (negsuc oid) seen w = refl
boss_bone-players (pos oid) seen w = elim (Option-cases (w.bosses oid)) [
  | inl e ↦ rw (e, boss_bone) refl
  | inr (b, e) ↦ rw (e, boss_bone) (hit_bones-players oid seen _ w)
]

pub move_npc-players :
    (env : Env) (oid : ℤ) (place : Position) (w : World)
    → (move_npc env oid place w).players ≡ w.players
unfolding move_npc update_with_client with_monster crash
move_npc-players env oid place w = ground arith

pub weapon_on-Own : (wpn : WeaponType) (uid : ℕ) (w : World) → Own uid w (weapon_on wpn uid w)
unfolding weapon_on weapon_call weapon_on_body weapon_off_body tell_on with_player crash
    broadcast_all
weapon_on-Own wpn uid w j h = ground arith

pub weapon_off-Own : (wpn : WeaponType) (uid : ℕ) (w : World) → Own uid w (weapon_off wpn uid w)
unfolding weapon_off weapon_call weapon_on_body weapon_off_body tell_on with_player crash
    broadcast_all
weapon_off-Own wpn uid w j h = ground arith

-- Without a player at `uid` the process ends, and no player changes.
pub with_player-Own :
    (uid : ℕ) (w : World) (f : Player → World)
    → ((p : Player) → w.players uid ≡ some p → Own uid w (f p))
    → Own uid w (with_player uid w f)
unfolding with_player crash
with_player-Own uid w f h = elim (Option-cases (w.players uid)) [
  | inl e ↦ rw (e, with_player) (λ j k. refl)
  | inr (p, e) ↦ rw (e, with_player) (h p e)
]

pub if-Own :
    (uid : ℕ) (b : Bool) (w u v : World)
    → Own uid w u
    → Own uid w v
    → Own uid w (if b then u else v)
if-Own uid true w u v h k = h
if-Own uid false w u v h k = k

pub attack-Own : (env : Env) (uid : ℕ) (w : World) → Own uid w (attack env uid w)
attack-Own env uid w = elim (Option-cases (w.players uid)) [
  | inl e ↦ unfold attack in with_player-Own uid w _ (λ p f. absurd (ground (arith, e, f)))
  | inr (p, e) ↦ λ j h. (attack-Mine env uid w p e).others j h
]

pub berserk-Own : (env : Env) (uid : ℕ) (w : World) → Own uid w (berserk env uid w)
unfolding berserk
berserk-Own env uid w = with_player-Own uid w _ λ p e.
    let m = berserk_sweep-Mine env uid w p e in
    let swept : World = berserk_sweep env uid p w in
    let raging : World =
      with_player uid swept λ q.
        add_timer q.id ev_berserk (env.now + 15000) (pos 0) (set_player swept uid (enraged q)) in
    let raged : Own uid w raging =
      rw (with_player-some uid (berserk_sweep env uid p w) _ m.mine.1)
        (λ j h. unfold add_timer in ground (arith, m.others j h)) in
    if-Own uid p.is_berserk w w _ (λ j h. refl)
      (if-Own uid (not (is_wpn_sword p.wpn_type)) w w raging (λ j h. refl) raged)

assassinate_round-Mine :
    (env : Env) (me : ℕ) (b : Bool) (w : World) (i : ℕ) (v : World)
    → Mine me b w v
    → Mine me b w (assassinate_round env me i v)
unfolding assassinate_round
assassinate_round-Mine env me b w i v m =
    if-Mine me b (in_reach env.fpu attack_range me i v) w _ v
      (let hit = strike-Mine me i _ b w v m in
        with_player-Mine me b w _ _ hit
          λ p e k. Mine-set me b w _ _ (record p { is_hide = false }) refl k hit)
      m

pub assassinate-Own : (env : Env) (uid : ℕ) (w : World) → Own uid w (assassinate env uid w)
unfolding assassinate add_timer broadcast
assassinate-Own env uid w = with_player-Own uid w _ λ p e.
    let m = itself uid w p e in
    if-Own uid p.is_assasinate w w _ (λ j h. refl)
      λ j h.
        (for_range-keeps (Mine uid p.is_berserk w) (assassinate_round env uid)
            (assassinate_round-Mine env uid p.is_berserk w) max_monster npc_id_start _
            (record { others = m.others; mine = m.mine })).others
          j h
