-- ===== src/System/Combat.antt =====
-- Fighting leaves the monsters' states and timers alone: they are hurt and may fall to 0 health points,
-- but it is their own update that notices.
use lh_server.Prelude.{
  ℕ, ◌≡◌, refl, Bool, true, ℤ, not, Bool-cases, Option-cases, leb_ℤ, ◌-ℤ◌, ◌+ℤ◌, List, inl, inr,
  arith, for_range-keeps, pos,
}
use lh_server.Protocol.{Packet}
use lh_server.World.{
  World, Env, Player, set_player, set_boss, crash, max_monster, npc_id_start, boss_idx, ev_atk_off,
  ev_berserk, ev_ass_off, ev_update, EventId,
}
use lh_server.World.Send.{send, broadcast, send_view}
use lh_server.Damage.{monster_take_damage, death, boss_take_damage}
use lh_server.Player.Combat.{
  strike, kill_monster, level_up, add_quary, attack, attack_round, face, in_reach, attack_range,
  strike_boss, is_wpn_none, is_wpn_sword, enraged, berserk, berserk_round, berserk_sweep, leveled,
  assassinate, assassinate_round,
}
use lh_server.Boss.Wear.{Worn-refl}
use lh_server.Physics.{Position, get_degree}
use lh_server.System.Steady.{
  Steady, Steady-refl, Steady-untouched, add_timer-Steady, set_monster-Steady, set_player-Steady,
  set_boss-Steady, if-Steady, with_player-Steady, with_monster-Steady, elim-Steady,
}

monster_take_damage-Steady :
    (i : ℕ) (atk : ℤ) (w v : World) → Steady w v → Steady w (monster_take_damage i atk v).0
unfolding monster_take_damage death broadcast crash
monster_take_damage-Steady i atk w v k = elim (Option-cases (v.monsters i)) [
  | inl e ↦ rw (e, monster_take_damage) (Steady-untouched w v (crash v) refl refl refl refl k)
  | inr (m, e) ↦
      rw (e, monster_take_damage)
        (elim (Bool-cases (leb_ℤ (m.health_point -ℤ atk) (pos 0))) [
          | inl h ↦ rw h (set_monster-Steady i m _ w v e refl refl k)
          | inr h ↦ rw h (
              Steady-untouched w _ _ refl refl refl refl (
                set_monster-Steady i m (record m { health_point = m.health_point -ℤ atk }) w v e
                  refl refl k))
        ])
]

pub add_quary-Steady :
    (uid : ℕ) (kind : EventId) (name pass : List ℕ) (w v : World)
    → Steady w v
    → Steady w (add_quary uid kind name pass v)
unfolding add_quary crash
add_quary-Steady uid kind name pass w v k =
    Steady-untouched w v (add_quary uid kind name pass v) (ground arith) (ground arith)
      (ground arith) (ground arith) k

leveled-id : (p : Player) → (leveled p).id ≡ p.id
unfolding leveled
leveled-id p = refl

level_up-Steady : (me : ℕ) (w v : World) → Steady w v → Steady w (level_up me v)
unfolding level_up send
level_up-Steady me w v k = with_player-Steady me w v _ k λ p e.
    add_quary-Steady _ ev_update _ _ w _ (
      for_range-keeps (Steady w) _
        (λ i u h.
          elim-Steady (u.players i) w u _ h λ q f. Steady-untouched w u _ refl refl refl refl h)
        10 0 _ (set_player-Steady me p (leveled p) w v e (leveled-id p) k))

kill_monster-Steady : (me i : ℕ) (w v : World) → Steady w v → Steady w (kill_monster me i v)
unfolding kill_monster send broadcast
kill_monster-Steady me i w v k = with_player-Steady me w v _ k λ p e.
    with_monster-Steady i w v _ k λ m f.
      let q : Player = record p { exp = p.exp +ℤ m.exp } in
      let told : World =
        broadcast (Packet.dead (pos i)) (send q.id (Packet.get_exp q.exp) (set_player v me q)) in
      let telling : Steady w told =
        Steady-untouched w (set_player v me q) told refl refl refl refl
          (set_player-Steady me p q w v e refl k) in
      if-Steady (leb_ℤ (pos 100) q.exp) w (level_up me told) told
        (level_up-Steady me w told telling) telling

pub strike-Steady :
    (me : ℕ) (atk : ℤ) (i : ℕ) (w v : World) → Steady w v → Steady w (strike me atk i v)
unfolding strike
strike-Steady me atk i w v k =
    let hurt = monster_take_damage-Steady i atk w v k in
    if-Steady _ w _ _ (kill_monster-Steady me i w _ hurt) hurt

face-Steady : (env : Env) (me i : ℕ) (w v : World) → Steady w v → Steady w (face env me i v)
unfolding face broadcast
face-Steady env me i w v k = with_player-Steady me w v _ k λ p e.
    with_monster-Steady i w v _ k λ m f.
      let turned : Position = record p.rotation { y = get_degree env.fpu p.pos m.pos } in
      Steady-untouched w (set_player v me (record p { rotation = turned })) _ refl refl refl refl
        (set_player-Steady me p (record p { rotation = turned }) w v e refl k)

attack_round-Steady :
    (env : Env) (me : ℕ) (w : World) (i : ℕ) (s : World × Bool)
    → Steady w s.0
    → Steady w (attack_round env me i s).0
unfolding attack_round
attack_round-Steady env me w i (v, flag) k =
    elim (Bool-cases (in_reach env.fpu attack_range me i v)) [
      | inl near ↦ rw near (
          strike-Steady me _ i w _
            (if-Steady flag w v (face env me i v) k (face-Steady env me i w v k)))
      | inr far ↦ rw far k
    ]

boss_take_damage-Steady :
    (oid : ℕ) (d : ℤ) (w v : World) → Steady w v → Steady w (boss_take_damage oid d v)
unfolding boss_take_damage broadcast crash
boss_take_damage-Steady oid d w v k = elim (Option-cases (v.bosses oid)) [
  | inl e ↦ rw (e, boss_take_damage) (Steady-untouched w v (crash v) refl refl refl refl k)
  | inr (b, e) ↦
      rw (e, boss_take_damage)
        (if-Steady (leb_ℤ (b.main_hp -ℤ d) (pos 0)) w _ _
          (Steady-untouched w (set_boss v oid (record b { main_hp = pos 0 })) _ refl refl refl refl
            (set_boss-Steady oid b _ w v e (Worn-refl b) k))
          (set_boss-Steady oid b (record b { main_hp = b.main_hp -ℤ d }) w v e (Worn-refl b) k))
]

strike_boss-Steady :
    (env : Env) (me : ℕ) (w v : World) → Steady w v → Steady w (strike_boss env me v)
unfolding strike_boss
strike_boss-Steady env me w v k = with_player-Steady me w v _ k λ p e.
    elim-Steady (v.bosses boss_idx) w v _ k
      λ b f. if-Steady _ w _ v (boss_take_damage-Steady boss_idx (pos 20) w v k) k

abbrev attacking : Player → ℕ → Player
attacking p combo = record p { is_attack = true; combo_cnt = combo }

pub attack-Steady : (env : Env) (me : ℕ) (w : World) → Steady w (attack env me w)
unfolding attack broadcast
attack-Steady env me w =
    let k = Steady-refl w in
    with_player-Steady me w w _ k λ p e. if-Steady p.is_attack w w _ k (
      if-Steady (is_wpn_none p.wpn_type) w w _ k (
        add_timer-Steady _ ev_atk_off _ _ w _ refl refl (
          strike_boss-Steady env me w _ (
            for_range-keeps (λ (s : World × Bool). Steady w s.0) (attack_round env me)
              (attack_round-Steady env me w) max_monster npc_id_start _
              (Steady-untouched w (set_player w me (attacking p _)) _ refl refl refl refl
                (set_player-Steady me p (attacking p _) w w e refl k))))))

enraged-id : (p : Player) → (enraged p).id ≡ p.id
unfolding enraged
enraged-id p = refl

berserk_round-Steady :
    (env : Env) (me : ℕ) (w : World) (i : ℕ) (v : World)
    → Steady w v
    → Steady w (berserk_round env me i v)
unfolding berserk_round
berserk_round-Steady env me w i v k = if-Steady _ w _ v (strike-Steady me (pos 50) i w v k) k

pub berserk-Steady : (env : Env) (me : ℕ) (w : World) → Steady w (berserk env me w)
unfolding berserk berserk_sweep send_view
berserk-Steady env me w =
    let k = Steady-refl w in
    with_player-Steady me w w _ k λ p e.
      let swept =
        for_range-keeps (Steady w) (berserk_round env me) (berserk_round-Steady env me w)
          max_monster npc_id_start _ (Steady-untouched w w _ refl refl refl refl k) in
      if-Steady p.is_berserk w w _ k (
        if-Steady (not (is_wpn_sword p.wpn_type)) w w _ k (
          with_player-Steady me w _ _ swept λ q f.
            add_timer-Steady _ ev_berserk _ _ w _ refl refl
              (set_player-Steady me q (enraged q) w _ f (enraged-id q) swept)))

assassinate_round-Steady :
    (env : Env) (me : ℕ) (w : World) (i : ℕ) (v : World)
    → Steady w v
    → Steady w (assassinate_round env me i v)
unfolding assassinate_round
assassinate_round-Steady env me w i v k =
    let hit = strike-Steady me _ i w v k in
    if-Steady _ w _ v
      (with_player-Steady me w _ _ hit λ p e. set_player-Steady me p _ w _ e refl hit) k

pub assassinate-Steady : (env : Env) (me : ℕ) (w : World) → Steady w (assassinate env me w)
unfolding assassinate broadcast
assassinate-Steady env me w =
    let k = Steady-refl w in
    with_player-Steady me w w _ k λ p e. if-Steady p.is_assasinate w w _ k (
      add_timer-Steady _ ev_ass_off _ _ w _ refl refl (
        for_range-keeps (Steady w) (assassinate_round env me) (assassinate_round-Steady env me w)
          max_monster npc_id_start _ (Steady-untouched w w _ refl refl refl refl k)))
