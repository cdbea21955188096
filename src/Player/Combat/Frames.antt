-- ===== src/Player/Combat/Frames.antt =====
-- An attack and an assassination change no other player.
use lh_server.Prelude.{
  ℕ, ◌+◌, ◌≡◌, refl, Bool, true, some, leb, for_range-keeps, Option-cases, Bool-cases, inl, inr,
  arith,
}
use lh_server.World.{
  World, Env, Player, with_player, crash, with_player-some, max_monster, npc_id_start, boss_idx,
}
use lh_server.World.Send.{broadcast}
use lh_server.World.Timers.{add_timer}
use lh_server.Damage.{boss_take_damage}
use lh_server.Player.Combat.{
  face, attack_round, strike_boss, attack, in_reach, attack_range, next_combo, is_wpn_none,
}
use lh_server.Player.Combat.Hits.{
  Mine, Mine-of_players, Mine-set, if-Mine, with_monster-Mine, strike-Mine,
}

pub with_player-Mine :
    (me : ℕ) (b : Bool) (w v : World) (f : Player → World)
    → Mine me b w v
    → ((p : Player) → v.players me ≡ some p → p.is_berserk ≡ b → Mine me b w (f p))
    → Mine me b w (with_player me v f)
with_player-Mine me b w v f m h =
    rw (with_player-some me v f m.mine.1) (h m.mine.0 m.mine.1 m.mine.2)

face-Mine :
    (env : Env) (me i : ℕ) (b : Bool) (w v : World) → Mine me b w v → Mine me b w (face env me i v)
unfolding face broadcast
face-Mine env me i b w v m =
    with_player-Mine me b w v _ m
      λ p e k. with_monster-Mine me i b w v _ m λ n. Mine-set me b w v _ _ refl k m

attack_round-Mine :
    (env : Env) (me : ℕ) (b : Bool) (w : World) (i : ℕ) (s : World × Bool)
    → Mine me b w s.0
    → Mine me b w (attack_round env me i s).0
unfolding attack_round
attack_round-Mine env me b w i (v, flag) m =
    elim (Bool-cases (in_reach env.fpu attack_range me i v)) [
      | inl near ↦
          let facing = if-Mine me b flag w v (face env me i v) m (face-Mine env me i b w v m) in
          rw near (strike-Mine me i _ b w _ facing)
      | inr far ↦ rw far m
    ]

boss_take_damage-players :
    (oid : ℕ) (d : _) (w : World) → (boss_take_damage oid d w).players ≡ w.players
unfolding boss_take_damage broadcast crash
boss_take_damage-players oid d w = ground arith

strike_boss-Mine :
    (env : Env) (me : ℕ) (b : Bool) (w v : World)
    → Mine me b w v
    → Mine me b w (strike_boss env me v)
unfolding strike_boss
strike_boss-Mine env me b w v m = with_player-Mine me b w v _ m λ p e k.
    elim (Option-cases (v.bosses boss_idx)) [
      | inl f ↦ rw f m
      | inr (c, f) ↦
          rw f
            (if-Mine me b _ w _ _ (Mine-of_players me b w v _ (boss_take_damage-players _ _ v) m) m)
    ]

pub itself : (me : ℕ) (w : World) (p : Player) → w.players me ≡ some p → Mine me p.is_berserk w w
itself me w p e = record { others = λ j h. refl; mine = (p, e, refl) }

-- An attack changes no player but the one who attacks: this player is there afterwards, and as berserk
-- as before, and every other player is as before.
pub attack-Mine :
    (env : Env) (me : ℕ) (w : World) (p : Player)
    → w.players me ≡ some p
    → Mine me p.is_berserk w (attack env me w)
unfolding attack add_timer broadcast
attack-Mine env me w p e =
    let b : Bool = p.is_berserk in
    let m = itself me w p e in
    let begun =
      Mine-set me b w w _
        (record p {
          is_attack = true;
          combo_cnt = next_combo p.wpn_type (leb (p.last_atk_time + 1000) env.now) p.combo_cnt;
        })
        refl refl m in
    rw (with_player-some me w _ e) (
      if-Mine me b p.is_attack w w _ m (
        if-Mine me b (is_wpn_none p.wpn_type) w w _ m (
          Mine-of_players me b w _ _ refl (
            strike_boss-Mine env me b w _ (
              for_range-keeps (λ (s : World × Bool). Mine me b w s.0) (attack_round env me)
                (attack_round-Mine env me b w) max_monster npc_id_start _ begun)))))
