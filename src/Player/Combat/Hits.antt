-- ===== src/Player/Combat/Hits.antt =====
-- What a sweep over the monsters leaves alone, and the berserk state and back.
use lh_server.Prelude.{
  ℕ, ◌+◌, ◌≡◌, ◌≢◌, refl, ◌∙◌, inl, inr, Bool, true, false, List, none, some, ℤ, pos, ◌+ℤ◌, update,
  if◌then◌else◌, Option-cases, for_range, for_range-keeps, +ℤ-sub_cancel, arith,
}
use lh_server.Protocol.{Packet}
use lh_server.World.{
  EventId, ev_berserk, set_player, World, Env, Player, Monster, with_monster, crash,
  with_player-some, with_monster-some, max_monster, npc_id_start, wpn_sword,
}
use lh_server.World.Send.{send, broadcast, send_view}
use lh_server.World.Timers.{add_timer}
use lh_server.Damage.{monster_take_damage}
use lh_server.Player.Combat.{
  add_quary, leveled, bonus, level_up, kill_monster, strike, berserk_round, berserk_sweep, berserk,
  berserk_off, enraged, calmed,
}

-- Of the players only `me` has changed from `w` to `v`; it is there still, and as berserk as `b`.
pub record Mine (me : ℕ) (b : Bool) (w v : World) : Type 0 where
  pub others : (j : ℕ) → j ≢ me → v.players j ≡ w.players j
  pub mine : (q : Player) × (v.players me ≡ some q) × (q.is_berserk ≡ b)

pub Mine-of_players :
    (me : ℕ) (b : Bool) (w u v : World) → v.players ≡ u.players → Mine me b w u → Mine me b w v
Mine-of_players me b w u v e m = record {
  others = λ j h. rw e (m.others j h);
  mine = (m.mine.0, rw e m.mine.1, m.mine.2);
}

pub Mine-set :
    (me : ℕ) (b : Bool) (w u v : World) (q : Player)
    → v.players ≡ update u.players me (some q)
    → q.is_berserk ≡ b
    → Mine me b w u
    → Mine me b w v
Mine-set me b w u v q e k m = record {
  others = λ j h. rw e (ground (arith, m.others j h));
  mine = (q, rw e (ground arith), k);
}

pub add_quary-players :
    (uid : ℕ) (eid : EventId) (name pass : List ℕ) (w : World)
    → (add_quary uid eid name pass w).players ≡ w.players
unfolding add_quary crash
add_quary-players uid eid name pass w = ground arith

pub send_each-players :
    (n i uid : ℕ) (p : Packet) (w : World)
    → (for_range n i (λ j v. elim (v.players j) [ none ↦ v | some _ ↦ send uid p v ]) w).players
      ≡ w.players
unfolding send
send_each-players n i uid p w =
    for_range-keeps (λ (v : World). v.players ≡ w.players) _ (λ j v h. round j v h) n i w refl
  where
    round :
        (j : ℕ) (v : World)
        → v.players ≡ w.players
        → (let u : World = elim (v.players j) [ none ↦ v | some _ ↦ send uid p v ] in u).players
          ≡ w.players
    round j v h = ground arith

level_up-Mine : (me : ℕ) (b : Bool) (w v : World) → Mine me b w v → Mine me b w (level_up me v)
unfolding level_up leveled
level_up-Mine me b w v m = rw (with_player-some me v _ m.mine.1) (
    Mine-set me b w v _ (leveled m.mine.0)
      (add_quary-players _ _ _ _ _ ∙ send_each-players 10 0 _ _ _) m.mine.2 m)

pub with_monster-Mine :
    (me i : ℕ) (b : Bool) (w v : World) (f : Monster → World)
    → Mine me b w v
    → ((m : Monster) → Mine me b w (f m))
    → Mine me b w (with_monster i v f)
unfolding crash with_monster
with_monster-Mine me i b w v f m h = elim (Option-cases (v.monsters i)) [
  | inl e ↦ rw (e, with_monster) (Mine-of_players me b w v (crash v) refl m)
  | inr (n, e) ↦ rw (with_monster-some i v f e) (h n)
]

pub if-Mine :
    (me : ℕ) (b c : Bool) (w u v : World)
    → Mine me b w u
    → Mine me b w v
    → Mine me b w (if c then u else v)
if-Mine me b true w u v h k = h
if-Mine me b false w u v h k = k

kill_monster-Mine :
    (me oid : ℕ) (b : Bool) (w v : World) → Mine me b w v → Mine me b w (kill_monster me oid v)
unfolding kill_monster send broadcast
kill_monster-Mine me oid b w v m = rw (with_player-some me v _ m.mine.1) (
    with_monster-Mine me oid b w v _ m λ n.
      let told =
        Mine-set me b w v _ (record m.mine.0 { exp = m.mine.0.exp +ℤ n.exp }) refl m.mine.2 m in
      if-Mine me b _ w _ _ (level_up-Mine me b w _ told) told)

monster_take_damage-players :
    (oid : ℕ) (atk : ℤ) (w : World) → (monster_take_damage oid atk w).0.players ≡ w.players
unfolding monster_take_damage broadcast crash
monster_take_damage-players oid atk w = ground arith

pub strike-Mine :
    (me i : ℕ) (atk : ℤ) (b : Bool) (w v : World) → Mine me b w v → Mine me b w (strike me atk i v)
unfolding strike
strike-Mine me i atk b w v m =
    let hit = Mine-of_players me b w v _ (monster_take_damage-players i atk v) m in
    if-Mine me b _ w _ _ (kill_monster-Mine me i b w _ hit) hit

berserk_round-Mine :
    (env : Env) (me : ℕ) (b : Bool) (w : World) (i : ℕ) (v : World)
    → Mine me b w v
    → Mine me b w (berserk_round env me i v)
unfolding berserk_round
berserk_round-Mine env me b w i v m = if-Mine me b _ w _ _ (strike-Mine me i (pos 50) b w v m) m

pub berserk_sweep-Mine :
    (env : Env) (me : ℕ) (w : World) (p : Player)
    → w.players me ≡ some p
    → Mine me p.is_berserk w (berserk_sweep env me p w)
unfolding berserk_sweep send_view
berserk_sweep-Mine env me w p e =
    for_range-keeps (Mine me p.is_berserk w) (berserk_round env me)
      (berserk_round-Mine env me p.is_berserk w) max_monster npc_id_start _
      (record { others = λ j h. refl; mine = (p, e, refl) })

calmed-enraged : (q : Player) → q.is_berserk ≡ false → calmed (enraged q) ≡ q
unfolding calmed enraged
calmed-enraged q h =
    ground (arith, +ℤ-sub_cancel q.atk_point bonus, +ℤ-sub_cancel q.magic_point bonus)

berserk_begins :
    (env : Env) (me : ℕ) (w : World) (p q : Player)
    → w.players me ≡ some p
    → p.is_berserk ≡ false
    → p.wpn_type ≡ wpn_sword
    → (berserk_sweep env me p w).players me ≡ some q
    → berserk env me w
      ≡ add_timer q.id ev_berserk
          (env.now + 15000)
          (pos 0)
          (set_player (berserk_sweep env me p w) me (enraged q))
unfolding berserk
berserk_begins env me w p q e calm armed f =
    rw (with_player-some me w _ e)
      (simp (calm, armed) (with_player-some me (berserk_sweep env me p w) _ f))

berserk_ends :
    (env : Env) (me : ℕ) (w : World) (p q : Player)
    → w.players me ≡ some p
    → p.is_berserk ≡ false
    → p.wpn_type ≡ wpn_sword
    → (berserk_sweep env me p w).players me ≡ some q
    → q.is_berserk ≡ false
    → (j : ℕ) → (berserk_off me (berserk env me w)).players j ≡ (berserk_sweep env me p w).players j
unfolding berserk_off
berserk_ends env me w p q e calm armed f still j =
    rw (berserk_begins env me w p q e calm armed f)
      (rw (with_player-some me raged _ enrages) (ground (arith, calmed-enraged q still, f, timed)))
  where
    raged : World
    raged =
        add_timer q.id ev_berserk (env.now + 15000) (pos 0)
          (set_player (berserk_sweep env me p w) me (enraged q))

    timed : raged.players j ≡ (set_player (berserk_sweep env me p w) me (enraged q)).players j
    timed = unfold add_timer in refl

    enrages : raged.players me ≡ some (enraged q)
    enrages = unfold add_timer in ground arith

-- A player who goes berserk with the sword in hand: the strikes of the skill touch no other player,
-- and when its time is over the player is again what the strikes had left of them, with the attack
-- and the magic that the skill had added taken back.
pub berserk-berserk_off :
    (env : Env) (me : ℕ) (w : World) (p : Player)
    → w.players me ≡ some p
    → p.is_berserk ≡ false
    → p.wpn_type ≡ wpn_sword
    → ((j : ℕ)
        → (berserk_off me (berserk env me w)).players j ≡ (berserk_sweep env me p w).players j)
      × ((j : ℕ) → j ≢ me → (berserk_off me (berserk env me w)).players j ≡ w.players j)
berserk-berserk_off env me w p e calm armed =
    let m = berserk_sweep-Mine env me w p e in
    let back = berserk_ends env me w p m.mine.0 e calm armed m.mine.1 (m.mine.2 ∙ calm) in
    (back, λ j h. back j ∙ m.others j h)
