-- ===== src/Player/Skills/Timers.antt =====
-- A strike sets no timer.
use lh_server.Prelude.{
  ℕ, ◌≡◌, refl, ◌∙◌, Bool, true, false, List, none, some, ℤ, if◌then◌else◌, for_range,
  for_range-keeps, Option-cases, inl, inr, arith,
}
use lh_server.Protocol.{Packet}
use lh_server.World.{
  World, Player, with_player, Monster, with_monster-some, EventId, with_player-some, crash,
  with_monster,
}
use lh_server.World.Send.{send, broadcast}
use lh_server.Damage.{monster_take_damage}
use lh_server.Player.Combat.{strike, kill_monster, level_up, add_quary}

with_player-timers :
    (me : ℕ) (w : World) (f : Player → World)
    → ((p : Player) → (f p).timers ≡ w.timers)
    → (with_player me w f).timers ≡ w.timers
unfolding crash with_player
with_player-timers me w f h = elim (Option-cases (w.players me)) [
  | inl e ↦ rw (e, with_player) refl
  | inr (p, e) ↦ rw (with_player-some me w f e) (h p)
]

with_monster-timers :
    (i : ℕ) (w : World) (f : Monster → World)
    → ((m : Monster) → (f m).timers ≡ w.timers)
    → (with_monster i w f).timers ≡ w.timers
unfolding crash with_monster
with_monster-timers i w f h = elim (Option-cases (w.monsters i)) [
  | inl e ↦ rw (e, with_monster) refl
  | inr (m, e) ↦ rw (with_monster-some i w f e) (h m)
]

add_quary-timers :
    (uid : ℕ) (eid : EventId) (name pass : List ℕ) (w : World)
    → (add_quary uid eid name pass w).timers ≡ w.timers
unfolding add_quary crash
add_quary-timers uid eid name pass w = ground arith

send_each-timers :
    (n i uid : ℕ) (p : Packet) (w : World)
    → (for_range n i (λ j v. elim (v.players j) [ none ↦ v | some _ ↦ send uid p v ]) w).timers
      ≡ w.timers
unfolding send
send_each-timers n i uid p w =
    for_range-keeps (λ (v : World). v.timers ≡ w.timers) _ (λ j v h. round j v h) n i w refl
  where
    round :
        (j : ℕ) (v : World)
        → v.timers ≡ w.timers
        → (let u : World = elim (v.players j) [ none ↦ v | some _ ↦ send uid p v ] in u).timers
          ≡ w.timers
    round j v h = ground arith

level_up-timers : (me : ℕ) (w : World) → (level_up me w).timers ≡ w.timers
unfolding level_up
level_up-timers me w =
    with_player-timers me w _ λ p. add_quary-timers _ _ _ _ _ ∙ send_each-timers 10 0 _ _ _

if-timers :
    (b : Bool) (w u v : World)
    → u.timers ≡ w.timers
    → v.timers ≡ w.timers
    → (if b then u else v).timers ≡ w.timers
if-timers true w u v h k = h
if-timers false w u v h k = k

kill_monster-timers : (me i : ℕ) (w : World) → (kill_monster me i w).timers ≡ w.timers
unfolding kill_monster send broadcast
kill_monster-timers me i w =
    with_player-timers me w _
      λ p. with_monster-timers i w _ λ m. if-timers _ w _ _ (level_up-timers me _) refl

monster_take_damage-timers :
    (i : ℕ) (atk : ℤ) (w : World) → (monster_take_damage i atk w).0.timers ≡ w.timers
unfolding monster_take_damage crash broadcast
monster_take_damage-timers i atk w = ground arith

pub strike-timers : (me : ℕ) (atk : ℤ) (i : ℕ) (w : World) → (strike me atk i w).timers ≡ w.timers
unfolding strike
strike-timers me atk i w =
    let hurt = monster_take_damage-timers i atk w in
    if-timers _ w _ _ (kill_monster-timers me i _ ∙ hurt) hurt
