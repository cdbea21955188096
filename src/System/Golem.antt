-- ===== src/System/Golem.antt =====
-- The golem's update leaves the monsters to themselves, and sets one timer at most.
use lh_server.Prelude.{
  ℕ, ◌≡◌, subst, Bool, Option, none, some, refl, pos, if◌then◌else◌, not, Option-cases, inl, inr,
  leb_ℤ,
}
use lh_server.World.{
  World, Env, Player, Boss, BState, b_idle, b_attack, b_dead, b_chase, b_dash_atk, b_swing_atk,
  b_strike_atk, b_throw_atk, b_stomp_atk, b_icespear_atk, b_handclap_atk, b_punch_atk, b_down_atk,
  b_normal_atk, b_down_atk_r, b_down_atk_l, b_down_atk_sweep, crash, set_boss, ev_boss, player_ids,
}
use lh_server.World.Send.{broadcast}
use lh_server.Monster.{player_at}
use lh_server.Boss.Break.{is_part_destroyed}
use lh_server.Boss.{with_boss, attack, take_target, aim, boss_activity_range, is_leg_broken}
use lh_server.Boss.Chase.{idle, chase, follow_path}
use lh_server.Boss.States.{
  change_state, again, is_b_idle, is_b_chase, next_state, idle_execute, chase_execute, show_turn,
  show_attack, is_b_attack, is_b_normal_atk, after_choice, attack_execute, special_execute,
  down_attack, down_execute, execute, update,
}
use lh_server.Boss.Wear.{Worn, Worn-refl, is_part_destroyed-Worn}
use lh_server.Physics.{Fpu}
use lh_server.Prelude.{sym, ℤ, arith}
use lh_server.World.{Part}
use lh_server.World.Timers.{add_timer}
use lh_server.System.Steady.{
  Steady, Steady-refl, Steady-untouched, set_boss-Steady, if-Steady, elim-Steady,
}
use lh_server.System.Wakes.{Wakes, if-Wakes, elim-Wakes, with_boss-Wakes}
use lh_server.Dispatch.{on_event}
use lh_server.World.{boss_idx}

with_boss-Steady :
    (i : ℕ) (w v : World) (f : Boss → World)
    → Steady w v
    → ((b : Boss) → v.bosses i ≡ some b → Steady w (f b))
    → Steady w (with_boss i v f)
unfolding crash with_boss
with_boss-Steady i w v f k h = elim (Option-cases (v.bosses i)) [
  | inl e ↦ rw (e, with_boss) (Steady-untouched w v (crash v) refl refl refl refl k)
  | inr (b, e) ↦ rw (e, with_boss) (h b e)
]

change_state-Steady :
    (oid : ℕ) (s : BState) (w v : World) → Steady w v → Steady w (change_state oid s v)
unfolding change_state
change_state-Steady oid s w v k =
    with_boss-Steady oid w v _ k
      λ b e. set_boss-Steady oid b (record b { state = s }) w v e (Worn-refl b) k

again-Wakes :
    (env : Env) (oid delay : ℕ) (w v : World) → Steady w v → Wakes w (again env oid delay v)
unfolding again add_timer
again-Wakes env oid delay w v k = with_boss-Wakes oid w v _ k λ b e. inr (v, k, (_, refl, refl))

show-Steady :
    (env : Env) (b : Boss) (atk : BState) (p : Player) (w v : World)
    → Steady w v
    → Steady w (show_attack b atk p (show_turn env b p v))
unfolding show_attack show_turn broadcast
show-Steady env b atk p w v k = Steady-untouched w v _ refl refl refl refl k

show_turn-Steady :
    (env : Env) (b : Boss) (p : Player) (w v : World) → Steady w v → Steady w (show_turn env b p v)
unfolding show_turn broadcast
show_turn-Steady env b p w v k = Steady-untouched w v _ refl refl refl refl k

-- The way of the golem leaves its parts as they are.
abbrev Same : Boss → Boss → Type 0
Same b c =
    (c.id ≡ b.id)
    × (c.bone_map ≡ b.bone_map)
    × (c.is_destroy ≡ b.is_destroy)
    × (c.part_hp ≡ b.part_hp)

Worn-Same : (b c : Boss) → Same b c → Worn b c
Worn-Same b c (id, bones, broken, hp) =
    subst
      (λ (x : (Part → ℤ) × ((Part → Bool) × (Part → ℤ))).
        Worn b (record c { bone_map = x.0; is_destroy = x.1.0; part_hp = x.1.1 }))
      (λ i. (sym bones i, (sym broken i, sym hp i))) (id, (Worn-refl b).1, λ h. h)

chase-Worn :
    (f : Fpu) (b : Boss) (w : World) (r : Boss × BState) → chase f b w ≡ some r → Worn b r.0
unfolding chase follow_path
chase-Worn f b w r e = Worn-Same b r.0 (ground arith)

attack-Worn : (env : Env) (b : Boss) (w : World) → Worn b (attack env b w).0
unfolding attack take_target
attack-Worn env b w =
    aimed (w.players (aim env.fpu b.pos w.players (0, boss_activity_range) player_ids).0)
  where
    aimed :
        (o : Option Player)
        → Worn b (elim o [
          | none ↦ b
          | some _ ↦ record b {
            target = pos (aim env.fpu b.pos w.players (0, boss_activity_range) player_ids).0;
          }
        ])
    aimed none = Worn-refl b
    aimed (some p) = Worn-refl b

idle_execute-Wakes :
    (env : Env) (oid : ℕ) (w v : World) → Steady w v → Wakes w (idle_execute env oid v)
unfolding idle_execute
idle_execute-Wakes env oid w v k = with_boss-Wakes oid w v _ k λ b e.
    again-Wakes env oid 1000 w _
      (if-Steady (is_b_idle (idle env.fpu b v)) w v _ k (change_state-Steady oid _ w v k))

chase_execute-Steady :
    (env : Env) (oid : ℕ) (w v : World) → Steady w v → Steady w (chase_execute env oid v)
unfolding chase_execute crash
chase_execute-Steady env oid w v k = with_boss-Steady oid w v _ k λ b e.
    if-Steady _ w _ _ (change_state-Steady oid b_idle w v k) (
      elim-Steady (chase env.fpu b v) w _ _ (Steady-untouched w v (crash v) refl refl refl refl k)
        λ r f. on b e r f)
  where
    on :
        (b : Boss)
        → v.bosses oid ≡ some b
        → (r : Boss × BState) → chase env.fpu b v ≡ some r
        → Steady w (
            if is_b_chase r.1
            then set_boss v oid r.0
            else change_state oid (next_state r.1) (set_boss v oid r.0))
    on b e r f =
        let moved : Steady w (set_boss v oid r.0) =
          set_boss-Steady oid b r.0 w v e (chase-Worn env.fpu b v r f) k in
        if-Steady (is_b_chase r.1) w (set_boss v oid r.0) _ moved
          (change_state-Steady oid _ w _ moved)

after_choice-Wakes :
    (env : Env) (oid : ℕ) (b : Boss) (s : BState) (w v : World)
    → Steady w v
    → Wakes w (after_choice env oid b s v)
unfolding after_choice crash
after_choice-Wakes env oid b s w v k =
    if-Wakes (is_b_attack s) w _ _ (again-Wakes env oid 1000 w v k) (
      again-Wakes env oid 1000 w _ (
        if-Steady (is_b_normal_atk s) w _ _
          (elim-Steady (player_at b.target v) w _ _
            (Steady-untouched w v (crash v) refl refl refl refl k)
            λ p f. show-Steady env b b_normal_atk p w v k)
          (change_state-Steady oid _ w v k)))

attack_execute-Wakes :
    (env : Env) (oid : ℕ) (w v : World) → Steady w v → Wakes w (attack_execute env oid v)
unfolding attack_execute
attack_execute-Wakes env oid w v k = with_boss-Wakes oid w v _ k λ b e.
    after_choice-Wakes env oid _ _ w (set_boss v oid (attack env b v).0)
      (set_boss-Steady oid b (attack env b v).0 w v e (attack-Worn env b v) k)

special_execute-Wakes :
    (env : Env) (atk : BState) (delay oid : ℕ) (w v : World)
    → Steady w v
    → Wakes w (special_execute env atk delay oid v)
unfolding special_execute
special_execute-Wakes env atk delay oid w v k = with_boss-Wakes oid w v _ k λ b e.
    let left = change_state-Steady oid b_attack w v k in
    elim-Wakes (player_at b.target v) w _ _ (inl left) λ p f.
      if-Wakes (is_leg_broken b) w _ _ (inl left) (
        again-Wakes env oid delay w _
          (change_state-Steady oid b_attack w _ (show-Steady env b atk p w v k)))

down_execute-Wakes :
    (env : Env) (oid : ℕ) (w v : World) → Steady w v → Wakes w (down_execute env oid v)
unfolding down_execute
down_execute-Wakes env oid w v k = with_boss-Wakes oid w v _ k λ b e.
    let left = change_state-Steady oid b_attack w v k in
    elim-Wakes (player_at b.target v) w _ _ (inl left) λ p f.
      if-Wakes (not (is_leg_broken b)) w _ _ (inl left) (
        elim-Wakes (down_attack env b) w _ _ (inl (show_turn-Steady env b p w v k)) λ atk g.
          again-Wakes env oid 5000 w _
            (change_state-Steady oid b_attack w _ (show-Steady env b atk p w v k)))

execute-Wakes :
    (env : Env) (s : BState) (oid : ℕ) (w v : World) → Steady w v → Wakes w (execute env s oid v)
unfolding execute
execute-Wakes env b_idle oid w v k = idle_execute-Wakes env oid w v k
execute-Wakes env b_chase oid w v k = inl (chase_execute-Steady env oid w v k)
execute-Wakes env b_attack oid w v k = attack_execute-Wakes env oid w v k
execute-Wakes env b_dash_atk oid w v k = special_execute-Wakes env b_dash_atk 5000 oid w v k
execute-Wakes env b_swing_atk oid w v k = special_execute-Wakes env b_swing_atk 3000 oid w v k
execute-Wakes env b_strike_atk oid w v k = special_execute-Wakes env b_strike_atk 3000 oid w v k
execute-Wakes env b_throw_atk oid w v k = special_execute-Wakes env b_throw_atk 5000 oid w v k
execute-Wakes env b_stomp_atk oid w v k = special_execute-Wakes env b_stomp_atk 5000 oid w v k
execute-Wakes env b_icespear_atk oid w v k = special_execute-Wakes env b_icespear_atk 5000 oid w v k
execute-Wakes env b_handclap_atk oid w v k = special_execute-Wakes env b_handclap_atk 5000 oid w v k
execute-Wakes env b_punch_atk oid w v k = special_execute-Wakes env b_punch_atk 5000 oid w v k
execute-Wakes env b_down_atk oid w v k = down_execute-Wakes env oid w v k
execute-Wakes env b_dead oid w v k = inl k
execute-Wakes env b_normal_atk oid w v k = inl k
execute-Wakes env b_down_atk_r oid w v k = inl k
execute-Wakes env b_down_atk_l oid w v k = inl k
execute-Wakes env b_down_atk_sweep oid w v k = inl k

pub update-Wakes : (env : Env) (oid : ℕ) (w : World) → Wakes w (update env oid w)
unfolding update
update-Wakes env oid w = with_boss-Wakes oid w w _ (Steady-refl w) λ b e.
    let dead = change_state-Steady oid b_dead w w (Steady-refl w) in
    if-Wakes (leb_ℤ b.body_hp (pos 0)) w _ _ (inl dead) (
      if-Wakes (leb_ℤ b.main_hp (pos 0)) w _ _ (inl dead) (
        execute-Wakes env b.state oid w _ (
          set_boss-Steady oid b (is_part_destroyed b) w w e (is_part_destroyed-Worn b)
            (Steady-refl w))))

-- The event of the golem.
pub on_boss-Wakes : (env : Env) (key : ℕ) (w : World) → Wakes w (on_event env key ev_boss w)
unfolding on_event
on_boss-Wakes env key w =
    elim-Wakes (w.bosses boss_idx) w w _ (inl (Steady-refl w)) λ b f. update-Wakes env boss_idx w
