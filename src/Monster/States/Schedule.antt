-- ===== src/Monster/States/Schedule.antt =====
-- A monster stays alive in the timer queue: each of its updates sets its next timer.
use lh_server.Prelude.{
  ℕ, ◌+◌, ◌≡◌, ◌≢◌, ◌≤◌, refl, Bool, true, false, Option, none, some, ℤ, pos, negsuc, not,
  if◌then◌else◌, Option-cases, inl, inr, arith, leb_ℤ, ◌==◌,
}
use lh_server.Monster.Keeps.{
  Keeps, Keeps-set, if-Keeps, change_state-Keeps, update_target-Keeps, chase-Keeps,
  monster_attack-Keeps, start,
}
use lh_server.World.{
  World, Env, Player, Monster, MonState, Event, m_idle, m_chase, m_attack, m_rhome, m_dead,
  ev_monster, with_monster-some,
}
use lh_server.World.Timers.{push, add_timer}
use lh_server.World.Seats.{Seats}
use lh_server.Monster.{change_state, chase, monster_attack, player_at}
use lh_server.Monster.States.{
  again, idle_decide, idle_execute, chase_on, chase_execute, attack_on, attack_execute,
  home_execute, update,
}

-- The timer of the monster `n`, in `delay` milliseconds.
abbrev pub timer : Env → ℕ → ℕ → Event
timer env n delay = record {
  obj_id = n;
  event_id = ev_monster;
  wakeup_time = env.now + delay;
  target_id = pos 0;
}

-- The one timer that has been set is that of the monster `n`, which is still at `oid`; no other monster
-- has changed, nor the golem; and the players keep their ids.
abbrev pub Schedules : Env → ℕ → ℕ → World → World → Type 0
Schedules env oid n w v =
    (delay : ℕ) × (delay ≤ 3000)
    × (v.timers ≡ push (timer env n delay) w.timers)
    × ((m : Monster) × (v.monsters oid ≡ some m) × (m.id ≡ n))
    × ((i : ℕ) → (i == oid) ≡ false → v.monsters i ≡ w.monsters i)
    × (v.bosses ≡ w.bosses)
    × Seats w v

again-Schedules :
    (env : Env) (oid n delay : ℕ) (w v : World)
    → delay ≤ 3000
    → Keeps oid n w v
    → Schedules env oid n w (again env oid delay v)
unfolding again add_timer
again-Schedules env oid n delay w v h k =
    rw (with_monster-some oid v _ k.there.1)
      (delay, h, rw (k.timers, k.there.2) refl, k.there, k.others, k.bosses, k.seats)

if-Schedules :
    (env : Env) (oid n : ℕ) (b : Bool) (w u v : World)
    → Schedules env oid n w u
    → Schedules env oid n w v
    → Schedules env oid n w (if b then u else v)
if-Schedules env oid n true w u v h k = h
if-Schedules env oid n false w u v h k = k

elim-Schedules :
    (env : Env) (oid n : ℕ) (o : Option Player) (w u : World) (f : Player → World)
    → Schedules env oid n w u
    → ((p : Player) → Schedules env oid n w (f p))
    → Schedules env oid n w (elim o [ none ↦ u | some p ↦ f p ])
elim-Schedules env oid n none w u f h k = h
elim-Schedules env oid n (some p) w u f h k = k p

idle_decide-Schedules :
    (env : Env) (oid n t : ℕ) (p : Player) (w v : World)
    → Keeps oid n w v
    → Schedules env oid n w (idle_decide env oid t p v)
unfolding idle_decide
idle_decide-Schedules env oid n t p w v k =
    let aimed = Keeps-set oid n w v (record k.there.0 { target = pos t }) k.there.2 k in
    rw (with_monster-some oid v _ k.there.1) (
      again-Schedules env oid n 1000 w _ (omega arith) (
        if-Keeps oid n _ w _ _
          (if-Keeps oid n _ w _ _ aimed (change_state-Keeps oid n m_attack w _ aimed))
          (if-Keeps oid n _ w _ _ (change_state-Keeps oid n m_rhome w _ aimed)
            (if-Keeps oid n _ w _ _ (change_state-Keeps oid n m_chase w _ aimed) aimed))))

idle_execute-Schedules :
    (env : Env) (oid : ℕ) (w : World) (m : Monster)
    → w.monsters oid ≡ some m
    → Schedules env oid m.id w (idle_execute env oid w)
unfolding idle_execute
idle_execute-Schedules env oid w m e =
    let k = start oid w m e in
    let dead =
      if-Keeps oid m.id (leb_ℤ m.health_point (pos 0)) w _ _
        (change_state-Keeps oid m.id m_dead w w k) k in
    let rest = again-Schedules env oid m.id 1000 w _ (omega arith) dead in
    rw (with_monster-some oid w _ e) (
      elim-Schedules env oid m.id _ w _ _ rest λ p.
        if-Schedules env oid m.id p.is_alive w _ _ (idle_decide-Schedules env oid m.id _ p w _ dead)
          rest)

chase_on-Schedules :
    (env : Env) (oid n : ℕ) (w v : World)
    → Keeps oid n w v
    → Schedules env oid n w (chase_on env oid v)
unfolding chase_on
chase_on-Schedules env oid n w v k =
    rw (with_monster-some oid v _ k.there.1) (elim (Option-cases (player_at k.there.0.target v)) [
      | inl e ↦ rw e (again-Schedules env oid n 1000 w v (omega arith) k)
      | inr (p, e) ↦
          let gone = chase-Keeps env oid n p w v k in
          rw (e, with_monster-some oid (chase env oid p v) _ gone.there.1)
            (if-Schedules env oid n _ w _ _
              (again-Schedules env oid n 1000 w _ (omega arith)
                (change_state-Keeps oid n m_attack w _ gone))
              (again-Schedules env oid n 100 w _ (omega arith) gone))
    ])

dies-Schedules :
    (env : Env) (oid n : ℕ) (s : MonState) (w v : World)
    → Keeps oid n w v
    → Schedules env oid n w (again env oid 1000 (change_state oid s v))
dies-Schedules env oid n s w v k =
    again-Schedules env oid n 1000 w _ (omega arith) (change_state-Keeps oid n s w v k)

chase_execute-Schedules :
    (env : Env) (oid : ℕ) (w : World) (m : Monster)
    → w.monsters oid ≡ some m
    → Schedules env oid m.id w (chase_execute env oid w)
unfolding chase_execute
chase_execute-Schedules env oid w m e =
    let k = start oid w m e in
    rw (with_monster-some oid w _ e) (
      if-Schedules env oid m.id _ w _ _ (dies-Schedules env oid m.id m_dead w w k)
        (chase_on-Schedules env oid m.id w _ (update_target-Keeps env oid m.id w w k)))

attack_on-Schedules :
    (env : Env) (oid n t : ℕ) (p : Player) (w v : World)
    → Keeps oid n w v
    → Schedules env oid n w (attack_on env oid t p v)
unfolding attack_on
attack_on-Schedules env oid n t p w v k = rw (with_monster-some oid v _ k.there.1) (
    if-Schedules env oid n _ w _ _ (dies-Schedules env oid n m_chase w v k)
      (again-Schedules env oid n 3000 w v (omega arith) k))

attack_execute-Schedules :
    (env : Env) (oid : ℕ) (w : World) (m : Monster)
    → w.monsters oid ≡ some m
    → Schedules env oid m.id w (attack_execute env oid w)
unfolding attack_execute
attack_execute-Schedules env oid w m e =
    let k = start oid w m e in
    rw (with_monster-some oid w _ e) (
      if-Schedules env oid m.id _ w _ _ (dies-Schedules env oid m.id m_dead w w k)
        (aimed_at m.target k))
  where
    aimed_at :
        (target : ℤ)
        → Keeps oid m.id w w
        → Schedules env oid m.id w (elim target [
          | negsuc t ↦ again env oid 1000 (change_state oid m_idle w)
          | pos t ↦ elim (w.players t) [
            | none ↦ again env oid 1000 (change_state oid m_idle w)
            | some p ↦
                if not p.is_alive
                then again env oid 1000 (change_state oid m_idle w)
                else attack_on env oid t p (monster_attack env oid t w)
          ]
        ])
    aimed_at (negsuc t) k = dies-Schedules env oid m.id m_idle w w k
    aimed_at (pos t) k =
        let rests = dies-Schedules env oid m.id m_idle w w k in
        elim-Schedules env oid m.id _ w _ _ rests λ p.
          if-Schedules env oid m.id (not p.is_alive) w _ _ rests
            (attack_on-Schedules env oid m.id t p w _ (monster_attack-Keeps env oid t m.id w w k))

home_execute-Schedules :
    (env : Env) (oid : ℕ) (w : World) (m : Monster)
    → w.monsters oid ≡ some m
    → Schedules env oid m.id w (home_execute env oid w)
unfolding home_execute
home_execute-Schedules env oid w m e =
    let k = start oid w m e in
    let maybe = λ (s : MonState) (b : Bool) (v : World) (h : Keeps oid m.id w v).
      if-Keeps oid m.id b w (change_state oid s v) v (change_state-Keeps oid m.id s w v h) h in
    rw (with_monster-some oid w _ e) (
      again-Schedules env oid m.id 1000 w _ (omega arith)
        (maybe m_chase _ _ (maybe m_idle _ _ (maybe m_dead _ w k))))

pub update-Schedules :
    (env : Env) (oid : ℕ) (w : World) (m : Monster)
    → w.monsters oid ≡ some m
    → m.state ≢ m_dead
    → (delay : ℕ) × (delay ≤ 3000)
      × ((update env oid w).timers ≡ push (timer env m.id delay) w.timers)
      × ((n : Monster) × ((update env oid w).monsters oid ≡ some n) × (n.id ≡ m.id))
      × ((i : ℕ) → (i == oid) ≡ false → (update env oid w).monsters i ≡ w.monsters i)
      × ((update env oid w).bosses ≡ w.bosses)
      × Seats w (update env oid w)
unfolding update
update-Schedules env oid w m e alive = rw (with_monster-some oid w _ e) (by_state m.state alive)
  where
    by_state :
        (s : MonState)
        → s ≢ m_dead
        → Schedules env oid m.id w (elim s [
          | m_idle ↦ idle_execute env oid w
          | m_chase ↦ chase_execute env oid w
          | m_attack ↦ attack_execute env oid w
          | m_rhome ↦ home_execute env oid w
          | m_dead ↦ w
        ])
    by_state m_idle h = idle_execute-Schedules env oid w m e
    by_state m_chase h = chase_execute-Schedules env oid w m e
    by_state m_attack h = attack_execute-Schedules env oid w m e
    by_state m_rhome h = home_execute-Schedules env oid w m e
    by_state m_dead h = absurd (h refl)
