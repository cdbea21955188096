-- ===== src/System/Updates.antt =====
-- A worker that takes an event of a monster updates the monster, which sets its timer again.
use lh_server.Prelude.{
  ℕ, ◌≡◌, ◌≢◌, ◌<◌, refl, sym, ap, subst, ◌∙◌, ◌≤◌, true, false, List, ◌∷◌, ◌++◌, none, some, ◌==◌,
  ◌&&◌, ◌⊎◌, inl, inr, Bool-cases, Option-cases, arith, ltb,
}
use lh_server.World.{
  World, Env, Monster, MonState, EventId, m_idle, m_chase, m_attack, m_rhome, m_dead, ev_monster,
  ev_boss, ev_login, ev_sign, ev_update, ev_berserk, ev_atk_off, ev_guard_off, ev_evade_off,
  ev_fireball, ev_ass_off, npc_id_start, with_monster-some,
}
use lh_server.World.Timers.{push, push-IsQueue}
use lh_server.Start.Timers.{is_monster_event}
use lh_server.System.Due.{of_monster, one_if, timers_of, updates_of, timers_of-push, posts_of-taken}
use lh_server.Timer.{Completion}
use lh_server.Monster.States.{update}
use lh_server.Monster.States.Schedule.{update-Schedules, timer}
use lh_server.Dispatch.{on_event}
use lh_server.System.Background.{fireball_update-Steady}
use lh_server.System.Golem.{on_boss-Wakes}
use lh_server.System.Pending.{Wakes-Sound}
use lh_server.System.Pending.{Sound, Ticks-Sound}

-- An event that updates no monster.
taken-Sound :
    (w : World) (before after : List Completion) (c : Completion)
    → ((i : ℕ) (m : Monster)
        → w.monsters i ≡ some m
        → (is_monster_event c.op && c.key == i) ≡ true
        → m.state ≢ m_dead
        → ⊥)
    → Sound w (before ++ c ∷ after)
    → Sound w (before ++ after)
taken-Sound w before after c own s = record {
  queue = s.queue;
  golem = s.golem;
  once = λ i. omega (arith, s.once i, posts_of-taken (of_monster i) before after c);
  kept = λ i m e.
      let old = s.kept i m e in
      (
        old.0,
        old.1,
        λ alive. elim (Bool-cases (is_monster_event c.op && c.key == i)) [
          | inl a ↦ absurd (own i m e a alive)
          | inr a ↦
              omega (arith, old.2 alive, posts_of-taken (of_monster i) before after c, ap one_if a)
        ],
      );
}

is_dead : (s : MonState) → (s ≡ m_dead) ⊎ (s ≢ m_dead)
is_dead m_idle = inr (λ e. ground (arith, e))
is_dead m_chase = inr (λ e. ground (arith, e))
is_dead m_attack = inr (λ e. ground (arith, e))
is_dead m_rhome = inr (λ e. ground (arith, e))
is_dead m_dead = inl refl

update_dead :
    (env : Env) (oid : ℕ) (w : World) (m : Monster)
    → w.monsters oid ≡ some m
    → m.state ≡ m_dead
    → update env oid w ≡ w
unfolding update
update_dead env oid w m e d = rw (with_monster-some oid w _ e, d) refl

-- What a worker makes of the event of a monster: nothing, or the update of a monster that is not dead.
pub on_monster-cases :
    (env : Env) (key : ℕ) (w : World)
    → (on_event env key ev_monster w ≡ w)
      ⊎ ((m : Monster) × (w.monsters key ≡ some m)
          × (m.state ≢ m_dead)
          × (on_event env key ev_monster w ≡ update env key w))
unfolding on_event
on_monster-cases env key w = elim (Bool-cases (ltb key npc_id_start)) [
  | inl low ↦ rw low (inl refl)
  | inr high ↦ rw high (elim (Option-cases (w.monsters key)) [
    | inl e ↦ rw e (inl refl)
    | inr (m, e) ↦ rw e (elim (is_dead m.state) [
      | inl d ↦ inl (update_dead env key w m e d)
      | inr alive ↦ inr (m, refl, alive, refl)
    ])
  ])
]

-- The update of the monster whose event has been taken: a timer for an event.
update-Sound :
    (env : Env) (oid : ℕ) (w : World) (m : Monster) (before after : List Completion)
    (c : Completion)
    → w.monsters oid ≡ some m
    → c.key ≡ oid
    → c.op ≡ ev_monster
    → Sound w (before ++ c ∷ after)
    → Sound (update env oid w) (before ++ after)
update-Sound env oid w m before after c e key op s = elim (is_dead m.state) [
  | inl d ↦
      rw (update_dead env oid w m e d)
        (taken-Sound w before after c (λ i n f a alive. alive (is_m i n f a ∙ d)) s)
  | inr alive ↦
      let (delay, soon, timers, (n, f, id), others, bosses, seats) =
        update-Schedules env oid w m e alive in
      record {
        queue = rw timers (push-IsQueue _ w.timers s.queue);
        golem = λ i b g. s.golem i b (rw bosses at g);
        once = λ i. subst (λ k. k ≤ 1) (sym (same i delay timers)) (s.once i);
        kept = λ i x g. elim (Bool-cases (i == oid)) [
          | inl at_oid ↦
              let here : i ≡ oid = ground (arith, at_oid) in
              let old = s.kept oid m e in
              let x_is_n : x ≡ n = ground (arith, at_oid, f, g) in
              (
                ap (λ (r : Monster). r.id) x_is_n ∙ id ∙ old.0 ∙ sym here,
                ground (arith, here, old.1),
                λ l.
                    same i delay timers
                    ∙ subst (λ j. updates_of (of_monster j) w.timers (before ++ c ∷ after) ≡ 1)
                        (sym here) (old.2 alive),
              )
          | inr differs ↦
              let old = s.kept i x (sym (others i differs) ∙ g) in
              (old.0, old.1, λ l. same i delay timers ∙ old.2 l)
        ];
      }
]
  where
    is_m :
        (i : ℕ) (n : Monster)
        → w.monsters i ≡ some n
        → (is_monster_event c.op && c.key == i) ≡ true
        → n.state ≡ m.state
    is_m i n f a =
        let at_oid : i ≡ oid = ground (arith, a, key) in
        let f' : w.monsters oid ≡ some n = rw at_oid at f in
        let n_is_m : n ≡ m = ground (arith, f', e) in ap (λ (r : Monster). r.state) n_is_m

    owned : (i : ℕ) → (is_monster_event c.op && c.key == i) ≡ (m.id == i)
    owned i = rw (op, key, (s.kept oid m e).0) refl

    same :
        (i delay : ℕ)
        → (update env oid w).timers ≡ push (timer env m.id delay) w.timers
        → updates_of (of_monster i) (update env oid w).timers (before ++ after)
          ≡ updates_of (of_monster i) w.timers (before ++ c ∷ after)
    same i delay t = omega (
      arith,
      ap (timers_of (of_monster i)) t,
      timers_of-push (of_monster i) (timer env m.id delay) w.timers,
      posts_of-taken (of_monster i) before after c,
      ap one_if (owned i),
    )

on_monster-Sound :
    (env : Env) (before after : List Completion) (c : Completion) (w : World)
    → c.op ≡ ev_monster
    → Sound w (before ++ c ∷ after)
    → Sound (on_event env c.key ev_monster w) (before ++ after)
unfolding on_event
on_monster-Sound env before after c w op s = elim (Bool-cases (ltb c.key npc_id_start)) [
  | inl low ↦ rw low (
      taken-Sound w before after c
        (λ i m e a alive. omega (arith, (s.kept i m e).1, is_key i a, below low)) s)
  | inr high ↦ rw high (elim (Option-cases (w.monsters c.key)) [
    | inl e ↦ rw e (taken-Sound w before after c (λ i m f a alive. nobody i m f a e) s)
    | inr (m, e) ↦ rw e (update-Sound env c.key w m before after c e refl op s)
  ])
]
  where
    is_key : (i : ℕ) → (is_monster_event c.op && c.key == i) ≡ true → i ≡ c.key
    is_key i a = ground (arith, a)

    below : ltb c.key npc_id_start ≡ true → c.key < npc_id_start
    below h = ground arith

    nobody :
        (i : ℕ) (m : Monster)
        → w.monsters i ≡ some m
        → (is_monster_event c.op && c.key == i) ≡ true
        → w.monsters c.key ≡ none
        → ⊥
    nobody i m f a e =
        let f' : w.monsters c.key ≡ some m = rw (is_key i a) at f in ground (arith, f', e)

-- Every event that a worker may take.
pub complete-Sound :
    (env : Env) (before after : List Completion) (c : Completion) (w : World)
    → Sound w (before ++ c ∷ after)
    → Sound (on_event env c.key c.op w) (before ++ after)
unfolding on_event
complete-Sound env before after c w s = by_op c.op refl
  where
    none_own : (op : EventId) → c.op ≡ op → is_monster_event op ≡ false → Sound w (before ++ after)
    none_own op e h =
        taken-Sound w before after c (λ i m f a alive. absurd (ground (arith, e, h, a))) s

    by_op : (op : EventId) → c.op ≡ op → Sound (on_event env c.key op w) (before ++ after)
    by_op ev_monster e = on_monster-Sound env before after c w e s
    by_op ev_boss e =
        Wakes-Sound w _ (before ++ after) (on_boss-Wakes env c.key w) (none_own ev_boss e refl)
    by_op ev_fireball e =
        Ticks-Sound w _ (before ++ after) (fireball_update-Steady env c.key w).ticks
          (none_own ev_fireball e refl)
    by_op ev_login e = none_own ev_login e refl
    by_op ev_sign e = none_own ev_sign e refl
    by_op ev_update e = none_own ev_update e refl
    by_op ev_berserk e = none_own ev_berserk e refl
    by_op ev_atk_off e = none_own ev_atk_off e refl
    by_op ev_guard_off e = none_own ev_guard_off e refl
    by_op ev_evade_off e = none_own ev_evade_off e refl
    by_op ev_ass_off e = none_own ev_ass_off e refl
