-- ===== src/System/Pending.antt =====
-- An update of a monster is due for its timer in the queue or for its event that waits for a worker; what
-- the timer thread makes of the one is the other.
use lh_server.Prelude.{
  ℕ, suc, ◌≡◌, ◌≢◌, ◌≤◌, refl, sym, ap, ◌∙◌, List, [], ◌∷◌, some, ◌+◌, subst, arith, length,
}
use lh_server.World.{World, Monster, Boss, Event, m_dead, npc_id_start}
use lh_server.World.Timers.{IsQueue}
use lh_server.System.Due.{
  of_monster, posts_of-posts, updates_of, timers_of, posts_of, timers_of-append, posts_of-append,
  posts_of-posts_all,
}
use lh_server.Boss.Wear.{IsIntact}
use lh_server.Timer.{posts, Completion, run_due, fire}
use lh_server.Timer.Drain.{fire_all, run_due_lem}
use lh_server.System.{System, tick}
use lh_server.System.Ticks.{Ticks}
use lh_server.System.Wakes.{Wakes}
use lh_server.Prelude.{inl, inr, Bool}
use lh_server.World.{EventId}
use lh_server.World.Timers.{push, push-IsQueue}
use lh_server.System.Due.{timers_of-push, one_if}
use lh_server.System.Background.{fire-Still}

-- A monster in its place, for which one update is due unless it is in the dead state.
abbrev pub IsKept : ℕ → Monster → List Event → List Completion → Type 0
IsKept i m timers posted =
    (m.id ≡ i)
    × (npc_id_start ≤ i)
    × (m.state ≢ m_dead → updates_of (of_monster i) timers posted ≡ 1)

-- The queue is in the order of waking, no monster is due for two updates, each is in its
-- place and, alive, due for one, and the parts of the golem are in order.
pub record Sound (w : World) (posted : List Completion) : Type 0 where
  pub queue : IsQueue w.timers
  pub once : (i : ℕ) → updates_of (of_monster i) w.timers posted ≤ 1
  pub kept : (i : ℕ) (m : Monster) → w.monsters i ≡ some m → IsKept i m w.timers posted
  pub golem : (i : ℕ) (b : Boss) → w.bosses i ≡ some b → IsIntact b

-- A step that leaves the monsters to themselves.
pub Ticks-Sound :
    (w v : World) (posted : List Completion) → Ticks w v → Sound w posted → Sound v posted
Ticks-Sound w v posted k s = record {
  queue = k.queue s.queue;
  once = λ i. subst (λ n. n ≤ 1) (sym (same i)) (s.once i);
  kept = λ i m e.
      let (n, f, id, state) = k.same i m e in
      let old = s.kept i n f in
      (id ∙ old.0, old.1, λ alive. same i ∙ old.2 (λ d. alive (state ∙ d)));
  golem = λ i b e. let (a, f, worn) = k.golem i b e in worn.2 (s.golem i a f);
}
  where
    same :
        (i : ℕ)
        → updates_of (of_monster i) v.timers posted ≡ updates_of (of_monster i) w.timers posted
    same i = ap (λ n. n + posts_of (of_monster i) posted) (k.timers i)

-- A golem that has moved on.
pub Wakes-Sound :
    (w v : World) (posted : List Completion) → Wakes w v → Sound w posted → Sound v posted
Wakes-Sound w v posted (inl k) s = Ticks-Sound w v posted k.ticks s
Wakes-Sound w v posted (inr (u, k, (e, h, f))) s =
    subst (λ x. Sound x posted) (sym f)
      (record {
        queue = push-IsQueue e u.timers moved.queue;
        golem = moved.golem;
        once = λ i. subst (λ n. n ≤ 1) (sym (same i)) (moved.once i);
        kept = λ i m g. let old = moved.kept i m g in (old.0, old.1, λ alive. same i ∙ old.2 alive);
      })
  where
    moved : Sound u posted
    moved = Ticks-Sound w u posted k.ticks s

    same :
        (i : ℕ)
        → updates_of (of_monster i) (push e u.timers) posted
          ≡ updates_of (of_monster i) u.timers posted
    same i =
        let other : one_if (of_monster i e.event_id e.obj_id) ≡ 0 = rw h refl in
        omega (arith, timers_of-push (of_monster i) e u.timers, other)

-- A round of the timer thread: a timer that has left the queue has become an event for the workers.
fire_all-monsters :
    (now : ℕ) (due : List Event) (w : World)
    → ((fire_all now due w).monsters ≡ w.monsters) × ((fire_all now due w).bosses ≡ w.bosses)
unfolding fire_all
fire_all-monsters now [] w = (refl, refl)
fire_all-monsters now (e ∷ es) w =
    let rest = fire_all-monsters now es (fire now e w) in
    let first = fire-Still now e w in (rest.0 ∙ first.0, rest.1 ∙ first.2)

-- What is due stays due, whatever of it is counted.
pub tick_updates :
    (counts : EventId → ℕ → Bool)
    → ((e : Event) → posts_of counts (posts e) ≡ one_if (counts e.event_id e.obj_id))
    → (now : ℕ) (s : System) → IsQueue s.server.world.timers
    → updates_of counts (tick now s).server.world.timers (tick now s).posted
      ≡ updates_of counts s.server.world.timers s.posted
unfolding tick
tick_updates counts h now s q =
    let d = run_due_lem now s.server.world q in
    omega (
      arith,
      ap (timers_of counts) d.split,
      timers_of-append counts d.due (tick now s).server.world.timers,
      ap (posts_of counts) d.post,
      posts_of-append counts s.posted
          (run_due (suc (length s.server.world.timers)) now s.server.world []).1,
      posts_of-posts_all counts h d.due,
    )

pub tick-Sound :
    (now : ℕ) (s : System)
    → Sound s.server.world s.posted
    → Sound (tick now s).server.world (tick now s).posted
unfolding tick
tick-Sound now s k =
    let w : World = s.server.world in
    let d = run_due_lem now w k.queue in
    let moved = λ (i : ℕ). tick_updates (of_monster i) (posts_of-posts i) now s k.queue in
    let r : World × List Completion = run_due (suc (length w.timers)) now w [] in
    record {
      queue = d.left;
      once = λ i. subst (λ n. n ≤ 1) (sym (moved i)) (k.once i);
      kept = λ i m e.
          let there : w.monsters i ≡ some m =
            sym (
              ap (λ f. f i)
                (ap (λ (u : World). u.monsters) d.fired
                  ∙ (fire_all-monsters now d.due (record w { timers = r.0.timers })).0))
            ∙ e in
          let old = k.kept i m there in (old.0, old.1, λ alive. moved i ∙ old.2 alive);
      golem = λ i b e. k.golem i b (
          sym (
            ap (λ f. f i)
              (ap (λ (u : World). u.bosses) d.fired
                ∙ (fire_all-monsters now d.due (record w { timers = r.0.timers })).1))
          ∙ e);
    }
