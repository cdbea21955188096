-- ===== src/System/Ticks.antt =====
-- What a step of the server must leave to the monsters: who they are, the states they are in, their
-- timers, and the order of the timer queue; and to the golem, whose parts only wear down.
use lh_server.Prelude.{
  false, ℕ, ◌≡◌, refl, ap, sym, subst, ◌∙◌, some, ◌==◌, ℤ, Bool-cases, inl, inr, arith,
}
use lh_server.World.{World, Monster, Boss, EventId, set_monster, set_boss}
use lh_server.Boss.Wear.{Worn, Worn-refl, Worn-trans}
use lh_server.World.Timers.{add_timer, IsQueue, push-IsQueue}
use lh_server.Start.Timers.{is_monster_event, is_boss_event}
use lh_server.System.Due.{of_monster, of_boss, timers_of, timers_of-push}

-- Every monster of `v` is one of `w`, with its id and in its state; it has as many timers as it had; a queue in
-- order is so still; and a golem of `v` is one of `w`, worn down.
pub record Ticks (w v : World) : Type 0 where
  pub same :
      (i : ℕ) (m : Monster)
      → v.monsters i ≡ some m
      → (n : Monster) × (w.monsters i ≡ some n) × (m.id ≡ n.id) × (m.state ≡ n.state)
  pub timers : (i : ℕ) → timers_of (of_monster i) v.timers ≡ timers_of (of_monster i) w.timers
  pub calls : timers_of of_boss v.timers ≡ timers_of of_boss w.timers
  pub queue : IsQueue w.timers → IsQueue v.timers
  pub golem :
      (i : ℕ) (b : Boss) → v.bosses i ≡ some b → (a : Boss) × (w.bosses i ≡ some a) × Worn a b

pub Ticks-refl : (w : World) → Ticks w w
Ticks-refl w = record {
  same = λ i m e. (m, e, refl, refl);
  timers = λ i. refl;
  calls = refl;
  queue = λ q. q;
  golem = λ i b e. (b, e, Worn-refl b);
}

pub Ticks-trans : (u w v : World) → Ticks u w → Ticks w v → Ticks u v
Ticks-trans u w v a b = record {
  same = λ i m e.
      let (n, f, id, state) = b.same i m e in
      let (l, g, id', state') = a.same i n f in (l, g, id ∙ id', state ∙ state');
  timers = λ i. b.timers i ∙ a.timers i;
  calls = b.calls ∙ a.calls;
  queue = λ q. b.queue (a.queue q);
  golem = λ i x e.
      let (y, f, worn) = b.golem i x e in
      let (z, g, worn') = a.golem i y f in (z, g, Worn-trans z y x worn' worn);
}

-- Neither the monsters nor the timers are touched.
pub Ticks-untouched :
    (w u v : World)
    → v.monsters ≡ u.monsters
    → v.timers ≡ u.timers
    → v.bosses ≡ u.bosses
    → Ticks w u
    → Ticks w v
Ticks-untouched w u v e t g k = record {
  same = λ i m f. k.same i m (rw e at f);
  timers = λ i. ap (timers_of (of_monster i)) t ∙ k.timers i;
  calls = ap (timers_of of_boss) t ∙ k.calls;
  queue = λ q. rw t (k.queue q);
  golem = λ i b f. k.golem i b (rw g at f);
}

pub add_timer-Ticks :
    (oid : ℕ) (kind : EventId) (time : ℕ) (target : ℤ) (w v : World)
    → is_monster_event kind ≡ false
    → is_boss_event kind ≡ false
    → Ticks w v
    → Ticks w (add_timer oid kind time target v)
unfolding add_timer
add_timer-Ticks oid kind time target w v h g k = record {
  same = k.same;
  timers = λ i. timers_of-push (of_monster i) _ v.timers ∙ ground (arith, h, k.timers i);
  calls = timers_of-push of_boss _ v.timers ∙ ground (arith, g, k.calls);
  queue = λ q. push-IsQueue _ v.timers (k.queue q);
  golem = k.golem;
}

-- A monster is written back with its id and its state.
pub set_monster-Ticks :
    (oid : ℕ) (m n : Monster) (w v : World)
    → v.monsters oid ≡ some m
    → n.id ≡ m.id
    → n.state ≡ m.state
    → Ticks w v
    → Ticks w (set_monster v oid n)
set_monster-Ticks oid m n w v e id state k = record {
  same = λ i x f. elim (Bool-cases (i == oid)) [
    | inl h ↦
        let (l, g, id', state') = k.same oid m e in
        let x_is_n : x ≡ n = ground (arith, f, h) in
        (
          l,
          ground (arith, h, g),
          ap (λ (r : Monster). r.id) x_is_n ∙ id ∙ id',
          ap (λ (r : Monster). r.state) x_is_n ∙ state ∙ state',
        )
    | inr h ↦ k.same i x (ground (arith, f, h))
  ];
  timers = k.timers;
  calls = k.calls;
  queue = k.queue;
  golem = k.golem;
}

-- The golem is written back, worn down at most.
pub set_boss-Ticks :
    (oid : ℕ) (b c : Boss) (w v : World)
    → v.bosses oid ≡ some b
    → Worn b c
    → Ticks w v
    → Ticks w (set_boss v oid c)
set_boss-Ticks oid b c w v e worn k = record {
  same = k.same;
  timers = k.timers;
  calls = k.calls;
  queue = k.queue;
  golem = λ i x f. elim (Bool-cases (i == oid)) [
    | inl h ↦
        let x_is_c : x ≡ c = ground (arith, f, h) in
        let (a, g, worn') = k.golem oid b e in
        (a, ground (arith, h, g), subst (Worn a) (sym x_is_c) (Worn-trans a b c worn' worn))
    | inr h ↦ k.golem i x (ground (arith, f, h))
  ];
}
