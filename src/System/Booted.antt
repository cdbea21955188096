-- ===== src/System/Booted.antt =====
-- The start of the server: each monster is due for one update.
use lh_server.Prelude.{
  ℕ, update, ◌≡◌, ◌≤◌, sym, ap, subst, ◌+◌, pos, refl, ◌∙◌, Bool, true, false, List, [], ◌∷◌,
  Option, none, some, ◌==◌, inl, inr, Bool-cases, arith,
}
use lh_server.World.{World, Env, Monster, Boss, npc_id_start, boss_idx}
use lh_server.World.Timers.{push, push-IsQueue, add_timer}
use lh_server.System.Due.{of_monster, one_if, timers_of, timers_of-push}
use lh_server.World.{Event, ev_monster, ev_boss}
use lh_server.Net.{Client}
use lh_server.Monster.{new_monster}
use lh_server.Boss.Wear.{IsIntact, initialize-IsIntact}
use lh_server.Start.{Spawn, spawn_monster, spawn_all, spawns, create_monsters}
use lh_server.System.{System, boot}
use lh_server.System.Pending.{Sound}

abbrev pub IsSound : System → Type 0
IsSound s = Sound s.server.world s.posted

-- The spawn table's ids are those of monsters, and no two are the same.
abbrev AllHigh : List Spawn → Type 0
AllHigh [] = Unit {0}
AllHigh (s ∷ ss) = (npc_id_start ≤ s.id) × AllHigh ss

abbrev AllOther : ℕ → List Spawn → Type 0
AllOther id [] = Unit {0}
AllOther id (s ∷ ss) = ((id == s.id) ≡ false) × AllOther id ss

abbrev AllApart : List Spawn → Type 0
AllApart [] = Unit {0}
AllApart (s ∷ ss) = AllOther s.id ss × AllApart ss

-- The monsters of the calls have no timer yet.
abbrev AllFresh : List Spawn → List Event → Type 0
AllFresh [] timers = Unit {0}
AllFresh (s ∷ ss) timers = (timers_of (of_monster s.id) timers ≡ 0) × AllFresh ss timers

AllFresh-push :
    (ss : List Spawn) (e : Event) (timers : List Event)
    → AllOther e.obj_id ss
    → AllFresh ss timers
    → AllFresh ss (push e timers)
AllFresh-push [] e timers o f = tt
AllFresh-push (s ∷ ss) e timers o f = (
  timers_of-push (of_monster s.id) e timers ∙ ground (arith, o.0, f.0),
  AllFresh-push ss e timers o.1 f.1,
)

spawn_monster-Sound :
    (env : Env) (memory : Monster) (s : Spawn) (w : World)
    → npc_id_start ≤ s.id
    → timers_of (of_monster s.id) w.timers ≡ 0
    → Sound w []
    → Sound (spawn_monster env memory s w) []
unfolding spawn_monster add_timer new_monster
spawn_monster-Sound env memory s w high fresh k = record {
  queue = push-IsQueue _ w.timers k.queue;
  golem = k.golem;
  once = λ i. elim (Bool-cases (s.id == i)) [
    | inl h ↦
        let same : s.id ≡ i = ground (arith, h) in
        let none_yet : timers_of (of_monster i) w.timers ≡ 0 = rw same at fresh in
        omega
          (arith, timers_of-push (of_monster i) (first env s.id) w.timers, ap one_if h, none_yet)
    | inr h ↦
        omega
          (arith, timers_of-push (of_monster i) (first env s.id) w.timers, ap one_if h, k.once i)
  ];
  kept = λ i m e. elim (Bool-cases (i == s.id)) [
    | inl h ↦
        let same : i ≡ s.id = ground (arith, h) in
        let is_new : m ≡ new_monster s.id s.place s.type memory = ground (arith, h, e) in
        let none_yet : timers_of (of_monster i) w.timers ≡ 0 = rw same fresh in
        let its : (s.id == i) ≡ true = ground (arith, h) in
        (
          ap (λ (r : Monster). r.id) is_new ∙ sym same,
          ground (arith, same, high),
          λ alive. omega (
            arith,
            timers_of-push (of_monster i) (first env s.id) w.timers,
            ap one_if its,
            none_yet,
          ),
        )
    | inr h ↦
        let old = k.kept i m (ground (arith, h, e)) in
        let others : (s.id == i) ≡ false = ground (arith, h) in
        (
          old.0,
          old.1,
          λ alive. omega (
            arith,
            timers_of-push (of_monster i) (first env s.id) w.timers,
            ap one_if others,
            old.2 alive,
          ),
        )
  ];
}
  where
    first : Env → ℕ → Event
    first env id = record {
      obj_id = id;
      event_id = ev_monster;
      wakeup_time = env.now + 1000;
      target_id = pos 0;
    }

spawn_all-Sound :
    (env : Env) (memory : Monster) (ss : List Spawn) (w : World)
    → AllHigh ss
    → AllApart ss
    → AllFresh ss w.timers
    → Sound w []
    → Sound (spawn_all env memory ss w) []
unfolding spawn_all spawn_monster add_timer
spawn_all-Sound env memory [] w h apart fresh k = k
spawn_all-Sound env memory (s ∷ ss) w h apart fresh k =
    spawn_all-Sound env memory ss (spawn_monster env memory s w) h.1 apart.1
      (AllFresh-push ss _ w.timers apart.0 fresh.1)
      (spawn_monster-Sound env memory s w h.0 fresh.0 k)

spawns-AllHigh : AllHigh spawns
spawns-AllHigh = ground arith

spawns-AllApart : AllApart spawns
spawns-AllApart = ground arith

-- The timer of the golem is not that of a monster.
golem_only : (e : Event) → e.event_id ≡ ev_boss → (i : ℕ) → timers_of (of_monster i) (push e []) ≡ 0
unfolding push
golem_only e h i = rw h refl

all_fresh :
    (ss : List Spawn) (timers : List Event)
    → ((i : ℕ) → timers_of (of_monster i) timers ≡ 0)
    → AllFresh ss timers
all_fresh [] timers h = tt
all_fresh (s ∷ ss) timers h = (h s.id, all_fresh ss timers h)

pub the_system : (s t : System) → some s ≡ some t → s ≡ t
the_system s t e = ap (λ (o : Option System). elim o [ none ↦ s | some x ↦ x ]) e

only_golem :
    (oid : ℕ) (a : Boss)
    → IsIntact a
    → (i : ℕ) (b : Boss) → update (λ j. none) oid (some a) i ≡ some b
    → IsIntact b
only_golem oid a h i b e = elim (Bool-cases (i == oid)) [
  | inl same ↦ let is_a : a ≡ b = ground (arith, same, e) in subst IsIntact is_a h
  | inr other ↦ absurd (ground (arith, other, e))
]

abbrev pub first_event : Env → Event
first_event env = record {
  obj_id = boss_idx;
  event_id = ev_boss;
  wakeup_time = env.now + 1000;
  target_id = pos 0;
}

pub boot-Sound :
    (winsock socket height_map : Bool) (env : Env) (memory : ℕ → Client) (monster_memory : Monster)
    (boss_memory : Boss) (s : System)
    → boot winsock socket height_map env memory monster_memory boss_memory ≡ some s
    → IsSound s
unfolding boot create_monsters add_timer
boot-Sound false socket height_map env memory monster_memory boss_memory s e =
    absurd (ground (arith, e))
boot-Sound true false height_map env memory monster_memory boss_memory s e =
    absurd (ground (arith, e))
boot-Sound true true false env memory monster_memory boss_memory s e = absurd (ground (arith, e))
boot-Sound true true true env memory monster_memory boss_memory s e =
    subst IsSound (the_system _ s e) (
      spawn_all-Sound env monster_memory spawns _ spawns-AllHigh spawns-AllApart
        (all_fresh spawns _ (golem_only _ refl))
        (record {
          once = λ i. omega (arith, golem_only (first_event env) refl i);
          queue = push-IsQueue _ [] tt;
          kept = λ i m f. absurd (ground (arith, f));
          golem = only_golem boss_idx _ (initialize-IsIntact boss_idx _ boss_memory);
        }))
