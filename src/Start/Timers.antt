-- ===== src/Start/Timers.antt =====
-- Everyone who is there at the start has a timer.
use lh_server.Prelude.{
  ℕ, ◌≡◌, refl, Bool, true, false, List, [], ◌∷◌, some, ◌==◌, ◌&&◌, ◌||◌, ◌⊎◌, inl, inr, Bool-cases,
  arith,
}
use lh_server.World.{
  World, Env, Monster, Boss, Event, EventId, ev_monster, ev_boss, m_idle, b_idle, boss_idx,
}
use lh_server.World.Timers.{push, add_timer}
use lh_server.Monster.{new_monster}
use lh_server.Boss.{initialize}
use lh_server.Start.{Spawn, spawn_monster, spawn_all, spawns, create_monsters}

abbrev pub is_monster_event : EventId → Bool
is_monster_event ev_monster = true
is_monster_event _ = false

abbrev pub is_boss_event : EventId → Bool
is_boss_event ev_boss = true
is_boss_event _ = false

-- The queue holds an event of the kind for the object.
abbrev pub has_timer : (EventId → Bool) → ℕ → List Event → Bool
has_timer kind id [] = false
has_timer kind id (e ∷ es) = (kind e.event_id && e.obj_id == id) || has_timer kind id es

pub push-has_timer :
    (kind : EventId → Bool) (id : ℕ) (e : Event) (es : List Event)
    → has_timer kind id (push e es) ≡ (kind e.event_id && e.obj_id == id) || has_timer kind id es
unfolding push
push-has_timer kind id e [] = refl
push-has_timer kind id e (x ∷ xs) = ground (arith, push-has_timer kind id e xs)

-- One of the calls.
abbrev pub IsCall : Spawn → List Spawn → Type 0
IsCall s [] = ⊥
IsCall s (t ∷ ts) = (s ≡ t) ⊎ IsCall s ts

-- The monster is there, idle, under its id, and its timer is set.
abbrev pub Ticking : ℕ → World → Type 0
Ticking id w =
    (m : Monster) × (w.monsters id ≡ some m)
    × (m.id ≡ id)
    × (m.state ≡ m_idle)
    × (has_timer is_monster_event id w.timers ≡ true)

spawn_monster-Ticking :
    (env : Env) (memory : Monster) (s : Spawn) (w : World)
    → Ticking s.id (spawn_monster env memory s w)
unfolding spawn_monster add_timer new_monster
spawn_monster-Ticking env memory s w = (
  new_monster s.id s.place s.type memory,
  ground arith,
  refl,
  refl,
  rw (push-has_timer is_monster_event s.id _ w.timers) (ground arith),
)

spawn_monster-keeps :
    (env : Env) (memory : Monster) (s : Spawn) (w : World) (id : ℕ)
    → Ticking id w
    → Ticking id (spawn_monster env memory s w)
unfolding spawn_monster add_timer new_monster
spawn_monster-keeps env memory s w id (m, e, i, idle, t) = elim (Bool-cases (id == s.id)) [
  | inl same ↦ (
    new_monster s.id s.place s.type memory,
    ground (arith, same),
    ground (arith, same),
    refl,
    rw (push-has_timer is_monster_event id _ w.timers) (ground (arith, same)),
  )
  | inr other ↦ (
    m,
    ground (arith, other, e),
    i,
    idle,
    rw (push-has_timer is_monster_event id _ w.timers) (ground (arith, t)),
  )
]

spawn_all-keeps :
    (env : Env) (memory : Monster) (ts : List Spawn) (w : World) (id : ℕ)
    → Ticking id w
    → Ticking id (spawn_all env memory ts w)
unfolding spawn_all
spawn_all-keeps env memory [] w id t = t
spawn_all-keeps env memory (s ∷ ts) w id t =
    spawn_all-keeps env memory ts _ id (spawn_monster-keeps env memory s w id t)

spawn_all-Ticking :
    (env : Env) (memory : Monster) (ts : List Spawn) (w : World) (s : Spawn)
    → IsCall s ts
    → Ticking s.id (spawn_all env memory ts w)
unfolding spawn_all
spawn_all-Ticking env memory [] w s c = absurd c
spawn_all-Ticking env memory (t ∷ ts) w s (inr c) = spawn_all-Ticking env memory ts _ s c
spawn_all-Ticking env memory (t ∷ ts) w s (inl e) =
    spawn_all-keeps env memory ts _ s.id (rw e (spawn_monster-Ticking env memory t w))

-- The golem is there, with its timer.
abbrev pub BossTicking : World → Type 0
BossTicking w =
    (b : Boss) × (w.bosses boss_idx ≡ some b)
    × (b.state ≡ b_idle)
    × (has_timer is_boss_event boss_idx w.timers ≡ true)

spawn_all-BossTicking :
    (env : Env) (memory : Monster) (ts : List Spawn) (w : World)
    → BossTicking w
    → BossTicking (spawn_all env memory ts w)
unfolding spawn_all spawn_monster add_timer
spawn_all-BossTicking env memory [] w h = h
spawn_all-BossTicking env memory (s ∷ ts) w (b, e, idle, t) =
    spawn_all-BossTicking env memory ts (spawn_monster env memory s w)
      (b, e, idle, rw (push-has_timer is_boss_event boss_idx _ w.timers) (ground (arith, t)))

-- When the server starts, each monster of the spawn table is there under its id, idle, and has its timer
-- in the queue; so has the golem.
pub create_monsters_lem :
    (env : Env) (memory : Monster) (boss_memory : Boss) (w : World) (s : Spawn)
    → IsCall s spawns
    → Ticking s.id (create_monsters env memory boss_memory w)
      × BossTicking (create_monsters env memory boss_memory w)
unfolding create_monsters add_timer initialize
create_monsters_lem env memory boss_memory w s c = (
  spawn_all-Ticking env memory spawns _ s c,
  spawn_all-BossTicking env memory spawns _ (
    initialize boss_idx (record { x = 0x46b38110; y = 0x470b93b0; z = 0xc469151d }) boss_memory,
    ground arith,
    refl,
    rw (push-has_timer is_boss_event boss_idx _ w.timers) (ground arith),
  ),
)
