-- ===== src/Start.antt =====
-- CreateMonsters and SpawnMonster of Server/CMonster.cpp: who is there when the server starts.
pub mod Timers
use lh_server.Prelude.{ℕ, ◌+◌, List, [], ◌∷◌, ℤ, pos}
use lh_server.Physics.{Position}
use lh_server.World.{
  World, Env, Monster, Boss, ev_monster, ev_boss, boss_idx, set_monster, set_boss,
}
use lh_server.World.Timers.{add_timer}
use lh_server.Monster.{new_monster}
use lh_server.Boss.{initialize}

-- The arguments of a call of `SpawnMonster`.
pub record Spawn : Type 0 where
  pub id : ℕ
  pub place : Position
  pub type : ℤ

-- `SpawnMonster`; `memory` is what the new object stands on.
unfoldable pub spawn_monster : Env → Monster → Spawn → World → World
spawn_monster env memory s w =
    add_timer s.id ev_monster (env.now + 1000) (pos 0)
      (set_monster w s.id (new_monster s.id s.place s.type memory))

unfoldable pub spawn_all : Env → Monster → List Spawn → World → World
spawn_all env memory [] w = w
spawn_all env memory (s ∷ spawns) w = spawn_all env memory spawns (spawn_monster env memory s w)

abbrev spawn : ℕ → ℕ → ℕ → ℕ → ℕ → Spawn
spawn id x y z type = record { id = id; place = record { x = x; y = y; z = z }; type = pos type }

-- The calls, with the bits of their floats.
abbrev pub spawns : List Spawn
spawns =
    spawn 10000 0x46746000 0x479bc800 0xc3d60e9a 4
    ∷ spawn 10001 0x467cd000 0x479a9700 0xc3d60e9a 4
    ∷ spawn 10002 0x46699800 0x479d17da 0xc3d54e00 4
    ∷ spawn 10100 0x46902066 0x47b11180 0xc4098000 5
    ∷ spawn 10101 0x46843000 0x47b2a200 0xc4098000 5
    ∷ spawn 10102 0x46923433 0x47b235a6 0xc4098000 5
    ∷ spawn 10200 0x47526880 0x47762c00 0xc4912a68 6
    ∷ spawn 10201 0x475bc880 0x477aa000 0xc47554d0 6
    ∷ spawn 10400 0x46b81000 0x479fba00 0xc4190000 8
    ∷ spawn 10401 0x46b22000 0x47a25800 0xc4190000 8
    ∷ spawn 10402 0x46be3c00 0x47a11800 0xc4190000 8
    ∷ spawn 10301 0x4706e41a 0x4763e9b3 0xc460b7a5 7
    ∷ spawn 10302 0x4703994d 0x47684080 0xc456f8e7 7
    ∷ spawn 10303 0x4609b79a 0x47a81fcd 0xc34b8598 7
    ∷ spawn 10304 0x460bd6cd 0x47ad16cd 0x4344e666 7
    ∷ spawn 10305 0x461ff6cd 0x47a981da 0x436e5234 7
    ∷ spawn 10500 0x477ae3cd 0x475cb400 0xc3cf2918 10
    ∷ spawn 10501 0x478087e6 0x475d1800 0xc3932918 10
    ∷ []

unfoldable pub create_monsters : Env → Monster → Boss → World → World
create_monsters env memory boss_memory w = spawn_all env memory spawns (
    add_timer boss_idx ev_boss (env.now + 1000) (pos 0) (
      set_boss w boss_idx (
        initialize boss_idx (record { x = 0x46b38110; y = 0x470b93b0; z = 0xc469151d })
          boss_memory)))
