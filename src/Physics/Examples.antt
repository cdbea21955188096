-- ===== src/Physics/Examples.antt =====
-- A processor for tests, whose floats are whole numbers, and distances on it.
use lh_server.Prelude.{ℕ, ◌+◌, ◌*◌, ◌^◌, ◌≤◌, ◌<◌, ◌≡◌, refl, ◌⊎◌, pos, arith}
use lh_server.Physics.{int_min, get_distance}
use lh_server.Physics.Distance.{get_distance_lem}
use lh_server.Physics.Whole.{whole, at}

get_distance_lem_example :
    ((90_000 + 160_000 < 2 ^ 31)
      × ((d : ℕ) × (get_distance whole (at 300 500) (at 600 900) ≡ pos d)
          × (d * d ≤ 90_000 + 160_000)
          × (90_000 + 160_000 < (d + 1) * (d + 1))))
    ⊎ ((2 ^ 31 ≤ 90_000 + 160_000) × (get_distance whole (at 300 500) (at 600 900) ≡ int_min))
get_distance_lem_example =
    get_distance_lem whole (at 300 500) (at 600 900) 90_000 160_000 refl refl (omega arith)
      (omega arith)
