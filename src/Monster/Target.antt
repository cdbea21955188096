-- ===== src/Monster/Target.antt =====
-- The choice of a target: UpdateTarget takes the nearest living player.
use lh_server.Prelude.{ℕ, ◌≡◌, true, List, [], ◌∷◌, Option, ℤ, pos, ◌≤ℤ◌, ◌⊎◌}
use lh_server.World.{World, Player, Monster}
use lh_server.Monster.{dir_at, living}

-- `i` is one of the ids.
abbrev pub IsOneOf : ℕ → List ℕ → Type 0
IsOneOf i [] = ⊥
IsOneOf i (j ∷ js) = (i ≡ j) ⊎ IsOneOf i js

-- The way of the choice: it never moves further off, and it leaves no living player nearer.
pub record Nearest (players : ℕ → Option Player) (dirs : List ℤ) (from : ℤ) (ids : List ℕ) (t : ℤ)
    : Type 0 where
  pub closer : dir_at dirs t ≤ℤ dir_at dirs from
  pub best :
      (i : ℕ)
      → IsOneOf i ids
      → living players i ≡ true
      → pos 0 ≤ℤ dir_at dirs (pos i)
      → dir_at dirs t ≤ℤ dir_at dirs (pos i)
  pub chosen : (t ≡ from) ⊎ ((i : ℕ) × (t ≡ pos i) × IsOneOf i ids × (living players i ≡ true))
