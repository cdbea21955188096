-- ===== src/PathFinder/Examples.antt =====
-- A way of two steps on a free map.
use lh_server.Prelude.{ℕ, ◌≡◌, ◌≢◌, refl, List, some, [], ◌∷◌, pos, length, ◌<◌, ◌+ℤ◌, ◌-ℤ◌}
use lh_server.PathFinder.{
  Pos2d, root, get_path, path_find, no_fuel, estimate, overlap, is_out_map, position, pop_best,
  expand, add_2d, wrap16, is_grandparent, is_overlap, has_place, new_child, drop_dearer, cost_f,
  cost_g, places, straighten, max_list_len,
}
use lh_server.PathFinder.Ways.{IsWay}
use lh_server.PathFinder.Paths.{get_path_lem, path_find_ends}

abbrev at : ℕ → ℕ → Pos2d
at a b = record { x = pos a; y = pos b }

abbrev steps : List Pos2d
steps = at 1 1 ∷ at 2 1 ∷ []

walk_around : get_path (at 0 0) (at 2 1) ≡ some steps
unfolding get_path overlap is_out_map path_find position pop_best expand add_2d wrap16 ◌+ℤ◌ ◌-ℤ◌
    is_grandparent is_overlap has_place new_child drop_dearer cost_f cost_g estimate places
    straighten
walk_around = refl

get_path_lem_example : IsWay (at 0 0) steps × (length steps < max_list_len)
get_path_lem_example = get_path_lem (at 0 0) (at 2 1) steps walk_around

path_find_ends_example :
    path_find 101
      (root (at 0 0) (estimate (at 0 0) (at 2 1)))
      (at 2 1)
      (root (at 0 0) (estimate (at 0 0) (at 2 1)) ∷ [])
      []
    ≢ no_fuel
path_find_ends_example = path_find_ends (at 0 0) (at 2 1)
