-- ===== src/Terrain/Examples.antt =====
-- A file of two pixels, and a map whose pixels are all 40000.
use lh_server.Prelude.{ℕ, ◌+◌, ◌*◌, ◌%◌, ◌≡◌, true, List, [], ◌∷◌, get_or, some, arith}
use lh_server.Terrain.{normalize_map, load_map}
use lh_server.Terrain.Pixels.{normalize_map_lem, full}

abbrev file : List ℕ
file = 1 ∷ 2 ∷ 3 ∷ 4 ∷ []

normalize_map_lem_example :
    let (ok, map) = load_map (some file) (λ i. 0) (full (λ i. 0)) in
    (ok ≡ true)
    × (map.pixels 1 ≡ get_or file 2 0 + 256 * get_or file 3 0)
    × ((normalize_map map).pixels 1 ≡ (map.pixels 1 + 32257) % 65536)
normalize_map_lem_example =
    normalize_map_lem file (λ i. 0) (full (λ i. 0)) 1 (omega arith) (omega arith) (omega arith)
