-- ===== src/PathFinder.antt =====
-- The search for a way: `CPathFinder` of Server/CPathFinder.cpp, and `Node` and `POS_2D` of
-- Server/node.h and node.cpp. A node's parents do not change once it is made, so that a node holds its
-- parent. The costs are whole numbers below 2 ^ 24, which a float holds exactly.
pub mod Ways
pub mod Nodes
pub mod Paths
mod Examples
use lh_server.Prelude.{
  ℕ, zero, suc, ◌+◌, ◌-◌, ◌*◌, ◌%◌, ◌^◌, Bool, true, false, List, [], ◌∷◌, ◌++◌, Option, none, some,
  ltb, leb, ◌&&◌, not, if◌then◌else◌, ℤ, pos, negsuc, ◌+ℤ◌, ◌-ℤ◌, ltb_ℤ, eqb_ℤ, pos_part, neg_part,
  length,
}

-- POS_2D: two shorts.
pub record Pos2d : Type 0 where
  pub x : ℤ
  pub y : ℤ

-- The value of an int that is put into a short.
unfoldable pub wrap16 : ℤ → ℤ
wrap16 (pos n) = let r : ℕ = n % 2 ^ 16 in if ltb r (2 ^ 15) then pos r else negsuc (2 ^ 16 - r - 1)
wrap16 (negsuc n) =
    let r : ℕ = n % 2 ^ 16 in if ltb r (2 ^ 15) then negsuc r else pos (2 ^ 16 - r - 1)

unfoldable pub add_2d : Pos2d → Pos2d → Pos2d
add_2d p a = record { x = wrap16 (p.x +ℤ a.x); y = wrap16 (p.y +ℤ a.y) }

-- Overlap_Start_End.
unfoldable pub overlap : Pos2d → Pos2d → Bool
overlap s e = if eqb_ℤ s.x e.x then eqb_ℤ s.y e.y else false

-- A node: its place, its parent, what the way to it costs, and the rest of the way by estimate.
pub data Node : Type 0 where
  root : Pos2d → ℕ → Node
  child : Pos2d → Node → ℕ → ℕ → Node

unfoldable pub position : Node → Pos2d
position (root p h) = p
position (child p parent g h) = p

unfoldable pub cost_g : Node → ℕ
cost_g (root p h) = 0
cost_g (child p parent g h) = g

abbrev cost_h : Node → ℕ
cost_h (root p h) = h
cost_h (child p parent g h) = h

unfoldable pub cost_f : Node → ℕ
unfolding cost_g
cost_f n = cost_g n + cost_h n

abbrev distance : ℤ → ℤ → ℕ
distance a b = pos_part (a -ℤ b) + neg_part (a -ℤ b)

-- `SetCostH(POS_2D)`; the two casts to an unsigned short drop what is above it.
unfoldable pub estimate : Pos2d → Pos2d → ℕ
estimate here end = (distance end.x here.x % 2 ^ 16 + distance end.y here.y % 2 ^ 16) * 10

-- direction[0] to direction[7]: X_UP, X_DOWN, Y_UP, Y_DOWN, and the diagonals.
abbrev pub directions : List (ℕ × Pos2d)
directions =
    (0, record { x = pos 1; y = pos 0 })
    ∷ (1, record { x = negsuc 0; y = pos 0 })
    ∷ (2, record { x = pos 0; y = pos 1 })
    ∷ (3, record { x = pos 0; y = negsuc 0 })
    ∷ (4, record { x = pos 1; y = pos 1 })
    ∷ (5, record { x = pos 1; y = negsuc 0 })
    ∷ (6, record { x = negsuc 0; y = pos 1 })
    ∷ (7, record { x = negsuc 0; y = negsuc 0 })
    ∷ []

-- `new Node(childPos, parent, i, end)`: a straight step costs 10, a diagonal one 14.
unfoldable pub new_child : Pos2d → Node → ℕ → Pos2d → Node
new_child place parent dir end =
    child place parent (cost_g parent + (if ltb dir 4 then 10 else 14)) (estimate place end)

-- IsOutMap, which is true within the map; SIDE_MIN and SIDE_MAX are -51000 and 102000.
unfoldable pub is_out_map : Pos2d → Bool
is_out_map p =
    if ltb_ℤ p.x (negsuc 50999)
    then false
    else if ltb_ℤ (pos 102000) p.x
    then false
    else if ltb_ℤ p.y (negsuc 50999)
    then false
    else if ltb_ℤ (pos 102000) p.y
    then false
    else true

unfoldable pub has_place : List Node → Pos2d → Bool
has_place [] p = false
has_place (n ∷ ns) p = if overlap (position n) p then true else has_place ns p

-- The list without the first node at the place of `node` that is dearer than it, if there is one.
unfoldable pub drop_dearer : Node → List Node → Option (List Node)
drop_dearer node [] = none
drop_dearer node (ol ∷ open_list) =
    let rest : Option (List Node) = drop_dearer node open_list in
    if overlap (position ol) (position node) && ltb (cost_g node) (cost_g ol)
    then some open_list
    else elim rest [ none ↦ none | some kept ↦ some (ol ∷ kept) ]

-- SetCostG(GetParent()->GetCostG() + 10).
unfoldable pub straighten : Node → Node
straighten (root p h) = root p h
straighten (child p parent g h) = child p parent (cost_g parent + 10) h

-- IsOverlap: what becomes of the open list.
unfoldable pub is_overlap : Node → List Node → List Node → List Node
is_overlap node closed_list open_list =
    if has_place closed_list (position node) then open_list else elim (drop_dearer node open_list) [
      | none ↦ open_list ++ node ∷ []
      | some kept ↦ kept ++ straighten node ∷ []
    ]

unfoldable pub is_grandparent : Node → Pos2d → Bool
is_grandparent (root p h) place = false
is_grandparent (child p parent g h) place = overlap place (position parent)

-- The loop of PathFind over the directions.
unfoldable pub expand : Node → Pos2d → List Node → List (ℕ × Pos2d) → List Node → List Node
expand parent end closed_list [] open_list = open_list
expand parent end closed_list ((i, d) ∷ ds) open_list =
    let place : Pos2d = add_2d (position parent) d in
    expand parent end closed_list ds (
      if is_out_map place
      then (if is_grandparent parent place
          then open_list
          else is_overlap (new_child place parent i end) closed_list open_list)
      else open_list)

-- The first node of least cost, and the list without it.
unfoldable pub pop_best : List Node → Option (Node × List Node)
pop_best [] = none
pop_best (n ∷ ns) = elim (pop_best ns) [
  | none ↦ some (n, [])
  | some (m, rest) ↦ if ltb (cost_f m) (cost_f n) then some (m, n ∷ rest) else some (n, ns)
]

-- How the recursion of PathFind ends: with a node, or with `front()` of an empty list.
pub data Search : Type 0 where
  found : Node → Search
  no_front : Search
  no_fuel : Search

-- MAX_LIST_LEN.
abbrev pub max_list_len : ℕ
max_list_len = 100

unfoldable pub path_find : ℕ → Node → Pos2d → List Node → List Node → Search
path_find zero parent end closed_list open_list = no_fuel
path_find (suc fuel) parent end closed_list open_list =
    if overlap (position parent) end
    then found parent
    else elim (pop_best (expand parent end closed_list directions open_list)) [
      | none ↦ no_front
      | some (solution, rest) ↦
          let next : Search = path_find fuel solution end (closed_list ++ solution ∷ []) rest in
          if ltb max_list_len (length (closed_list ++ solution ∷ [])) then found parent else next
    ]

-- The places from the root, which is left out, to the node.
unfoldable pub places : Node → List Pos2d
places (root p h) = []
places (child p parent g h) = places parent ++ p ∷ []

-- GetPath; `none` if the search ends with `front()` of an empty list. A fuel of 101 is enough.
unfoldable pub get_path : Pos2d → Pos2d → Option (List Pos2d)
get_path start end =
    if overlap start end
    then some []
    else if not (is_out_map end)
    then some []
    else (let first : Node = root start (estimate start end) in
        elim (path_find 101 first end (first ∷ []) []) [
          | found n ↦ some (places n)
          | no_front ↦ none
          | no_fuel ↦ none
        ])
