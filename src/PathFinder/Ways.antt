-- ===== src/PathFinder/Ways.antt =====
-- Ways on the map, and the way that a node stands for.
use lh_server.Prelude.{ℕ, ◌≡◌, refl, sym, subst, true, List, [], ◌∷◌, ◌++◌, ◌⊎◌}
use lh_server.PathFinder.{
  Pos2d, Node, root, child, add_2d, position, directions, is_out_map, places,
}

-- One of the pairs of the list.
abbrev pub IsIn : (ℕ × Pos2d) → List (ℕ × Pos2d) → Type 0
IsIn d [] = ⊥
IsIn d (e ∷ es) = (d ≡ e) ⊎ IsIn d es

-- From `p` one step leads to `q`, which is on the map.
abbrev pub IsStep : Pos2d → Pos2d → Type 0
IsStep p q = (d : ℕ × Pos2d) × IsIn d directions × (q ≡ add_2d p d.1) × (is_out_map q ≡ true)

-- The node and its parents are a way from `start`.
abbrev pub Linked : Pos2d → Node → Type 0
Linked start (root p h) = p ≡ start
Linked start (child p parent g h) = Linked start parent × IsStep (position parent) p

-- A way of steps from `p`.
abbrev pub IsWay : Pos2d → List Pos2d → Type 0
IsWay p [] = Unit {0}
IsWay p (q ∷ qs) = IsStep p q × IsWay q qs

abbrev last_of : Pos2d → List Pos2d → Pos2d
last_of p [] = p
last_of p (q ∷ qs) = last_of q qs

IsWay-append :
    (p q : Pos2d) (qs : List Pos2d) → IsWay p qs → IsStep (last_of p qs) q → IsWay p (qs ++ q ∷ [])
IsWay-append p q [] h s = (s, tt)
IsWay-append p q (r ∷ rs) h s = (h.0, IsWay-append r q rs h.1 s)

last_of-append : (p q : Pos2d) (qs : List Pos2d) → last_of p (qs ++ q ∷ []) ≡ q
last_of-append p q [] = refl
last_of-append p q (r ∷ rs) = last_of-append r q rs

last_of-places : (start : Pos2d) (n : Node) → Linked start n → last_of start (places n) ≡ position n
unfolding places position
last_of-places start (root p h) l = sym l
last_of-places start (child p parent g h) l = last_of-append start p (places parent)

pub places-IsWay : (start : Pos2d) (n : Node) → Linked start n → IsWay start (places n)
unfolding places
places-IsWay start (root p h) l = tt
places-IsWay start (child p parent g h) l =
    IsWay-append start p (places parent) (places-IsWay start parent l.0)
      (subst (λ q. IsStep q p) (sym (last_of-places start parent l.0)) l.1)
