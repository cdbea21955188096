-- ===== src/PathFinder/Paths.antt =====
-- What the search for a way gives.
use lh_server.Prelude.{
  not, ℕ, zero, suc, ◌+◌, ◌≤◌, ◌<◌, ◌≡◌, ◌≢◌, refl, subst, Bool, true, false, List, [], ◌∷◌, ◌++◌,
  none, some, ltb, inl, inr, if◌then◌else◌, length, length-append, arith, Option-cases,
}
use lh_server.PathFinder.{
  Pos2d, Node, root, overlap, position, directions, is_out_map, expand, pop_best, Search, found,
  no_front, no_fuel, max_list_len, path_find, places, get_path, estimate,
}
use lh_server.PathFinder.Ways.{Linked, IsWay, places-IsWay}
use lh_server.PathFinder.Nodes.{
  Fine, AllFine, AllFine-mono, Holds, if-Holds, expand-Fine, BothFine, pop_best-Fine,
}

-- A search that has not run out of fuel, and whose node is linked to the start by less than 100 steps.
abbrev Good : Pos2d → Search → Type 0
Good start (found n) = Linked start n × (length (places n) < max_list_len)
Good start no_front = Unit {0}
Good start no_fuel = ⊥

if-Good :
    (start : Pos2d) (b : Bool) (s t : Search)
    → Good start s
    → (b ≡ false → Good start t)
    → Good start (if b then s else t)
if-Good start true s t g h = g
if-Good start false s t g h = h refl

path_find-Good :
    (fuel : ℕ) (start end : Pos2d) (k : ℕ) (parent : Node) (closed_list open_list : List Node)
    → length closed_list ≡ suc k
    → suc k ≤ max_list_len
    → max_list_len < fuel + suc k
    → Fine start k parent
    → AllFine start (suc k) open_list
    → Good start (path_find fuel parent end closed_list open_list)
unfolding path_find
path_find-Good zero start end k parent closed_list open_list c r enough f a = absurd (omega arith)
path_find-Good (suc fuel) start end k parent closed_list open_list c r enough f a =
    let here : Good start (found parent) = (f.0, omega arith) in
    let wider = expand-Fine start end k parent closed_list directions open_list (λ d i. i) f a in
    if-Good start (overlap (position parent) end) (found parent) _ here λ away.
      elim (Option-cases (pop_best (expand parent end closed_list directions open_list))) [
        | inl e ↦ rw e tt
        | inr ((solution, rest), e) ↦
            let best =
              subst (Holds (BothFine start (suc k))) e (pop_best-Fine start (suc k) _ wider) in
            rw e (
              if-Good start (ltb max_list_len (length (closed_list ++ solution ∷ [])))
                (found parent) _ here
                λ more.
                  path_find-Good fuel start end (suc k) solution (closed_list ++ solution ∷ []) rest
                    (omega (arith, length-append closed_list (solution ∷ [])))
                    (ground (arith, length-append closed_list (solution ∷ []))) (omega arith) best.0
                    (AllFine-mono start (suc k) (suc (suc k)) rest (omega arith) best.1))
      ]

abbrev IsShortWay : Pos2d → List Pos2d → Type 0
IsShortWay start way = IsWay start way × (length way < max_list_len)

search-Good :
    (start end : Pos2d)
    → Good start (
        path_find 101
          (root start (estimate start end))
          end
          (root start (estimate start end) ∷ [])
          [])
search-Good start end =
    path_find-Good 101 start end 0 _ _ [] refl (omega arith) (omega arith)
      (refl, unfold places in omega arith) tt

-- The recursion of PathFind ends: a fuel of 101, which is what a search starts with, is enough,
-- whatever the two places are.
pub path_find_ends :
    (start end : Pos2d)
    → path_find 101 (root start (estimate start end)) end (root start (estimate start end) ∷ []) []
      ≢ no_fuel
path_find_ends start end e = subst (Good start) e (search-Good start end)

get_path-Holds : (start end : Pos2d) → Holds (IsShortWay start) (get_path start end)
unfolding get_path
get_path-Holds start end =
    if-Holds (IsShortWay start) (overlap start end) (some []) _ (tt, omega arith)
      (if-Holds (IsShortWay start) (not (is_out_map end)) (some []) _ (tt, omega arith)
        (walk _ (search-Good start end)))
  where
    walk :
        (s : Search)
        → Good start s
        → Holds
            (IsShortWay start)
            (elim s [ found n ↦ some (places n) | no_front ↦ none | no_fuel ↦ none ])
    walk (found n) g = (places-IsWay start n g.0, g.1)
    walk no_front g = tt
    walk no_fuel g = tt

-- A way that GetPath gives leads from the start: each place is one of the eight neighbours of the one
-- before it and lies on the map, and there are less than a hundred places.
pub get_path_lem :
    (start end : Pos2d) (way : List Pos2d)
    → get_path start end ≡ some way
    → IsWay start way × (length way < max_list_len)
get_path_lem start end way e = subst (Holds (IsShortWay start)) e (get_path-Holds start end)
