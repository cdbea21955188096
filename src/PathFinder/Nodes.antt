-- ===== src/PathFinder/Nodes.antt =====
-- What each step of the search does to its nodes.
use lh_server.Prelude.{
  ℕ, suc, ◌≤◌, ◌≡◌, refl, subst, Bool, true, false, List, [], ◌∷◌, ◌++◌, Option, none, some, ltb,
  inl, inr, if◌then◌else◌, length, length-append, arith, Bool-cases, Option-cases,
}
use lh_server.PathFinder.{
  Pos2d, Node, root, child, add_2d, position, cost_f, directions, new_child, is_out_map, has_place,
  drop_dearer, straighten, is_overlap, is_grandparent, expand, pop_best, places,
}
use lh_server.PathFinder.Ways.{IsIn, Linked}

-- A node of the search: linked to the start, by a way of at most `k` steps.
abbrev pub Fine : Pos2d → ℕ → Node → Type 0
Fine start k n = Linked start n × (length (places n) ≤ k)

abbrev pub AllFine : Pos2d → ℕ → List Node → Type 0
AllFine start k [] = Unit {0}
AllFine start k (n ∷ ns) = Fine start k n × AllFine start k ns

AllFine-append :
    (start : Pos2d) (k : ℕ) (xs ys : List Node)
    → AllFine start k xs
    → AllFine start k ys
    → AllFine start k (xs ++ ys)
AllFine-append start k [] ys h l = l
AllFine-append start k (x ∷ xs) ys h l = (h.0, AllFine-append start k xs ys h.1 l)

pub AllFine-mono :
    (start : Pos2d) (j k : ℕ) (xs : List Node) → j ≤ k → AllFine start j xs → AllFine start k xs
AllFine-mono start j k [] h l = tt
AllFine-mono start j k (x ∷ xs) h l = ((l.0.0, omega arith), AllFine-mono start j k xs h l.1)

straighten-Fine : (start : Pos2d) (k : ℕ) (n : Node) → Fine start k n → Fine start k (straighten n)
unfolding straighten places
straighten-Fine start k (root p h) f = f
straighten-Fine start k (child p parent g h) f = f

-- What holds of the value, if there is one.
abbrev pub Holds {ℓ} : {A : Type ℓ} → (A → Type 0) → Option A → Type 0
Holds P none = Unit {0}
Holds P (some a) = P a

pub if-Holds {ℓ} :
    {A : Type ℓ} (P : A → Type 0) (b : Bool) (s t : Option A)
    → Holds P s
    → Holds P t
    → Holds P (if b then s else t)
if-Holds P true s t h k = h
if-Holds P false s t h k = k

drop_dearer-Fine :
    (start : Pos2d) (k : ℕ) (node : Node) (open_list : List Node)
    → AllFine start k open_list
    → Holds (AllFine start k) (drop_dearer node open_list)
unfolding drop_dearer
drop_dearer-Fine start k node [] a = tt
drop_dearer-Fine start k node (ol ∷ open_list) a =
    if-Holds (AllFine start k) _ (some open_list) _ a.1
      (kept_too (drop_dearer node open_list) (drop_dearer-Fine start k node open_list a.1))
  where
    kept_too :
        (r : Option (List Node))
        → Holds (AllFine start k) r
        → Holds (AllFine start k) (elim r [ none ↦ none | some kept ↦ some (ol ∷ kept) ])
    kept_too none h = tt
    kept_too (some kept) h = (a.0, h)

is_overlap-Fine :
    (start : Pos2d) (k : ℕ) (node : Node) (closed_list open_list : List Node)
    → Fine start k node
    → AllFine start k open_list
    → AllFine start k (is_overlap node closed_list open_list)
unfolding is_overlap
is_overlap-Fine start k node closed_list open_list f a =
    elim (Bool-cases (has_place closed_list (position node))) [
      | inl e ↦ rw e a
      | inr e ↦ rw e (elim (Option-cases (drop_dearer node open_list)) [
        | inl d ↦ rw d (AllFine-append start k open_list (node ∷ []) a (f, tt))
        | inr (kept, d) ↦ rw d (
            AllFine-append start k kept (straighten node ∷ [])
              (subst (Holds (AllFine start k)) d (drop_dearer-Fine start k node open_list a))
              (straighten-Fine start k node f, tt))
      ])
    ]

new_child-Fine :
    (start end : Pos2d) (k : ℕ) (parent : Node) (d : ℕ × Pos2d)
    → Fine start k parent
    → IsIn d directions
    → is_out_map (add_2d (position parent) d.1) ≡ true
    → Fine start (suc k) (new_child (add_2d (position parent) d.1) parent d.0 end)
unfolding new_child places
new_child-Fine start end k parent d f i m =
    ((f.0, (d, i, refl, m)), omega (arith, length-append (places parent) (_ ∷ [])))

pub expand-Fine :
    (start end : Pos2d) (k : ℕ) (parent : Node) (closed_list : List Node) (ds : List (ℕ × Pos2d))
    (open_list : List Node)
    → ((d : ℕ × Pos2d) → IsIn d ds → IsIn d directions)
    → Fine start k parent
    → AllFine start (suc k) open_list
    → AllFine start (suc k) (expand parent end closed_list ds open_list)
unfolding expand
expand-Fine start end k parent closed_list [] open_list all f a = a
expand-Fine start end k parent closed_list (d ∷ ds) open_list all f a =
    expand-Fine start end k parent closed_list ds _ (λ e i. all e (inr i)) f
      (elim (Bool-cases (is_out_map (add_2d (position parent) d.1))) [
        | inr e ↦ rw e a
        | inl m ↦ rw m (elim (Bool-cases (is_grandparent parent (add_2d (position parent) d.1))) [
          | inl e ↦ rw e a
          | inr e ↦ rw e (
              is_overlap-Fine start (suc k) _ closed_list open_list
                (new_child-Fine start end k parent d f (all d (inl refl)) m) a)
        ])
      ])

abbrev pub BothFine : Pos2d → ℕ → Node × List Node → Type 0
BothFine start k (m, rest) = Fine start k m × AllFine start k rest

pub pop_best-Fine :
    (start : Pos2d) (k : ℕ) (ns : List Node)
    → AllFine start k ns
    → Holds (BothFine start k) (pop_best ns)
unfolding pop_best
pop_best-Fine start k [] a = tt
pop_best-Fine start k (n ∷ ns) a = better (pop_best ns) (pop_best-Fine start k ns a.1)
  where
    better :
        (r : Option (Node × List Node))
        → Holds (BothFine start k) r
        → Holds (BothFine start k) (elim r [
          | none ↦ some (n, [])
          | some (m, rest) ↦ if ltb (cost_f m) (cost_f n) then some (m, n ∷ rest) else some (n, ns)
        ])
    better none h = (a.0, tt)
    better (some (m, rest)) h =
        if-Holds (BothFine start k) _ (some (m, n ∷ rest)) (some (n, ns)) (h.0, (a.0, h.1)) a
