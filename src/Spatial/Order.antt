-- ===== src/Spatial/Order.antt =====
-- The order of the tree: what lies to the right of a node is above it at the node's level.
use lh_server.Prelude.{ℕ, ◌+◌, suc, ◌≡◌, refl, Bool, true, false, Bool-cases, inl, inr, ◌⊎◌, arith}
use lh_server.Physics.{Fpu, Position}
use lh_server.Spatial.{Tree, empty, node, Level, next_level, goes_right, insert}

-- All nodes of the tree lie on the side `b` of the place `here`.
abbrev pub Side : Fpu → Level → Position → Bool → Tree → Type 0
Side f level here b empty = Unit {0}
Side f level here b (node q oid left right) =
    (goes_right f level here q ≡ b) × Side f level here b left × Side f level here b right

abbrev pub Ordered : Fpu → Level → Tree → Type 0
Ordered f level empty = Unit {0}
Ordered f level (node q oid left right) =
    Side f level q false left
    × Side f level q true right
    × Ordered f (next_level level) left
    × Ordered f (next_level level) right

abbrev pub size : Tree → ℕ
size empty = 0
size (node q oid left right) = suc (size left + size right)

-- A node of the tree lies at the place.
abbrev pub IsAt : Position → Tree → Type 0
IsAt p empty = ⊥
IsAt p (node q oid left right) = (p ≡ q) ⊎ IsAt p left ⊎ IsAt p right

insert-Side :
    (f : Fpu) (level at_level : Level) (here p : Position) (b : Bool) (memory : ℕ) (tree : Tree)
    → goes_right f at_level here p ≡ b
    → Side f at_level here b tree
    → Side f at_level here b (insert f level p memory tree)
unfolding insert
insert-Side f level at_level here p b memory empty g s = (g, tt, tt)
insert-Side f level at_level here p b memory (node q oid left right) g s =
    elim (Bool-cases (goes_right f level q p)) [
      | inl e ↦
          rw e (s.0, s.1, insert-Side f (next_level level) at_level here p b memory right g s.2)
      | inr e ↦
          rw e (s.0, insert-Side f (next_level level) at_level here p b memory left g s.1, s.2)
    ]

-- Inserting keeps the tree in order, whatever the float comparison answers; the place is in the tree
-- afterwards, which has one node more.
pub insert_lem :
    (f : Fpu) (level : Level) (p : Position) (memory : ℕ) (tree : Tree)
    → Ordered f level tree
    → Ordered f level (insert f level p memory tree)
      × IsAt p (insert f level p memory tree)
      × (size (insert f level p memory tree) ≡ suc (size tree))
unfolding insert
insert_lem f level p memory empty o = ((tt, tt, tt, tt), inl refl, refl)
insert_lem f level p memory (node q oid left right) o = elim (Bool-cases (goes_right f level q p)) [
  | inl e ↦
      let r = insert_lem f (next_level level) p memory right o.3 in
      rw e (
        (o.0, insert-Side f (next_level level) level q p true memory right e o.1, o.2, r.0),
        inr (inr r.1),
        omega (arith, r.2),
      )
  | inr e ↦
      let r = insert_lem f (next_level level) p memory left o.2 in
      rw e (
        (insert-Side f (next_level level) level q p false memory left e o.0, o.1, r.0, o.3),
        inr (inl r.1),
        omega (arith, r.2),
      )
]
