-- ===== src/Spatial/Deletion.antt =====
-- What `Delete` of Server/KDTree.cpp may do to a tree.
use lh_server.Prelude.{ℕ, ◌≡◌, ◌<◌, Bool, true, false, some, none, Option, ◌⊎◌}
use lh_server.Physics.{Position}
use lh_server.Spatial.{Tree, empty, node, has_two}
use lh_server.Spatial.Order.{size, IsAt}

-- A node of the tree is that of the object.
abbrev pub Holds : ℕ → Tree → Type 0
Holds idx empty = ⊥
Holds idx (node q oid left right) = (oid ≡ idx) ⊎ Holds idx left ⊎ Holds idx right

-- No place is in `v` that is not in `t`.
abbrev pub Within : Tree → Tree → Type 0
Within v t = (q : Position) → IsAt q v → IsAt q t

-- What the answer says of the tree before and after.
abbrev pub Deleted : ℕ → Bool → Tree → Tree → Type 0
Deleted idx false t v = v ≡ t
Deleted idx true t v = Holds idx t × ((v ≡ t) ⊎ (size v < size t)) × Within v t

-- What becomes of the tree in `Delete`, which ends the process where it finds the object at the root and
-- the root has no two children.
abbrev pub Outcome : ℕ → Tree → Option (Bool × Tree) → Type 0
Outcome idx t none = Holds idx t × (has_two t ≡ false)
Outcome idx t (some (b, v)) = Deleted idx b t v
