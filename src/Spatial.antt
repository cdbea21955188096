-- ===== src/Spatial.antt =====
-- Server/KDTree.cpp: a tree of objects by their places, split by x and by y in turn. A node's parent is
-- the node above it, so that a tree holds no such field.
pub mod Order
pub mod Deletion
mod Examples
use lh_server.Prelude.{ℕ, Bool, true, false, Option, none, some, ◌==◌, not, if◌then◌else◌}
use lh_server.Physics.{Float, Fpu, Position}

pub data Tree : Type 0 where
  empty : Tree
  node : Position → ℕ → Tree → Tree → Tree

-- The two levels, xlevel and ylevel.
pub data Level : Type 0 where
  by_x by_y : Level

unfoldable pub next_level : Level → Level
next_level by_x = by_y
next_level by_y = by_x

-- m_head->pos.x < newNode->pos.x, or the same of y: to the right.
unfoldable pub goes_right : Fpu → Level → Position → Position → Bool
goes_right f by_x here p = f.lt here.x p.x
goes_right f by_y here p = f.lt here.y p.y

-- The constructor: a root at the origin; `memory` is the oid that its node has by chance.
unfoldable pub new_tree : ℕ → Tree
new_tree memory = node (record { x = 0; y = 0; z = 0 }) memory empty empty

-- The loop of `Insert` down to the NULL pointer that the new node takes; its oid is left as it is.
unfoldable pub insert : Fpu → Level → Position → ℕ → Tree → Tree
insert f level p memory empty = node p memory empty empty
insert f level p memory (node q oid left right) =
    let to_right : Tree = insert f (next_level level) p memory right in
    let to_left : Tree = insert f (next_level level) p memory left in
    if goes_right f level q p then node q oid left to_right else node q oid to_left right

-- What becomes of the node that `Delete` has found, below its parent on the right or on the left: with
-- no child it goes; with one, its parent gets the other, which is empty, where it was the right child,
-- the left one its right; with two it stays. For one child the test is of the pointers, not of the way
-- that the search took; they say the same, since the node hangs on one side only.
unfoldable pub cut : Bool → Tree → Tree
cut on_right empty = empty
cut on_right (node q oid empty empty) = empty
cut on_right (node q oid empty (node r o a b)) = if on_right then empty else node r o a b
cut on_right (node q oid (node l o a b) empty) = if on_right then node l o a b else empty
cut on_right (node q oid (node l o a b) (node r n c d)) = node q oid (node l o a b) (node r n c d)

unfoldable pub has_oid : Tree → ℕ → Bool
has_oid empty idx = false
has_oid (node q oid left right) idx = oid == idx

unfoldable pub has_two : Tree → Bool
has_two (node q oid (node l o a b) (node r n c d)) = true
has_two _ = false

-- `Delete` below the root: whether it found the node, and the tree.
unfoldable pub delete_below : Fpu → Level → ℕ → Position → Tree → Bool × Tree
delete_below f level idx p empty = (false, empty)
delete_below f level idx p (node q oid left right) =
    let in_right : Bool × Tree = delete_below f (next_level level) idx p right in
    let in_left : Bool × Tree = delete_below f (next_level level) idx p left in
    if goes_right f level q p
    then (if has_oid right idx
        then (true, node q oid left (cut true right))
        else (in_right.0, node q oid left in_right.1))
    else (if has_oid left idx
        then (true, node q oid (cut false left) right)
        else (in_left.0, node q oid in_left.1 right))

-- `Delete`; `none` where the parent of the root, a NULL pointer, is followed.
unfoldable pub delete : Fpu → ℕ → Position → Tree → Option (Bool × Tree)
delete f idx p tree =
    if has_oid tree idx
    then (if has_two tree then some (true, tree) else none)
    else some (delete_below f by_x idx p tree)
