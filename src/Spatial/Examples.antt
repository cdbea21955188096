-- ===== src/Spatial/Examples.antt =====
-- A tree that holds the origin, and a second place.
use lh_server.Prelude.{suc, ◌≡◌, refl, true, some}
use lh_server.Physics.Whole.{whole, at}
use lh_server.Spatial.{
  Tree, node, empty, by_x, insert, delete, has_oid, delete_below, goes_right, cut,
}
use lh_server.Spatial.Order.{Ordered, IsAt, size, insert_lem}

abbrev one : Tree
one = node (at 0 0) 7 empty empty

insert_lem_example :
    Ordered whole by_x (insert whole by_x (at 3 1) 0 one)
    × IsAt (at 3 1) (insert whole by_x (at 3 1) 0 one)
    × (size (insert whole by_x (at 3 1) 0 one) ≡ suc (size one))
insert_lem_example = insert_lem whole by_x (at 3 1) 0 one (tt, tt, tt, tt)

abbrev two : Tree
two = node (at 0 0) 7 empty (node (at 3 1) 8 empty empty)

leaf_deleted : delete whole 8 (at 3 1) two ≡ some (true, one)
unfolding delete has_oid delete_below goes_right cut
leaf_deleted = refl

-- The node below the deleted one goes with it.
child_lost :
    delete whole 8
      (at 3 1)
      (node (at 0 0) 7 empty (node (at 3 1) 8 empty (node (at 4 5) 9 empty empty)))
    ≡ some (true, one)
unfolding delete has_oid delete_below goes_right cut
child_lost = refl
