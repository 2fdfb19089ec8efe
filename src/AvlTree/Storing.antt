-- ===== src/AvlTree/Storing.antt =====
-- avltree.c: what is found after a write through the pointer to a node.
use ptop.Prelude.{◌≡◌, some, arith, if◌then◌else◌}
use ptop.Prelude.Int.{ℤ, eqb_ℤ}
use ptop.AvlTree.{AvlNode, AvlTree, null, node, find, store_node}

-- A write into the node of a key is what `find` gives for that key, and no other is changed.
pub find-store_node :
    (x y : ℤ) (q p : AvlNode) (t : AvlTree)
    → q.element ≡ x
    → find x t ≡ some p
    → find y (store_node x q t) ≡ (if eqb_ℤ y x then some q else find y t)
unfolding find store_node
find-store_node x y q p null e f = cc
find-store_node x y q p (node l s h r) e f =
    ground (arith, e, f, find-store_node x y q p l e, find-store_node x y q p r e)
