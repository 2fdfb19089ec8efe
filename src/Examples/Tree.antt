-- ===== src/Examples/Tree.antt =====
-- The theorems on the tree at two processes.
use ptop.Prelude.{arith, ◌≡◌, refl, some}
use ptop.Prelude.Int.{pos, negsuc}
use ptop.AvlTree.{AvlTree, null, node, find, insert}
use ptop.AvlTree.Elements.{elements, add, lookup_node}
use ptop.AvlTree.Contract.{IsAvl, insert-refines, find-insert}
use ptop.AvlTree.Lookup.{find-elements, found_after}
use ptop.Examples.{two, two-IsAvl, busy}

-- A third key, for which the tree turns.
insert-refines_example :
    (t' : AvlTree) × (insert (pos 12) (negsuc 0) two ≡ some t')
    × IsAvl t'
    × (elements t' ≡ add (pos 12) (negsuc 0) (elements two))
insert-refines_example = insert-refines (pos 12) (negsuc 0) two two-IsAvl

abbrev one : AvlTree
one = node null busy (pos 0) null

one-IsAvl : IsAvl one
one-IsAvl = record { balanced = (refl, omega arith, omega arith, tt, tt); ordered = (tt, tt) }

grown : AvlTree
grown = (insert-refines (pos 9) (negsuc 0) one one-IsAvl).0

find-insert_example : find (pos 9) grown ≡ found_after (pos 9) (pos 9) (negsuc 0) (find (pos 9) one)
unfolding grown
find-insert_example =
    find-insert (pos 9) (negsuc 0) (pos 9) one grown one-IsAvl
      (insert-refines (pos 9) (negsuc 0) one one-IsAvl).1

find-elements_example : find (pos 9) two ≡ lookup_node (pos 9) (elements two)
find-elements_example = find-elements (pos 9) two two-IsAvl.ordered
