-- ===== src/AvlTree/Contract.antt =====
-- avltree.c: what `insert` and `find` promise to their caller, read_process_stats of ptop.c.
use ptop.Prelude.{◌≡◌, refl, sym, ap, ◌∙◌, Option, none, some, Returns, IfReturns}
use ptop.Prelude.Int.{ℤ}
use ptop.AvlTree.{AvlTree, null, find, insert}
use ptop.AvlTree.Elements.{elements, add, IsOrdered, elements-insert, add-IsAscending}
use ptop.AvlTree.Balance.{IsBalanced}
use ptop.AvlTree.Insertion.{Grown, insert-Grown}
use ptop.AvlTree.Lookup.{find-elements, lookup_node-add, found_after}

-- Heights right, siblings balanced, keys in order.
pub record IsAvl (t : AvlTree) : Type 0 where
  pub balanced : IsBalanced t
  pub ordered : IsOrdered t

pub null-IsAvl : IsAvl null
null-IsAvl = record { balanced = tt; ordered = tt }

-- Into a tree with the invariant, `insert` always returns (no rotation reads through a null
-- pointer), the new tree has the invariant, and its nodes are the old ones with the key put where
-- the order wants it, unless it was there.
pub insert-refines :
    (x fd : ℤ) (t : AvlTree)
    → IsAvl t
    → (t' : AvlTree) × (insert x fd t ≡ some t') × IsAvl t' × (elements t' ≡ add x fd (elements t))
insert-refines x fd t v =
    go (insert x fd t) refl (insert-Grown x fd t v.balanced) (elements-insert x fd t v.ordered)
  where
    go :
        (m : Option AvlTree)
        → insert x fd t ≡ m
        → Returns (Grown x t) m
        → IfReturns (λ t'. elements t' ≡ add x fd (elements t)) m
        → (t' : AvlTree) × (insert x fd t ≡ some t')
          × IsAvl t'
          × (elements t' ≡ add x fd (elements t))
    go none e g s = absurd g
    go (some t') e g s = (
      t',
      e,
      record { balanced = g.0; ordered = rw s (add-IsAscending x fd (elements t) v.ordered) },
      s,
    )

-- After `insert x fd` into a tree with the invariant, `find y` returns what it returned before, but
-- for the new node when y is x and x was not there.
pub find-insert :
    (x fd y : ℤ) (t t' : AvlTree)
    → IsAvl t
    → insert x fd t ≡ some t'
    → find y t' ≡ found_after y x fd (find y t)
find-insert x fd y t t' v e =
    let (u, i, w, s) = insert-refines x fd t v in
    let same : u ≡ t' = ap (λ o. get_or_null o) (sym i ∙ e) in
    rw (← same, find-elements y u w.ordered, find-elements y t v.ordered, s)
      (lookup_node-add y x fd (elements t) v.ordered)
  where
    get_or_null : Option AvlTree → AvlTree
    get_or_null none = null
    get_or_null (some a) = a
