-- ===== src/AvlTree.antt =====
-- avltree.c and avltree.h: the tree of per-process nodes, keyed by process id. A null pointer is
-- `null`; reading through one is a fault, `none`. `malloc` is taken to succeed.
pub mod Elements
pub mod Balance
pub mod Insertion
pub mod Lookup
pub mod Contract
pub mod Closing
pub mod Nodes
pub mod Shape
pub mod Storing
use ptop.Prelude.{ℕ, suc, Bool, Option, none, some, List, [], ◌∷◌, ◌++◌, ltb, if◌then◌else◌, ◌>>=◌}
use ptop.Prelude.Int.{ℤ, pos, negsuc, ◌+ℤ◌, ◌-ℤ◌, ltb_ℤ, eqb_ℤ}
use ptop.Records.{PidStats, zero_pid_stats}

-- struct AvlNode without its links; `pst_list[2]` is two fields.
pub record AvlNode : Type 0 where
  pub element : ℤ
  pub fd : ℤ
  pub pst_list0 : Option PidStats
  pub pst_list1 : Option PidStats

-- AvlTree and Position: the third field of `node` is `Height`.
pub data AvlTree : Type 0 where
  null : AvlTree
  node : AvlTree → AvlNode → ℤ → AvlTree → AvlTree

abbrev pub close_if_open : ℤ → List ℤ
close_if_open fd = if ltb_ℤ (pos 0) fd then fd ∷ [] else []

-- The descriptors that `empty` closes, in its order, and the null pointer that it returns.
unfoldable pub empty : AvlTree → List ℤ × AvlTree
empty null = ([], null)
empty (node l p h r) = ((empty l).0 ++ ((empty r).0 ++ close_if_open p.fd), null)

unfoldable pub find : ℤ → AvlTree → Option AvlNode
find x null = none
find x (node l p h r) =
    if ltb_ℤ x p.element then find x l else if ltb_ℤ p.element x then find x r else some p

-- What is written through the pointer that `find` or `insert` gave for a key.
unfoldable pub store_node : ℤ → AvlNode → AvlTree → AvlTree
store_node x q null = null
store_node x q (node l p h r) =
    if ltb_ℤ x p.element
    then node (store_node x q l) p h r
    else if ltb_ℤ p.element x
    then node l p h (store_node x q r)
    else node l q h r

unfoldable pub height : AvlTree → ℤ
height null = negsuc 0
height (node l p h r) = h

unfoldable pub max_ℤ : ℤ → ℤ → ℤ
max_ℤ lhs rhs = if ltb_ℤ rhs lhs then lhs else rhs

-- `Max(height(l), height(r)) + 1`
unfoldable pub height_above : AvlTree → AvlTree → ℤ
unfolding height max_ℤ ◌+ℤ◌
height_above l r = max_ℤ (height l) (height r) +ℤ pos 1

unfoldable pub single_rotate_with_left : AvlTree → Option AvlTree
single_rotate_with_left (node (node a p1 h1 b) p2 h2 c) =
    let k2 = node b p2 (height_above b c) c in some (node a p1 (height_above a k2) k2)
single_rotate_with_left _ = none

unfoldable pub single_rotate_with_right : AvlTree → Option AvlTree
single_rotate_with_right (node a p1 h1 (node b p2 h2 c)) =
    let k1 = node a p1 (height_above a b) b in some (node k1 p2 (height_above k1 c) c)
single_rotate_with_right _ = none

unfoldable pub double_rotate_with_left : AvlTree → Option AvlTree
double_rotate_with_left null = none
double_rotate_with_left (node l p h r) =
    single_rotate_with_right l >>= λ l'. single_rotate_with_left (node l' p h r)

unfoldable pub double_rotate_with_right : AvlTree → Option AvlTree
double_rotate_with_right null = none
double_rotate_with_right (node l p h r) =
    single_rotate_with_left r >>= λ r'. single_rotate_with_right (node l p h r')

-- `T->Element`
unfoldable pub element_of : AvlTree → Option ℤ
element_of null = none
element_of (node l p h r) = some p.element

-- The last statement of `insert`: the height of the root is computed anew.
unfoldable pub update_height : AvlTree → AvlTree
update_height null = null
update_height (node l p h r) = node l p (height_above l r) r

-- After the insertion into the left subtree, now `l`.
unfoldable pub balance_left : ℤ → AvlTree → AvlNode → ℤ → AvlTree → Option AvlTree
unfolding element_of
balance_left x l p h r =
    if eqb_ℤ (height l -ℤ height r) (pos 2)
    then (element_of l >>= λ e.
        if ltb_ℤ x e
        then single_rotate_with_left (node l p h r)
        else double_rotate_with_left (node l p h r))
    else some (node l p h r)

unfoldable pub balance_right : ℤ → AvlTree → AvlNode → ℤ → AvlTree → Option AvlTree
unfolding element_of
balance_right x l p h r =
    if eqb_ℤ (height r -ℤ height l) (pos 2)
    then (element_of r >>= λ e.
        if ltb_ℤ e x
        then single_rotate_with_right (node l p h r)
        else double_rotate_with_right (node l p h r))
    else some (node l p h r)

-- Both records zeroed by `memset`.
unfoldable pub salloc_pid : AvlNode → AvlNode
salloc_pid p = record p { pst_list0 = some zero_pid_stats; pst_list1 = some zero_pid_stats }

unfoldable pub sfree_pid : AvlNode → AvlNode
sfree_pid p = record p { pst_list0 = none; pst_list1 = none }

-- The node that `insert` makes for a new key.
unfoldable pub fresh : ℤ → ℤ → AvlNode
unfolding salloc_pid
fresh x fd = salloc_pid (record { element = x; fd = fd; pst_list0 = none; pst_list1 = none })

-- The tree that `*root` points to afterwards. `*np`, the new node, is `find x` in it.
unfoldable pub insert : ℤ → ℤ → AvlTree → Option AvlTree
unfolding update_height
insert x fd null = some (update_height (node null (fresh x fd) (pos 0) null))
insert x fd (node l p h r) =
    let left = insert x fd l >>= λ l'. balance_left x l' p h r in
    let right = insert x fd r >>= λ r'. balance_right x l p h r' in
    (if ltb_ℤ x p.element then left else if ltb_ℤ p.element x then right else some (node l p h r))
    >>= λ t. some (update_height t)

-- A method that its author left as a stub.
unfoldable pub delete : ℤ → AvlTree → AvlTree
delete x t = t

-- The descriptors closed, and the node afterwards.
unfoldable pub clear_position : AvlNode → List ℤ × AvlNode
clear_position p = (close_if_open p.fd, record p { fd = negsuc 0 })
