-- ===== src/AvlTree/Closing.antt =====
-- avltree.c: `empty` closes the descriptors of the tree.
use ptop.Prelude.{ℕ, suc, ◌+◌, ◌≡◌, refl, List, [], ◌∷◌, ◌++◌, arith, if◌then◌else◌}
use ptop.Prelude.Int.{ℤ, pos, ltb_ℤ, eqb_ℤ}
use ptop.AvlTree.{AvlNode, AvlTree, null, node, empty, close_if_open, clear_position}
use ptop.AvlTree.Elements.{elements}

-- How often a descriptor is in a list.
abbrev pub count : ℤ → List ℤ → ℕ
count fd [] = 0
count fd (d ∷ ds) = if eqb_ℤ fd d then suc (count fd ds) else count fd ds

-- How many nodes of a list hold an open descriptor `fd`.
abbrev pub holders : ℤ → List AvlNode → ℕ
holders fd [] = 0
holders fd (p ∷ ps) =
    (if ltb_ℤ (pos 0) p.fd then (if eqb_ℤ fd p.fd then 1 else 0) else 0) + holders fd ps

pub count-append : (fd : ℤ) (xs ys : List ℤ) → count fd (xs ++ ys) ≡ count fd xs + count fd ys
count-append fd [] ys = omega arith
count-append fd (d ∷ xs) ys = ground (arith, count-append fd xs ys)

pub holders-append :
    (fd : ℤ) (xs ys : List AvlNode) → holders fd (xs ++ ys) ≡ holders fd xs + holders fd ys
holders-append fd [] ys = omega arith
holders-append fd (p ∷ xs) ys = omega (arith, holders-append fd xs ys)

pub count-close_if_open :
    (fd d : ℤ)
    → count fd (close_if_open d) ≡ (if ltb_ℤ (pos 0) d then (if eqb_ℤ fd d then 1 else 0) else 0)
count-close_if_open fd d = ground arith

-- `empty` closes each open descriptor as often as nodes hold it, closes no other, and returns the
-- null tree.
pub count-empty :
    (fd : ℤ) (t : AvlTree) → (count fd (empty t).0 ≡ holders fd (elements t)) × ((empty t).1 ≡ null)
unfolding empty
count-empty fd null = (refl, refl)
count-empty fd (node l p h r) = (
  rw
      (
        count-append fd (empty l).0,
        count-append fd (empty r).0,
        count-close_if_open fd p.fd,
        holders-append fd (elements l) (p ∷ elements r),
      )
      (omega (arith, (count-empty fd l).0, (count-empty fd r).0)),
  refl,
)

-- After `clear_position` the node holds no open descriptor, and a second call closes nothing.
pub clear_position_idem :
    (p : AvlNode)
    → ((clear_position (clear_position p).1).0 ≡ [])
      × ((clear_position (clear_position p).1).1 ≡ (clear_position p).1)
unfolding clear_position
clear_position_idem p = (refl, refl)
