-- ===== src/AvlTree/Lookup.antt =====
-- avltree.c: `find` in a tree in order, before and after `insert`.
use ptop.Prelude.{
  ◌≡◌, refl, true, false, Option, none, some, List, [], ◌∷◌, ◌++◌, arith, if◌then◌else◌, Bool-cases,
  inl, inr,
}
use ptop.Prelude.Int.{ℤ, ltb_ℤ, eqb_ℤ}
use ptop.AvlTree.{AvlNode, AvlTree, null, node, find, fresh}
use ptop.AvlTree.Elements.{
  elements, add, lookup_node, AllBelow, AllAbove, IsAscending, IsOrdered, IsAscending-split,
}

lookup_node-below :
    (x : ℤ) (xs : List AvlNode) (p : AvlNode) (ys : List AvlNode)
    → AllAbove p.element ys
    → ltb_ℤ x p.element ≡ true
    → lookup_node x (xs ++ (p ∷ ys)) ≡ lookup_node x xs
unfolding lookup_node
lookup_node-below x [] p [] h less = ground arith
lookup_node-below x [] p (q ∷ ys) h less =
    let skip : eqb_ℤ x q.element ≡ false = ground arith in
    rw (← lookup_node-below x [] p ys h.1 less) (rw skip)
lookup_node-below x (q ∷ xs) p ys h less = rw (lookup_node-below x xs p ys h less)

lookup_node-above :
    (x : ℤ) (xs : List AvlNode) (p : AvlNode) (ys : List AvlNode)
    → AllBelow p.element xs
    → ltb_ℤ p.element x ≡ true
    → lookup_node x (xs ++ (p ∷ ys)) ≡ lookup_node x ys
unfolding lookup_node
lookup_node-above x [] p ys h more = ground arith
lookup_node-above x (q ∷ xs) p ys h more = ground (arith, lookup_node-above x xs p ys h.1 more)

lookup_node-at :
    (x : ℤ) (xs : List AvlNode) (p : AvlNode) (ys : List AvlNode)
    → AllBelow p.element xs
    → ltb_ℤ x p.element ≡ false
    → ltb_ℤ p.element x ≡ false
    → lookup_node x (xs ++ (p ∷ ys)) ≡ some p
unfolding lookup_node
lookup_node-at x [] p ys h ge le = ground arith
lookup_node-at x (q ∷ xs) p ys h ge le = ground (arith, lookup_node-at x xs p ys h.1 ge le)

-- In a tree in order, `find` returns the node with the key wherever it stands, or none if no node
-- has the key.
pub find-elements : (x : ℤ) (t : AvlTree) → IsOrdered t → find x t ≡ lookup_node x (elements t)
unfolding find
find-elements x null o = unfold lookup_node in refl
find-elements x (node l p h r) o =
    let (ol, below, above, or) = IsAscending-split (elements l) p (elements r) o in
    elim (Bool-cases (ltb_ℤ x p.element)) [
      | inl less ↦
          rw (less, lookup_node-below x (elements l) p (elements r) above less)
            (find-elements x l ol)
      | inr ge ↦ elim (Bool-cases (ltb_ℤ p.element x)) [
        | inl more ↦
            rw (ge, more, lookup_node-above x (elements l) p (elements r) below more)
              (find-elements x r or)
        | inr same ↦ rw (ge, same, lookup_node-at x (elements l) p (elements r) below ge same)
      ]
    ]

-- What `find y` returns after `insert x fd`, from what it returned before.
abbrev pub found_after : ℤ → ℤ → ℤ → Option AvlNode → Option AvlNode
found_after y x fd (some p) = some p
found_after y x fd none = if eqb_ℤ y x then some (fresh x fd) else none

AllAbove-lookup_node :
    (z x : ℤ) (ps : List AvlNode) → AllAbove z ps → ltb_ℤ x z ≡ true → lookup_node x ps ≡ none
unfolding lookup_node
AllAbove-lookup_node z x [] h k = refl
AllAbove-lookup_node z x (p ∷ ps) h k = ground (arith, AllAbove-lookup_node z x ps h.1 k)

pub lookup_node-add :
    (y x fd : ℤ) (ps : List AvlNode)
    → IsAscending ps
    → lookup_node y (add x fd ps) ≡ found_after y x fd (lookup_node y ps)
unfolding lookup_node add fresh
lookup_node-add y x fd [] h = refl
lookup_node-add y x fd (p ∷ ps) h =
    ground (arith, lookup_node-add y x fd ps h.1, AllAbove-lookup_node p.element y ps h.0)
