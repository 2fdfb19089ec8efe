-- ===== src/AvlTree/Nodes.antt =====
-- avltree.c: a property that every node of a tree has, and what the operations do to it.
use mathlib.Core.Option.{some-injective}
use ptop.Prelude.{◌≡◌, refl, some, List, [], ◌∷◌, ◌++◌, Bool-cases, inl, inr}
use ptop.Prelude.Int.{ℤ, ltb_ℤ}
use ptop.AvlTree.{AvlNode, AvlTree, null, node, find, fresh, store_node}
use ptop.AvlTree.Elements.{elements, add}

abbrev pub AllNodes : (AvlNode → Type 0) → AvlTree → Type 0
AllNodes P null = Unit
AllNodes P (node l p h r) = P p × AllNodes P l × AllNodes P r

module _ (P : AvlNode → Type 0) where
  -- Each node of a list has the property.
  All : List AvlNode → Type 0
  All [] = Unit
  All (p ∷ ps) = P p × All ps

  All-append :
      (ps : List AvlNode) (p : AvlNode) (qs : List AvlNode)
      → All ps
      → P p
      → All qs
      → All (ps ++ (p ∷ qs))
  unfolding All
  All-append [] p qs a h b = (h, b)
  All-append (x ∷ ps) p qs a h b = (a.0, All-append ps p qs a.1 h b)

  All-split :
      (ps : List AvlNode) (p : AvlNode) (qs : List AvlNode)
      → All (ps ++ (p ∷ qs))
      → All ps × P p × All qs
  unfolding All
  All-split [] p qs a = (tt, a.0, a.1)
  All-split (x ∷ ps) p qs a = let (b, c, d) = All-split ps p qs a.1 in ((a.0, b), c, d)

  All-elements : (t : AvlTree) → AllNodes P t → All (elements t)
  unfolding All
  All-elements null a = tt
  All-elements (node l p h r) a =
      All-append (elements l) p (elements r) (All-elements l a.1) a.0 (All-elements r a.2)

  AllNodes-elements : (t : AvlTree) → All (elements t) → AllNodes P t
  unfolding All
  AllNodes-elements null a = tt
  AllNodes-elements (node l p h r) a =
      let (b, c, d) = All-split (elements l) p (elements r) a in
      (c, AllNodes-elements l b, AllNodes-elements r d)

  All-add : (x fd : ℤ) (ps : List AvlNode) → P (fresh x fd) → All ps → All (add x fd ps)
  unfolding All add
  All-add x fd [] n a = (n, tt)
  All-add x fd (p ∷ ps) n a = elim (Bool-cases (ltb_ℤ x p.element)) [
    | inl less ↦ rw less (n, a)
    | inr ge ↦ elim (Bool-cases (ltb_ℤ p.element x)) [
      | inl more ↦ rw (ge, more) (a.0, All-add x fd ps n a.1)
      | inr same ↦ rw (ge, same) a
    ]
  ]

  -- An insertion, if the node that it makes has the property.
  pub AllNodes-add :
      (x fd : ℤ) (t t' : AvlTree)
      → elements t' ≡ add x fd (elements t)
      → P (fresh x fd)
      → AllNodes P t
      → AllNodes P t'
  AllNodes-add x fd t t' e n a =
      AllNodes-elements t' (rw e (All-add x fd (elements t) n (All-elements t a)))

  -- A node that `find` returns has what all nodes have.
  pub find-AllNodes : (x : ℤ) (t : AvlTree) (p : AvlNode) → AllNodes P t → find x t ≡ some p → P p
  unfolding find
  find-AllNodes x null p a e = cc
  find-AllNodes x (node l q h r) p a e = elim (Bool-cases (ltb_ℤ x q.element)) [
    | inl less ↦ find-AllNodes x l p a.1 (rw (← e) (rw less refl))
    | inr ge ↦ elim (Bool-cases (ltb_ℤ q.element x)) [
      | inl more ↦ find-AllNodes x r p a.2 (rw (← e) (rw (ge, more) refl))
      | inr same ↦
          let here : some q ≡ some p = rw (← e) (rw (ge, same) refl) in
          rw (← some-injective q p here) a.0
    ]
  ]

  pub store_node-AllNodes :
      (x : ℤ) (q : AvlNode) (t : AvlTree) → P q → AllNodes P t → AllNodes P (store_node x q t)
  unfolding store_node
  store_node-AllNodes x q null s a = tt
  store_node-AllNodes x q (node l p h r) s a = elim (Bool-cases (ltb_ℤ x p.element)) [
    | inl less ↦ rw less (a.0, store_node-AllNodes x q l s a.1, a.2)
    | inr ge ↦ elim (Bool-cases (ltb_ℤ p.element x)) [
      | inl more ↦ rw (ge, more) (a.0, a.1, store_node-AllNodes x q r s a.2)
      | inr same ↦ rw (ge, same) (s, a.1, a.2)
    ]
  ]
