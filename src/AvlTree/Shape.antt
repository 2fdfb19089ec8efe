-- ===== src/AvlTree/Shape.antt =====
-- avltree.c: trees that differ in what their nodes hold, and not in their keys, heights and links.
use mathlib.Core.Option.{some-injective}
use ptop.Prelude.{◌≡◌, refl, sym, ◌∙◌, some, List, [], ◌∷◌, ◌++◌, arith, Bool-cases, inl, inr}
use ptop.Prelude.Int.{ℤ, ltb_ℤ, eq_of_parts}
use ptop.Records.{PidStats}
use ptop.AvlTree.{AvlNode, AvlTree, null, node, find, fresh, store_node}
use ptop.AvlTree.Elements.{elements, AllAbove, IsAscending}
use ptop.AvlTree.Balance.{levels, IsBalanced}
use ptop.AvlTree.Contract.{IsAvl}
use ptop.AvlTree.Nodes.{AllNodes}

-- Both samples of every node are allocated.
abbrev pub HasSamples : AvlNode → Type 0
HasSamples p = (s0 : PidStats) × (s1 : PidStats) × (p.pst_list0 ≡ some s0) × (p.pst_list1 ≡ some s1)

abbrev pub IsAllocated : AvlTree → Type 0
IsAllocated = AllNodes HasSamples

-- Two trees of one shape, with the same keys and heights.
abbrev pub SameShape : AvlTree → AvlTree → Type 0
SameShape null null = Unit
SameShape null (node _ _ _ _) = ⊥
SameShape (node _ _ _ _) null = ⊥
SameShape (node l p h r) (node l' p' h' r') =
    (p.element ≡ p'.element) × (h ≡ h') × SameShape l l' × SameShape r r'

SameShape-refl : (t : AvlTree) → SameShape t t
SameShape-refl null = tt
SameShape-refl (node l p h r) = (refl, refl, SameShape-refl l, SameShape-refl r)

levels-SameShape : (t t' : AvlTree) → SameShape t t' → levels t ≡ levels t'
levels-SameShape null null s = refl
levels-SameShape null (node _ _ _ _) s = absurd s
levels-SameShape (node _ _ _ _) null s = absurd s
levels-SameShape (node l p h r) (node l' p' h' r') s =
    omega (arith, levels-SameShape l l' s.2, levels-SameShape r r' s.3)

IsBalanced-SameShape : (t t' : AvlTree) → SameShape t t' → IsBalanced t → IsBalanced t'
IsBalanced-SameShape null null s b = tt
IsBalanced-SameShape null (node _ _ _ _) s b = absurd s
IsBalanced-SameShape (node _ _ _ _) null s b = absurd s
IsBalanced-SameShape (node l p h r) (node l' p' h' r') s b =
    let el = levels-SameShape l l' s.2 in
    let er = levels-SameShape r r' s.3 in
    (
      rw (← el, ← er, ← s.1) b.0,
      omega (arith, b.1, el, er),
      omega (arith, b.2, el, er),
      IsBalanced-SameShape l l' s.2 b.3,
      IsBalanced-SameShape r r' s.3 b.4,
    )

-- Two lists of nodes with the same keys.
SameKeys : List AvlNode → List AvlNode → Type 0
SameKeys [] [] = Unit
SameKeys [] (_ ∷ _) = ⊥
SameKeys (_ ∷ _) [] = ⊥
SameKeys (p ∷ ps) (q ∷ qs) = (p.element ≡ q.element) × SameKeys ps qs

SameKeys-append :
    (ps qs : List AvlNode) (p q : AvlNode) (ps' qs' : List AvlNode)
    → SameKeys ps qs
    → p.element ≡ q.element
    → SameKeys ps' qs'
    → SameKeys (ps ++ (p ∷ ps')) (qs ++ (q ∷ qs'))
unfolding SameKeys
SameKeys-append [] [] p q ps' qs' a e b = (e, b)
SameKeys-append [] (_ ∷ _) p q ps' qs' a e b = absurd a
SameKeys-append (_ ∷ _) [] p q ps' qs' a e b = absurd a
SameKeys-append (x ∷ ps) (y ∷ qs) p q ps' qs' a e b =
    (a.0, SameKeys-append ps qs p q ps' qs' a.1 e b)

elements-SameShape : (t t' : AvlTree) → SameShape t t' → SameKeys (elements t) (elements t')
unfolding SameKeys
elements-SameShape null null s = tt
elements-SameShape null (node _ _ _ _) s = absurd s
elements-SameShape (node _ _ _ _) null s = absurd s
elements-SameShape (node l p h r) (node l' p' h' r') s =
    SameKeys-append (elements l) (elements l') p p' (elements r) (elements r')
      (elements-SameShape l l' s.2) s.0 (elements-SameShape r r' s.3)

AllAbove-SameKeys : (x : ℤ) (ps qs : List AvlNode) → SameKeys ps qs → AllAbove x ps → AllAbove x qs
unfolding SameKeys
AllAbove-SameKeys x [] [] s a = tt
AllAbove-SameKeys x [] (_ ∷ _) s a = absurd s
AllAbove-SameKeys x (_ ∷ _) [] s a = absurd s
AllAbove-SameKeys x (p ∷ ps) (q ∷ qs) s a = (rw (← s.0) a.0, AllAbove-SameKeys x ps qs s.1 a.1)

IsAscending-SameKeys : (ps qs : List AvlNode) → SameKeys ps qs → IsAscending ps → IsAscending qs
unfolding SameKeys
IsAscending-SameKeys [] [] s a = tt
IsAscending-SameKeys [] (_ ∷ _) s a = absurd s
IsAscending-SameKeys (_ ∷ _) [] s a = absurd s
IsAscending-SameKeys (p ∷ ps) (q ∷ qs) s a =
    (rw (← s.0) (AllAbove-SameKeys p.element ps qs s.1 a.0), IsAscending-SameKeys ps qs s.1 a.1)

-- The invariant speaks of the shape only.
pub IsAvl-SameShape : (t t' : AvlTree) → SameShape t t' → IsAvl t → IsAvl t'
IsAvl-SameShape t t' s v = record {
  balanced = IsBalanced-SameShape t t' s v.balanced;
  ordered = IsAscending-SameKeys (elements t) (elements t') (elements-SameShape t t' s) v.ordered;
}

-- An insertion allocates both samples of the node that it makes.
pub fresh-HasSamples : (x fd : ℤ) → HasSamples (fresh x fd)
unfolding fresh
fresh-HasSamples x fd = (_, _, refl, refl)

-- A node written back with its key keeps the shape.
pub store_node-SameShape :
    (x : ℤ) (q : AvlNode) (t : AvlTree) → q.element ≡ x → SameShape t (store_node x q t)
unfolding store_node
store_node-SameShape x q null e = tt
store_node-SameShape x q (node l p h r) e = elim (Bool-cases (ltb_ℤ x p.element)) [
  | inl less ↦ rw less (refl, refl, store_node-SameShape x q l e, SameShape-refl r)
  | inr ge ↦ elim (Bool-cases (ltb_ℤ p.element x)) [
    | inl more ↦ rw (ge, more) (refl, refl, SameShape-refl l, store_node-SameShape x q r e)
    | inr same ↦
        let key : p.element ≡ x = eq_of_parts p.element x (ground arith) in
        rw (ge, same) (key ∙ sym e, refl, SameShape-refl l, SameShape-refl r)
  ]
]

-- A node found has the key asked for.
pub find-element : (x : ℤ) (t : AvlTree) (p : AvlNode) → find x t ≡ some p → p.element ≡ x
unfolding find
find-element x null p e = cc
find-element x (node l q h r) p e = elim (Bool-cases (ltb_ℤ x q.element)) [
  | inl less ↦ find-element x l p (rw (← e) (rw less refl))
  | inr ge ↦ elim (Bool-cases (ltb_ℤ q.element x)) [
    | inl more ↦ find-element x r p (rw (← e) (rw (ge, more) refl))
    | inr same ↦
        let here : some q ≡ some p = rw (← e) (rw (ge, same) refl) in
        rw (← some-injective q p here) (eq_of_parts q.element x (ground arith))
  ]
]

-- Whether a key is in a tree.
abbrev pub IsMember : ℤ → AvlTree → Type 0
IsMember x t = (p : AvlNode) × (find x t ≡ some p)

-- Trees of one shape have the same keys.
pub IsMember-SameShape : (x : ℤ) (t t' : AvlTree) → SameShape t t' → IsMember x t → IsMember x t'
unfolding find
IsMember-SameShape x null null s m = cc
IsMember-SameShape x null (node _ _ _ _) s m = absurd s
IsMember-SameShape x (node _ _ _ _) null s m = absurd s
IsMember-SameShape x (node l p h r) (node l' p' h' r') s m =
    elim (Bool-cases (ltb_ℤ x p'.element)) [
      | inl less ↦ rw less (IsMember-SameShape x l l' s.2 (m.0, (rw (← m.1) (rw (s.0, less) refl))))
      | inr ge ↦ elim (Bool-cases (ltb_ℤ p'.element x)) [
        | inl more ↦
            rw (ge, more)
              (IsMember-SameShape x r r' s.3 (m.0, (rw (← m.1) (rw (s.0, ge, more) refl))))
        | inr same ↦ rw (ge, same) (p', refl)
      ]
    ]
