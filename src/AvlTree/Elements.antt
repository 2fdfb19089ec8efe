-- ===== src/AvlTree/Elements.antt =====
-- avltree.c against a sorted list: the nodes of a tree from left to right, what `insert` does to
-- that list, and what `find` reads in it.
use ptop.Prelude.{
  ◌≡◌, refl, sym, ◌∙◌, inl, inr, true, false, Option, none, some, List, [], ◌∷◌, ◌++◌, append_assoc,
  arith, if◌then◌else◌, ◌>>=◌, Bool-cases, IfReturns, IfReturns-bind, IfReturns-if, IfReturns-any,
}
use ptop.Prelude.Int.{ℤ, pos, ◌-ℤ◌, ◌<ℤ◌, ltb_ℤ, eqb_ℤ}
use ptop.AvlTree.{
  AvlNode, AvlTree, null, node, height, single_rotate_with_left, single_rotate_with_right,
  double_rotate_with_left, double_rotate_with_right, element_of, update_height, balance_left,
  balance_right, fresh, insert,
}

-- The nodes from left to right.
abbrev pub elements : AvlTree → List AvlNode
elements null = []
elements (node l p h r) = elements l ++ (p ∷ elements r)

-- Insertion into a list by the order of its keys; a key that is there already changes nothing.
unfoldable pub add : ℤ → ℤ → List AvlNode → List AvlNode
add x fd [] = fresh x fd ∷ []
add x fd (p ∷ ps) =
    let rest = add x fd ps in
    if ltb_ℤ x p.element
    then fresh x fd ∷ p ∷ ps
    else if ltb_ℤ p.element x
    then p ∷ rest
    else p ∷ ps

-- The first node with the key, in whatever order the nodes are.
unfoldable pub lookup_node : ℤ → List AvlNode → Option AvlNode
lookup_node x [] = none
lookup_node x (p ∷ ps) = if eqb_ℤ x p.element then some p else lookup_node x ps

abbrev pub AllBelow : ℤ → List AvlNode → Type 0
AllBelow x [] = Unit
AllBelow x (p ∷ ps) = (p.element <ℤ x) × AllBelow x ps

abbrev pub AllAbove : ℤ → List AvlNode → Type 0
AllAbove x [] = Unit
AllAbove x (p ∷ ps) = (x <ℤ p.element) × AllAbove x ps

-- Each key is smaller than all keys behind it.
abbrev pub IsAscending : List AvlNode → Type 0
IsAscending [] = Unit
IsAscending (p ∷ ps) = AllAbove p.element ps × IsAscending ps

abbrev pub IsOrdered : AvlTree → Type 0
IsOrdered t = IsAscending (elements t)

AllAbove-split :
    (x : ℤ) (xs : List AvlNode) (p : AvlNode) (ys : List AvlNode)
    → AllAbove x (xs ++ (p ∷ ys))
    → AllAbove x xs × (x <ℤ p.element) × AllAbove x ys
AllAbove-split x [] p ys h = (tt, h.0, h.1)
AllAbove-split x (q ∷ xs) p ys h = let (a, b, c) = AllAbove-split x xs p ys h.1 in ((h.0, a), b, c)

pub IsAscending-split :
    (xs : List AvlNode) (p : AvlNode) (ys : List AvlNode)
    → IsAscending (xs ++ (p ∷ ys))
    → IsAscending xs × AllBelow p.element xs × AllAbove p.element ys × IsAscending ys
IsAscending-split [] p ys h = (tt, tt, h.0, h.1)
IsAscending-split (q ∷ xs) p ys h =
    let (a, b, c, d) = IsAscending-split xs p ys h.1 in
    let (e, f, g) = AllAbove-split q.element xs p ys h.0 in ((e, a), (f, b), c, d)

add-append_before :
    (x fd : ℤ) (xs : List AvlNode) (p : AvlNode) (ys : List AvlNode)
    → ltb_ℤ x p.element ≡ true
    → add x fd (xs ++ (p ∷ ys)) ≡ add x fd xs ++ (p ∷ ys)
unfolding add
add-append_before x fd [] p ys h = rw h
add-append_before x fd (q ∷ xs) p ys h = ground (arith, add-append_before x fd xs p ys h)

add-append_after :
    (x fd : ℤ) (xs : List AvlNode) (p : AvlNode) (ys : List AvlNode)
    → AllBelow p.element xs
    → ltb_ℤ x p.element ≡ false
    → add x fd (xs ++ (p ∷ ys)) ≡ xs ++ add x fd (p ∷ ys)
unfolding add
add-append_after x fd [] p ys b h = refl
add-append_after x fd (q ∷ xs) p ys b h = ground (arith, add-append_after x fd xs p ys b.1 h)

add-cons_above :
    (x fd : ℤ) (p : AvlNode) (ys : List AvlNode)
    → ltb_ℤ p.element x ≡ true
    → add x fd (p ∷ ys) ≡ p ∷ add x fd ys
unfolding add
add-cons_above x fd p ys h = ground arith

add-cons_same :
    (x fd : ℤ) (p : AvlNode) (ys : List AvlNode)
    → ltb_ℤ x p.element ≡ false
    → ltb_ℤ p.element x ≡ false
    → add x fd (p ∷ ys) ≡ p ∷ ys
unfolding add
add-cons_same x fd p ys h k = rw h (rw k)

-- Rotations keep the nodes and their order.
abbrev HasElements : List AvlNode → Option AvlTree → Type 0
HasElements es = IfReturns (λ t. elements t ≡ es)

elements-single_left : (t : AvlTree) → HasElements (elements t) (single_rotate_with_left t)
unfolding single_rotate_with_left
elements-single_left (node (node a p1 h1 b) p2 h2 c) =
    sym (append_assoc (elements a) (p1 ∷ elements b) (p2 ∷ elements c))
elements-single_left null = tt
elements-single_left (node null p2 h2 c) = tt

elements-single_right : (t : AvlTree) → HasElements (elements t) (single_rotate_with_right t)
unfolding single_rotate_with_right
elements-single_right (node a p1 h1 (node b p2 h2 c)) =
    append_assoc (elements a) (p1 ∷ elements b) (p2 ∷ elements c)
elements-single_right null = tt
elements-single_right (node a p1 h1 null) = tt

elements-double_left : (t : AvlTree) → HasElements (elements t) (double_rotate_with_left t)
unfolding double_rotate_with_left
elements-double_left null = tt
elements-double_left (node l p h r) =
    IfReturns-bind (λ t. elements t ≡ elements l) _ (single_rotate_with_right l) _
      (elements-single_right l) λ l' e. rw (← e) (elements-single_left (node l' p h r))

elements-double_right : (t : AvlTree) → HasElements (elements t) (double_rotate_with_right t)
unfolding double_rotate_with_right
elements-double_right null = tt
elements-double_right (node l p h r) =
    IfReturns-bind (λ t. elements t ≡ elements r) _ (single_rotate_with_left r) _
      (elements-single_left r) λ r' e. rw (← e) (elements-single_right (node l p h r'))

elements-balance_left :
    (x : ℤ) (l : AvlTree) (p : AvlNode) (h : ℤ) (r : AvlTree)
    → HasElements (elements (node l p h r)) (balance_left x l p h r)
unfolding balance_left
elements-balance_left x l p h r =
    IfReturns-if _ (eqb_ℤ (height l -ℤ height r) (pos 2)) _ _
      (IfReturns-bind (λ _. Unit {0}) _ (element_of l) _ (IfReturns-any (element_of l))
        λ e _.
          IfReturns-if _ (ltb_ℤ x e) _ _ (elements-single_left (node l p h r))
            (elements-double_left (node l p h r)))
      refl

elements-balance_right :
    (x : ℤ) (l : AvlTree) (p : AvlNode) (h : ℤ) (r : AvlTree)
    → HasElements (elements (node l p h r)) (balance_right x l p h r)
unfolding balance_right
elements-balance_right x l p h r =
    IfReturns-if _ (eqb_ℤ (height r -ℤ height l) (pos 2)) _ _
      (IfReturns-bind (λ _. Unit {0}) _ (element_of r) _ (IfReturns-any (element_of r))
        λ e _.
          IfReturns-if _ (ltb_ℤ e x) _ _ (elements-single_right (node l p h r))
            (elements-double_right (node l p h r)))
      refl

elements-update_height : (t : AvlTree) → elements (update_height t) ≡ elements t
unfolding update_height
elements-update_height null = refl
elements-update_height (node l p h r) = refl

elements-insert_step :
    (x fd : ℤ) (l : AvlTree) (p : AvlNode) (h : ℤ) (r : AvlTree)
    → HasElements (add x fd (elements l)) (insert x fd l)
    → HasElements (add x fd (elements r)) (insert x fd r)
    → IsOrdered (node l p h r)
    → HasElements (add x fd (elements (node l p h r))) (
        if ltb_ℤ x p.element
        then (insert x fd l >>= λ l'. balance_left x l' p h r)
        else if ltb_ℤ p.element x
        then (insert x fd r >>= λ r'. balance_right x l p h r')
        else some (node l p h r))
elements-insert_step x fd l p h r hl hr o =
    let (_, below, _, _) = IsAscending-split (elements l) p (elements r) o in
    elim (Bool-cases (ltb_ℤ x p.element)) [
      | inl less ↦
          rw (less, add-append_before x fd (elements l) p (elements r) less)
            (IfReturns-bind (λ l'. elements l' ≡ add x fd (elements l)) _ (insert x fd l) _ hl
              λ l' e. rw (← e) (elements-balance_left x l' p h r))
      | inr ge ↦
          rw (ge, add-append_after x fd (elements l) p (elements r) below ge)
            (elim (Bool-cases (ltb_ℤ p.element x)) [
              | inl more ↦
                  rw (more, add-cons_above x fd p (elements r) more)
                    (IfReturns-bind (λ r'. elements r' ≡ add x fd (elements r)) _ (insert x fd r) _
                      hr λ r' e. rw (← e) (elements-balance_right x l p h r'))
              | inr same ↦ rw (same, add-cons_same x fd p (elements r) ge same) refl
            ])
    ]

-- Into a tree in order, `insert` puts the key where the sorted list of its nodes puts it.
pub elements-insert :
    (x fd : ℤ) (t : AvlTree)
    → IsOrdered t
    → IfReturns (λ t'. elements t' ≡ add x fd (elements t)) (insert x fd t)
unfolding insert add
elements-insert x fd null o = refl
elements-insert x fd (node l p h r) o =
    let (ol, _, _, or) = IsAscending-split (elements l) p (elements r) o in
    IfReturns-bind (λ t. elements t ≡ add x fd (elements (node l p h r))) _ _ _
      (elements-insert_step x fd l p h r (elements-insert x fd l ol) (elements-insert x fd r or) o)
      λ t e. elements-update_height t ∙ e

add-AllAbove : (x fd z : ℤ) (ps : List AvlNode) → AllAbove z ps → z <ℤ x → AllAbove z (add x fd ps)
unfolding add fresh
add-AllAbove x fd z [] h k = (k, tt)
add-AllAbove x fd z (p ∷ ps) h k = ground (arith, add-AllAbove x fd z ps)

AllAbove-trans : (x z : ℤ) (ps : List AvlNode) → AllAbove z ps → x <ℤ z → AllAbove x ps
AllAbove-trans x z [] h k = tt
AllAbove-trans x z (p ∷ ps) h k = (omega arith, AllAbove-trans x z ps h.1 k)

pub add-IsAscending : (x fd : ℤ) (ps : List AvlNode) → IsAscending ps → IsAscending (add x fd ps)
unfolding add fresh
add-IsAscending x fd [] h = (tt, tt)
add-IsAscending x fd (p ∷ ps) h = ground (
  arith,
  add-IsAscending x fd ps,
  add-AllAbove x fd p.element ps h.0,
  AllAbove-trans x p.element ps h.0,
)

-- `insert` keeps the keys in order.
pub insert-IsOrdered : (x fd : ℤ) (t : AvlTree) → IsOrdered t → IfReturns IsOrdered (insert x fd t)
insert-IsOrdered x fd t o = go (insert x fd t) (elements-insert x fd t o)
  where
    go : (m : Option AvlTree) → HasElements (add x fd (elements t)) m → IfReturns IsOrdered m
    go none e = tt
    go (some t') e = rw e (add-IsAscending x fd (elements t) o)
