-- ===== src/AvlTree/Insertion.antt =====
-- avltree.c: `insert` runs without a fault and keeps the tree balanced.
use ptop.Prelude.{
  ℕ, suc, ◌+◌, ◌≤◌, ◌≡◌, refl, ◌⊎◌, inl, inr, true, false, some, arith, if◌then◌else◌, ◌>>=◌,
  Bool-cases, Returns, Returns-bind, Returns-imp,
}
use ptop.Prelude.Int.{ℤ, ltb_ℤ}
use ptop.AvlTree.{
  AvlNode, AvlTree, null, node, update_height, balance_left, balance_right, fresh, insert,
}
use ptop.AvlTree.Balance.{
  levels, IsBalanced, Leans, Settled, Rebalanced, node-IsBalanced, balance_left-Rebalanced,
  balance_right-Rebalanced,
}

-- The new tree is balanced, and has as many levels as the old one or one more.
abbrev pub Grown : ℤ → AvlTree → AvlTree → Type 0
Grown x t t' =
    IsBalanced t'
    × ((levels t' ≡ levels t) ⊎ ((levels t' ≡ suc (levels t)) × (1 ≤ levels t → Leans x t')))

levels-update_height : (t : AvlTree) → levels (update_height t) ≡ levels t
unfolding update_height
levels-update_height null = refl
levels-update_height (node l p h r) = refl

-- From what `balance_left` and `balance_right` leave, for the subtree `deep` that grew.
Settled-Grown :
    (x : ℤ) (t old : AvlTree) (n : ℕ) → Settled n t → levels old ≡ n → Grown x old (update_height t)
Settled-Grown x t old n (_, b, e) f = (b, inl (rw levels-update_height (omega arith)))

left-Grown :
    (x : ℤ) (l : AvlTree) (p : AvlNode) (h : ℤ) (r l' : AvlTree)
    → IsBalanced (node l p h r)
    → ltb_ℤ x p.element ≡ true
    → Grown x l l'
    → Returns (λ t. Grown x (node l p h r) (update_height t)) (balance_left x l' p h r)
unfolding update_height
left-Grown x l p h r l' b less (bl', g) =
    Returns-imp (Rebalanced l' r (node l' p h r)) _ _
      (λ t. elim [
        | inl (deep, s) ↦ Settled-Grown x t (node l p h r) (levels r + 2) s (ground arith)
        | inr (le, e) ↦ rw e (node-IsBalanced l' p r bl' b.4 le (ground arith), ground arith)
      ])
      (balance_left-Rebalanced x l' p h r bl' b.4 (ground arith) (λ e. ground arith))

right-Grown :
    (x : ℤ) (l : AvlTree) (p : AvlNode) (h : ℤ) (r r' : AvlTree)
    → IsBalanced (node l p h r)
    → ltb_ℤ x p.element ≡ false
    → ltb_ℤ p.element x ≡ true
    → Grown x r r'
    → Returns (λ t. Grown x (node l p h r) (update_height t)) (balance_right x l p h r')
unfolding update_height
right-Grown x l p h r r' b ge more (br', g) =
    Returns-imp (Rebalanced r' l (node l p h r')) _ _
      (λ t. elim [
        | inl (deep, s) ↦ Settled-Grown x t (node l p h r) (levels l + 2) s (ground arith)
        | inr (le, e) ↦ rw e (node-IsBalanced l p r' b.3 br' (ground arith) le, ground arith)
      ])
      (balance_right-Rebalanced x l p h r' b.3 br' (ground arith) (λ e. ground arith))

same-Grown :
    (x : ℤ) (l : AvlTree) (p : AvlNode) (h : ℤ) (r : AvlTree)
    → IsBalanced (node l p h r)
    → Grown x (node l p h r) (update_height (node l p h r))
unfolding update_height
same-Grown x l p h r b = (node-IsBalanced l p r b.3 b.4 b.1 b.2, inl refl)

insert_step-Grown :
    (x fd : ℤ) (l : AvlTree) (p : AvlNode) (h : ℤ) (r : AvlTree)
    → IsBalanced (node l p h r)
    → Returns (Grown x l) (insert x fd l)
    → Returns (Grown x r) (insert x fd r)
    → Returns
        (λ t. Grown x (node l p h r) (update_height t))
        (if ltb_ℤ x p.element
          then (insert x fd l >>= λ l'. balance_left x l' p h r)
          else if ltb_ℤ p.element x
          then (insert x fd r >>= λ r'. balance_right x l p h r')
          else some (node l p h r))
insert_step-Grown x fd l p h r b hl hr = elim (Bool-cases (ltb_ℤ x p.element)) [
  | inl less ↦
      rw less
        (Returns-bind (Grown x l) _ (insert x fd l) _ hl λ l' g. left-Grown x l p h r l' b less g)
  | inr ge ↦ rw ge (elim (Bool-cases (ltb_ℤ p.element x)) [
    | inl more ↦ rw more (
        Returns-bind (Grown x r) _ (insert x fd r) _ hr
          λ r' g. right-Grown x l p h r r' b ge more g)
    | inr same ↦ rw same (same-Grown x l p h r b)
  ])
]

-- Into a balanced tree `insert` runs without a fault, and the result is balanced and has as many
-- levels as before or one more.
pub insert-Grown : (x fd : ℤ) (t : AvlTree) → IsBalanced t → Returns (Grown x t) (insert x fd t)
unfolding insert
insert-Grown x fd null b = (
  node-IsBalanced null (fresh x fd) null tt tt (omega arith) (omega arith),
  inr (refl, λ full. absurd (omega arith)),
)
insert-Grown x fd (node l p h r) b =
    Returns-bind (λ t. Grown x (node l p h r) (update_height t)) _ _ _
      (insert_step-Grown x fd l p h r b (insert-Grown x fd l b.3) (insert-Grown x fd r b.4))
      λ t g. g
