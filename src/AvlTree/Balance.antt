-- ===== src/AvlTree/Balance.antt =====
-- avltree.c: the heights stay right, neighbours differ by one level at most, and no rotation
-- reads through a null pointer.
use ptop.Prelude.{
  ℕ, suc, ◌+◌, ◌≤◌, max, ◌≡◌, refl, ◌⊎◌, inl, inr, true, false, arith, ◌==◌, if◌then◌else◌,
  Bool-cases, Returns, Returns-imp,
}
use ptop.Prelude.Int.{ℤ, pos, ◌+ℤ◌, ◌-ℤ◌, ltb_ℤ, eqb_ℤ, sub_ℕ}
use ptop.AvlTree.{
  AvlNode, AvlTree, null, node, height, max_ℤ, height_above, single_rotate_with_left,
  single_rotate_with_right, double_rotate_with_left, double_rotate_with_right, update_height,
  balance_left, balance_right,
}

-- The number of levels of a tree.
abbrev pub levels : AvlTree → ℕ
levels null = 0
levels (node l p h r) = suc (max (levels l) (levels r))

-- The height fields are right, and siblings differ by one level at most.
abbrev pub IsBalanced : AvlTree → Type 0
IsBalanced null = Unit
IsBalanced (node l p h r) =
    (h ≡ pos (max (levels l) (levels r)))
    × (levels l ≤ levels r + 1)
    × (levels r ≤ levels l + 1)
    × IsBalanced l
    × IsBalanced r

pub height_lem : (t : AvlTree) → IsBalanced t → height t ≡ sub_ℕ (levels t) 1
unfolding height
height_lem null b = refl
height_lem (node l p h r) b = rw b.0 (ground arith)

height_above_lem :
    (l r : AvlTree)
    → IsBalanced l
    → IsBalanced r
    → height_above l r ≡ pos (max (levels l) (levels r))
unfolding height_above max_ℤ ◌+ℤ◌
height_above_lem l r bl br = rw (height_lem l bl, height_lem r br) (ground arith)

pub node-IsBalanced :
    (l : AvlTree) (p : AvlNode) (r : AvlTree)
    → IsBalanced l
    → IsBalanced r
    → levels l ≤ levels r + 1
    → levels r ≤ levels l + 1
    → IsBalanced (node l p (height_above l r) r)
node-IsBalanced l p r bl br h k = (height_above_lem l r bl br, h, k, bl, br)

-- The test of `insert`, on levels.
pub heavy_iff :
    (l r : AvlTree)
    → IsBalanced l
    → IsBalanced r
    → eqb_ℤ (height l -ℤ height r) (pos 2) ≡ (levels l == levels r + 2)
unfolding ◌-ℤ◌
heavy_iff l r bl br = rw (height_lem l bl, height_lem r br) (ground arith)

-- On which side of its root a grown subtree is deeper: that of the new key.
abbrev pub Leans : ℤ → AvlTree → Type 0
Leans x null = ⊥
Leans x (node a q k b) =
    ((ltb_ℤ x q.element ≡ true) × (levels a ≡ levels b + 1))
    ⊎ ((ltb_ℤ x q.element ≡ false) × (ltb_ℤ q.element x ≡ true) × (levels b ≡ levels a + 1))

-- What a rotation leaves: a balanced tree of the given number of levels.
abbrev pub Settled : ℕ → AvlTree → Type 0
Settled n t = IsBalanced t × IsBalanced (update_height t) × (levels t ≡ n)

single_left-Settled :
    (a : AvlTree) (q : AvlNode) (k : ℤ) (b : AvlTree) (p : AvlNode) (h : ℤ) (r : AvlTree)
    → IsBalanced a
    → IsBalanced b
    → IsBalanced r
    → levels a ≡ levels b + 1
    → levels b ≡ levels r
    → Returns (Settled (levels r + 2)) (single_rotate_with_left (node (node a q k b) p h r))
unfolding single_rotate_with_left update_height
single_left-Settled a q k b p h r ba bb br e f =
    let inner = node-IsBalanced b p r bb br (omega arith) (omega arith) in
    let outer =
      node-IsBalanced a q (node b p (height_above b r) r) ba inner (omega arith) (omega arith) in
    (outer, outer, omega arith)

single_right-Settled :
    (l : AvlTree) (p : AvlNode) (h : ℤ) (a : AvlTree) (q : AvlNode) (k : ℤ) (b : AvlTree)
    → IsBalanced l
    → IsBalanced a
    → IsBalanced b
    → levels b ≡ levels a + 1
    → levels a ≡ levels l
    → Returns (Settled (levels l + 2)) (single_rotate_with_right (node l p h (node a q k b)))
unfolding single_rotate_with_right update_height
single_right-Settled l p h a q k b bl ba bb e f =
    let inner = node-IsBalanced l p a bl ba (omega arith) (omega arith) in
    let outer =
      node-IsBalanced (node l p (height_above l a) a) q b inner bb (omega arith) (omega arith) in
    (outer, outer, omega arith)

double_left-Settled :
    (a : AvlTree) (q : AvlNode) (k : ℤ) (b : AvlTree) (p : AvlNode) (h : ℤ) (r : AvlTree)
    → IsBalanced a
    → IsBalanced b
    → IsBalanced r
    → levels b ≡ levels a + 1
    → levels a ≡ levels r
    → Returns (Settled (levels r + 2)) (double_rotate_with_left (node (node a q k b) p h r))
unfolding double_rotate_with_left single_rotate_with_left single_rotate_with_right update_height
double_left-Settled a q k null p h r ba bb br e f = omega arith
double_left-Settled a q k (node b s m c) p h r ba bb br e f =
    let left = node-IsBalanced a q b ba bb.3 (omega arith) (omega arith) in
    let right = node-IsBalanced c p r bb.4 br (omega arith) (omega arith) in
    let top =
      node-IsBalanced (node a q (height_above a b) b) s (node c p (height_above c r) r) left right
        (omega arith) (omega arith) in
    (top, top, omega arith)

double_right-Settled :
    (l : AvlTree) (p : AvlNode) (h : ℤ) (a : AvlTree) (q : AvlNode) (k : ℤ) (b : AvlTree)
    → IsBalanced l
    → IsBalanced a
    → IsBalanced b
    → levels a ≡ levels b + 1
    → levels b ≡ levels l
    → Returns (Settled (levels l + 2)) (double_rotate_with_right (node l p h (node a q k b)))
unfolding double_rotate_with_right single_rotate_with_left single_rotate_with_right update_height
double_right-Settled l p h null q k b bl ba bb e f = omega arith
double_right-Settled l p h (node a s m c) q k b bl ba bb e f =
    let left = node-IsBalanced l p a bl ba.3 (omega arith) (omega arith) in
    let right = node-IsBalanced c q b ba.4 bb (omega arith) (omega arith) in
    let top =
      node-IsBalanced (node l p (height_above l a) a) s (node c q (height_above c b) b) left right
        (omega arith) (omega arith) in
    (top, top, omega arith)

-- The tree after the rotation that `insert` chooses, or the tree itself if it needs none.
abbrev pub Rebalanced : AvlTree → AvlTree → AvlTree → AvlTree → Type 0
Rebalanced deep low t t' =
    ((levels deep ≡ levels low + 2) × Settled (levels low + 2) t')
    ⊎ ((levels deep ≤ levels low + 1) × (t' ≡ t))

heavy_left-Settled :
    (x : ℤ) (a : AvlTree) (q : AvlNode) (k : ℤ) (b : AvlTree) (p : AvlNode) (h : ℤ) (r : AvlTree)
    → IsBalanced (node a q k b)
    → IsBalanced r
    → levels (node a q k b) ≡ levels r + 2
    → Leans x (node a q k b)
    → Returns (Settled (levels r + 2)) (
        if ltb_ℤ x q.element
        then single_rotate_with_left (node (node a q k b) p h r)
        else double_rotate_with_left (node (node a q k b) p h r))
heavy_left-Settled x a q k b p h r bl br e (inl (less, d)) =
    rw less (single_left-Settled a q k b p h r bl.3 bl.4 br d (omega arith))
heavy_left-Settled x a q k b p h r bl br e (inr (ge, more, d)) =
    rw ge (double_left-Settled a q k b p h r bl.3 bl.4 br d (omega arith))

heavy_right-Settled :
    (x : ℤ) (l : AvlTree) (p : AvlNode) (h : ℤ) (a : AvlTree) (q : AvlNode) (k : ℤ) (b : AvlTree)
    → IsBalanced l
    → IsBalanced (node a q k b)
    → levels (node a q k b) ≡ levels l + 2
    → Leans x (node a q k b)
    → Returns (Settled (levels l + 2)) (
        if ltb_ℤ q.element x
        then single_rotate_with_right (node l p h (node a q k b))
        else double_rotate_with_right (node l p h (node a q k b)))
heavy_right-Settled x l p h a q k b bl br e (inl (less, d)) =
    let not_more : ltb_ℤ q.element x ≡ false = ground arith in
    rw not_more (double_right-Settled l p h a q k b bl br.3 br.4 d (omega arith))
heavy_right-Settled x l p h a q k b bl br e (inr (ge, more, d)) =
    rw more (single_right-Settled l p h a q k b bl br.3 br.4 d (omega arith))

pub balance_left-Rebalanced :
    (x : ℤ) (l : AvlTree) (p : AvlNode) (h : ℤ) (r : AvlTree)
    → IsBalanced l
    → IsBalanced r
    → levels l ≤ levels r + 2
    → (levels l ≡ levels r + 2 → Leans x l)
    → Returns (Rebalanced l r (node l p h r)) (balance_left x l p h r)
unfolding balance_left
balance_left-Rebalanced x null p h r bl br le lean =
    let light : (0 == levels r + 2) ≡ false = ground arith in
    rw (heavy_iff null r bl br, light) (inr (omega arith, refl))
balance_left-Rebalanced x (node a q k b) p h r bl br le lean =
    elim (Bool-cases (levels (node a q k b) == levels r + 2)) [
      | inl heavy ↦
          let e : levels (node a q k b) ≡ levels r + 2 = ground arith in
          rw (heavy_iff (node a q k b) r bl br, heavy)
            (Returns-imp (Settled (levels r + 2)) _ _ (λ t s. inl (e, s))
              (heavy_left-Settled x a q k b p h r bl br e (lean e)))
      | inr light ↦ rw (heavy_iff (node a q k b) r bl br, light) (inr (ground arith, refl))
    ]

pub balance_right-Rebalanced :
    (x : ℤ) (l : AvlTree) (p : AvlNode) (h : ℤ) (r : AvlTree)
    → IsBalanced l
    → IsBalanced r
    → levels r ≤ levels l + 2
    → (levels r ≡ levels l + 2 → Leans x r)
    → Returns (Rebalanced r l (node l p h r)) (balance_right x l p h r)
unfolding balance_right
balance_right-Rebalanced x l p h null bl br le lean =
    let light : (0 == levels l + 2) ≡ false = ground arith in
    rw (heavy_iff null l br bl, light) (inr (omega arith, refl))
balance_right-Rebalanced x l p h (node a q k b) bl br le lean =
    elim (Bool-cases (levels (node a q k b) == levels l + 2)) [
      | inl heavy ↦
          let e : levels (node a q k b) ≡ levels l + 2 = ground arith in
          rw (heavy_iff (node a q k b) l br bl, heavy)
            (Returns-imp (Settled (levels l + 2)) _ _ (λ t s. inl (e, s))
              (heavy_right-Settled x l p h a q k b bl br e (lean e)))
      | inr light ↦ rw (heavy_iff (node a q k b) l br bl, light) (inr (ground arith, refl))
    ]
