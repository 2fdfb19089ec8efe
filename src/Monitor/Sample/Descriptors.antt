-- ===== src/Monitor/Sample/Descriptors.antt =====
-- ptop.c, write_stat: the walk loses no descriptor and closes none twice.
use ptop.Prelude.{
  ℕ, ◌+◌, ◌≡◌, refl, Bool, true, false, List, ◌∷◌, ◌++◌, arith, if◌then◌else◌, IfReturns-imp,
  Returns, Returns-IfReturns,
}
use ptop.Prelude.Int.{ℤ, pos, ltb_ℤ, eqb_ℤ}
use ptop.Floats.{Floats}
use ptop.Records.{PidStats}
use ptop.AvlTree.{AvlNode, AvlTree, node, clear_position, close_if_open}
use ptop.AvlTree.Closing.{count, holders, count-append, count-close_if_open, holders-append}
use ptop.AvlTree.Elements.{elements}
use ptop.AvlTree.Shape.{IsAllocated}
use ptop.Database.{Mysql}
use ptop.Monitor.Sample.Step.{
  NodeStep, passed, idle, active, TreeStep, leaf, branch, TreeStepped, write_stat-TreeStepped,
}
use ptop.Monitor.Sample.Table.{IsTable}
use ptop.Monitor.Sample.Walk.{Walked, write_stat-Walked}
use ptop.Monitor.Sample.{Globals, store_sample, write_stat}

-- 1 for a node that holds the open descriptor.
abbrev pub node_holds : ℤ → AvlNode → ℕ
node_holds fd p = if ltb_ℤ (pos 0) p.fd then (if eqb_ℤ fd p.fd then 1 else 0) else 0

-- A node that is cleared has its descriptor closed.
cleared :
    (fd : ℤ) (p : AvlNode) (closed : List ℤ)
    → count fd (closed ++ (clear_position p).0) + node_holds fd (clear_position p).1
      ≡ count fd closed + node_holds fd p
unfolding clear_position
cleared fd p closed =
    ground (arith, count-append fd closed (close_if_open p.fd), count-close_if_open fd p.fd)

module _ (fl : Floats) where
  open fl use {Single, lt}

  module _ (m : Mysql Single) (hz tlmkb : ℕ) (screen curr : Bool) (time : ℤ) (itv : ℕ)
      (fd : ℤ) where
    fd-store_sample :
        (p : AvlNode) (s : PidStats)
        → (store_sample fl m hz tlmkb screen curr time itv p s).fd ≡ p.fd
    unfolding store_sample
    fd-store_sample p s = ground arith

    -- After a step on a node: the closed descriptors and the one held are those of before.
    NodeStep-balanced :
        {p p' : AvlNode} {g g' : Globals Single}
        → NodeStep fl m hz tlmkb screen curr time itv p g p' g'
        → count fd g'.closed + node_holds fd p' ≡ count fd g.closed + node_holds fd p
    NodeStep-balanced (passed e ep eg) = rw (ep, eg) refl
    NodeStep-balanced {p} {g} (idle s0 s1 e0 e1 a ep eg) = rw (ep, eg) (cleared fd p g.closed)
    NodeStep-balanced {p} (active s0 s1 e0 e1 a ep i) = rw (ep, i.closed, fd-store_sample p _) refl

    -- The same for a tree.
    abbrev pub TreeBalanced : AvlTree → Globals Single → AvlTree × Globals Single → Type 0
    TreeBalanced t g (t', g') =
        count fd g'.closed + holders fd (elements t') ≡ count fd g.closed + holders fd (elements t)

    TreeStep-TreeBalanced :
        {t t' : AvlTree} {g g' : Globals Single}
        → TreeStep fl m hz tlmkb screen curr time itv t g t' g'
        → TreeBalanced t g (t', g')
    TreeStep-TreeBalanced leaf = refl
    TreeStep-TreeBalanced (branch {l} {r} {l'} {r'} {p} {p'} s sl sr) = omega (
      arith,
      NodeStep-balanced s,
      TreeStep-TreeBalanced sl,
      TreeStep-TreeBalanced sr,
      holders-append fd (elements l) (p ∷ elements r),
      holders-append fd (elements l') (p' ∷ elements r'),
    )

    -- On a tree that is not null, with both samples of every node allocated and the table of ranked
    -- processes in order, `write_stat` returns, and loses no descriptor: as often as a descriptor
    -- was closed or held open by a node before, so often it is afterwards, taken together. (`<` on
    -- shares is taken to be asymmetric.)
    pub count-write_stat :
        (lt_asymm : (a b : Single) → lt a b ≡ true → lt b a ≡ false) (l : AvlTree) (p : AvlNode)
        (h : ℤ) (r : AvlTree) (g : Globals Single)
        → IsAllocated (node l p h r)
        → IsTable fl g
        → Returns
            (TreeBalanced (node l p h r) g)
            (write_stat fl m hz tlmkb screen curr time itv (node l p h r) g)
    count-write_stat lt_asymm l p h r g a t =
        Returns-IfReturns (Walked fl lt_asymm m hz tlmkb screen curr time itv (node l p h r) g) _ _
          (write_stat-Walked fl lt_asymm m hz tlmkb screen curr time itv l p h r g a t)
          (IfReturns-imp (TreeStepped fl m hz tlmkb screen curr time itv (node l p h r) g) _ _
            (λ s st. TreeStep-TreeBalanced st)
            (write_stat-TreeStepped fl m hz tlmkb screen curr time itv (node l p h r) g))
