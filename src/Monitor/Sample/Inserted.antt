-- ===== src/Monitor/Sample/Inserted.antt =====
-- ptop.c, write_stat: the statements of the walk, whatever the database answers.
use ptop.Prelude.{ℕ, ◌≡◌, refl, Bool, true, false, List, [], ◌∷◌, ◌++◌, Returns, Returns-both}
use ptop.Prelude.Int.{ℤ}
use ptop.Floats.{Floats}
use ptop.Records.{ProcessInfo}
use ptop.AvlTree.{AvlNode, AvlTree, node}
use ptop.AvlTree.Shape.{IsAllocated, SameShape}
use ptop.Database.{History, Mysql, insert_info, insert_ps, statement}
use ptop.Monitor.Sample.{Globals, write_stat}
use ptop.Monitor.Sample.Rows.{rows_of, rows_of_pair}
use ptop.Monitor.Sample.Step.{
  NodeStep, passed, idle, active, TreeStep, leaf, branch, write_stat-TreeStepped,
}
use ptop.Monitor.Sample.Table.{IsTable}
use ptop.Monitor.Sample.Walk.{Walked, write_stat-Walked}

-- The calls that send an INSERT for each row, one after the other, each with a connection of its
-- own.
abbrev pub inserted : {F : Type 0} → Mysql F → List (ProcessInfo F) → History F → History F
inserted m [] h = h
inserted m (p ∷ ps) h = inserted m ps (statement m (insert_info p) h).1

inserted-append :
    {F : Type 0} (m : Mysql F) (ps qs : List (ProcessInfo F)) (h : History F)
    → inserted m (ps ++ qs) h ≡ inserted m qs (inserted m ps h)
inserted-append m [] qs h = refl
inserted-append m (p ∷ ps) qs h = inserted-append m ps qs (statement m (insert_info p) h).1

module _ (fl : Floats) where
  open fl use {Single, lt}

  module _ (m : Mysql Single) (hz tlmkb : ℕ) (screen curr : Bool) (time : ℤ) (itv : ℕ) where
    inserted-NodeStep :
        {p p' : AvlNode} {g g' : Globals Single}
        → NodeStep fl m hz tlmkb screen curr time itv p g p' g'
        → g'.history
          ≡ inserted m (rows_of_pair fl hz tlmkb curr time itv p.pst_list0 p.pst_list1) g.history
    unfolding insert_ps
    inserted-NodeStep (passed e ep eg) = rw (e, eg) refl
    inserted-NodeStep (idle s0 s1 e0 e1 a ep eg) = rw (e0, e1, a, eg) refl
    inserted-NodeStep (active s0 s1 e0 e1 a ep i) = rw (e0, e1, a, i.history) refl

    inserted-TreeStep :
        {t t' : AvlTree} {g g' : Globals Single}
        → TreeStep fl m hz tlmkb screen curr time itv t g t' g'
        → g'.history ≡ inserted m (rows_of fl hz tlmkb curr time itv t) g.history
    inserted-TreeStep leaf = refl
    inserted-TreeStep (branch s sl sr) =
        simp (inserted-TreeStep sr, inserted-TreeStep sl, inserted-NodeStep s, inserted-append) refl

    -- What the walk over a tree leaves.
    abbrev pub Inserted : AvlTree → Globals Single → AvlTree × Globals Single → Type 0
    Inserted t g (t', g') =
        SameShape t t'
        × IsAllocated t'
        × IsTable fl g'
        × (g'.history ≡ inserted m (rows_of fl hz tlmkb curr time itv t) g.history)

    -- On a tree that is not null, with both samples of every node allocated and the table of ranked
    -- processes in order, `write_stat` returns. The tree has the same shape, keys and heights, both
    -- samples of every node are still allocated, the table is in order, and the calls of the
    -- database are an INSERT for each process that was active, with the row computed from its two
    -- samples, a node before its left and its right subtree, and no others, whatever the database
    -- answers. (`<` on shares is taken to be asymmetric.)
    pub write_stat-Inserted :
        (lt_asymm : (a b : Single) → lt a b ≡ true → lt b a ≡ false) (l : AvlTree) (p : AvlNode)
        (h : ℤ) (r : AvlTree) (g : Globals Single)
        → IsAllocated (node l p h r)
        → IsTable fl g
        → Returns
            (Inserted (node l p h r) g)
            (write_stat fl m hz tlmkb screen curr time itv (node l p h r) g)
    write_stat-Inserted lt_asymm l p h r g a t =
        let t0 = node l p h r in
        let walk = write_stat fl m hz tlmkb screen curr time itv t0 g in
        Returns-both (Walked fl lt_asymm m hz tlmkb screen curr time itv t0 g) _ (Inserted t0 g)
          walk (λ s w st. (w.0, w.1, w.2, inserted-TreeStep st))
          (write_stat-Walked fl lt_asymm m hz tlmkb screen curr time itv l p h r g a t)
          (write_stat-TreeStepped fl m hz tlmkb screen curr time itv t0 g)
