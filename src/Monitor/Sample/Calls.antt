-- ===== src/Monitor/Sample/Calls.antt =====
-- ptop.c, write_stat: the calls of the database that the walk makes close what they open.
use ptop.Prelude.{ℕ, Bool, IfReturns, IfReturns-imp}
use ptop.Prelude.Int.{ℤ}
use ptop.Floats.{Floats}
use ptop.AvlTree.{AvlNode, AvlTree}
use ptop.Database.{Mysql, insert_ps}
use ptop.Database.Session.{Session, Session-Keeps, statement-Keeps}
use ptop.Monitor.Sample.{Globals, write_stat}
use ptop.Monitor.Sample.Step.{
  NodeStep, passed, idle, active, TreeStep, leaf, branch, TreeStepped, write_stat-TreeStepped,
}

module _ (fl : Floats) where
  open fl use {Single}

  module _ (m : Mysql Single) (hz tlmkb : ℕ) (screen curr : Bool) (time : ℤ) (itv n : ℕ) where
    NodeStep-Session :
        {p p' : AvlNode} {g g' : Globals Single}
        → NodeStep fl m hz tlmkb screen curr time itv p g p' g'
        → Session n g.history
        → Session n g'.history
    unfolding insert_ps
    NodeStep-Session (passed e ep eg) o = rw eg o
    NodeStep-Session (idle s0 s1 e0 e1 a ep eg) o = rw eg o
    NodeStep-Session {g} (active s0 s1 e0 e1 a ep i) o =
        rw i.history (statement-Keeps m (Session n) _ g.history (Session-Keeps n) o)

    TreeStep-Session :
        {t t' : AvlTree} {g g' : Globals Single}
        → TreeStep fl m hz tlmkb screen curr time itv t g t' g'
        → Session n g.history
        → Session n g'.history
    TreeStep-Session leaf o = o
    TreeStep-Session (branch s sl sr) o =
        TreeStep-Session sr (TreeStep-Session sl (NodeStep-Session s o))

    pub write_stat-Session :
        (t : AvlTree) (g : Globals Single)
        → Session n g.history
        → IfReturns (λ r. Session n r.1.history) (write_stat fl m hz tlmkb screen curr time itv t g)
    write_stat-Session t g o =
        IfReturns-imp (TreeStepped fl m hz tlmkb screen curr time itv t g) _ _
          (λ r s. TreeStep-Session s o)
          (write_stat-TreeStepped fl m hz tlmkb screen curr time itv t g)
