-- ===== src/Monitor/Run/Ranked.antt =====
-- ptop.c and display.c: how many of the ranked processes the screen shows.
use ptop.Prelude.{
  ℕ, ◌-◌, ◌≡◌, refl, Bool, true, false, arith, length, leb, if◌then◌else◌, min, Returns,
  Returns-bind,
}
use ptop.Prelude.Int.{ℤ, pos, ◌-ℤ◌}
use ptop.Common.{u64_subcount}
use ptop.Files.{Text, Libc}
use ptop.Floats.{Floats}
use ptop.Records.{SysInfo}
use ptop.AvlTree.{AvlNode, AvlTree, node}
use ptop.AvlTree.Shape.{IsAllocated}
use ptop.Database.{Mysql}
use ptop.Display.Table.{shown_amount}
use ptop.Monitor.Ranking.{show_num}
use ptop.Monitor.Cycle.{write_process_stats}
use ptop.Monitor.Sample.{Globals, write_stat}
use ptop.Monitor.Sample.Table.{IsTable}
use ptop.Monitor.Sample.Walk.{Walked, write_stat-Walked}
use ptop.Monitor.Loop.Invariant.{pst_list-IsTable}

module _ (fl : Floats) where
  open fl use {Single, lt}

  module _ (lt_asymm : (a b : Single) → lt a b ≡ true → lt b a ≡ false) (c : Libc)
      (atof : Text → Floats.Double fl) (m : Mysql Single) (hz tlmkb : ℕ) (screen curr : Bool)
      (interval time : ℤ) where
    shown_amount-pred :
        (n : ℕ)
        → shown_amount fl c atof m interval time (pos n -ℤ pos 1)
          ≡ min n show_num - (if leb n show_num then 1 else 0)
    unfolding shown_amount ◌-ℤ◌
    shown_amount-pred n = ground arith

    -- After a sample, with both samples of every node allocated and 41 places in the table, the
    -- table is in order, and the screen is told to show all the processes that it holds but the
    -- last one: only when more than 40 were counted it shows all 40. (`<` on shares is taken to be
    -- asymmetric.)
    pub shown_amount-write_process_stats :
        (prev : SysInfo Single) (l : AvlTree) (p : AvlNode) (h : ℤ) (r : AvlTree)
        (g : Globals Single)
        → IsAllocated (node l p h r)
        → length g.pst_list ≡ 41
        → Returns
            (λ (amount, t', g').
              (table : IsTable fl g') × (shown_amount fl c atof m interval time amount
                ≡ length table.ranked - (if leb g'.idx show_num then 1 else 0)))
            (write_process_stats fl m hz tlmkb screen curr time prev (node l p h r) g)
    unfolding write_process_stats
    shown_amount-write_process_stats prev l p h r g a n =
        let itv = u64_subcount g.sys.runtime prev.runtime in
        let start : Globals Single = record g { idx = 0 } in
        Returns-bind (Walked fl lt_asymm m hz tlmkb screen curr time itv (node l p h r) start) _
          (write_stat fl m hz tlmkb screen curr time itv (node l p h r) start) _
          (write_stat-Walked fl lt_asymm m hz tlmkb screen curr time itv l p h r start a
            (pst_list-IsTable fl start g.pst_list refl refl n))
          λ s w. (w.2, rw (w.2).filled (shown_amount-pred s.1.idx))
