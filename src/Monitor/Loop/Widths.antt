-- ===== src/Monitor/Loop/Widths.antt =====
-- ptop.c, main_loop: what a cycle keeps in memory and in the database fits the types of C.
use ptop.Floats.{Floats}
use ptop.Database.Retention.{info_rows}
use ptop.Monitor.Collect.Widths.{FitsTree}
use ptop.Monitor.Sample.Widths.{FitsRows, FitsHistory}
use ptop.Monitor.Loop.{World}
use ptop.Monitor.Loop.Cycled.{Cycled}

-- The samples of the tree, the rows of process_info and the statements that were sent.
pub record FitsWorld {F : Type 0} (w : World F) : Type 0 where
  pub tree : FitsTree w.tree
  pub rows : FitsRows (info_rows w.history)
  pub statements : FitsHistory w.history
