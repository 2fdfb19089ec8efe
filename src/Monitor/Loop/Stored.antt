-- ===== src/Monitor/Loop/Stored.antt =====
-- ptop.c, main_loop: the rows that a cycle adds to the table of processes.
use ptop.Prelude.{ℕ, ◌≡◌, refl, ◌∙◌, ap, Bool, true, false, not, some, ◌++◌, Returns, Returns-imp}
use ptop.Common.{u64_subcount}
use ptop.Files.{Libc, OnRun}
use ptop.Floats.{Floats}
use ptop.AvlTree.{AvlTree, find}
use ptop.AvlTree.Contract.{IsAvl}
use ptop.Monitor.Collect.Pass.{read_process_stats-Kept}
use ptop.Database.{Mysql, History, insert_sys_info, insert_sys}
use ptop.Database.Retention.{Accepts, info_rows, info_rows-unrelated}
use ptop.MStats.{StatSmaps}
use ptop.Perf.{Kernel}
use ptop.Records.{SysInfo}
use ptop.Monitor.Collect.{read_process_stats}
use ptop.Monitor.Collect.Nodes.{OnRun-imp, both_return}
use ptop.Monitor.Collect.Slots.{Resampled}
use ptop.Monitor.Collect.Slots.Listing.{read_process_stats-Resampled}
use ptop.Monitor.Sample.Rows.{rows_of, rows-TreeStep}
use ptop.Monitor.Cycle.Steps.{FitsNames}
use ptop.Monitor.Loop.{World, Readings, sample_cycle, zero_sys_info}
use ptop.Monitor.Loop.Invariant.{IsGood, any_process}
use ptop.Monitor.Loop.Cycled.{Cycled, sys_of, Returns→IfReturns, sample_cycle-Cycled}

module _ (fl : Floats) where
  open fl use {Single, lt}

  module _ (c : Libc) (k : Kernel) (m : Mysql Single) (scanned : StatSmaps) (garbage page_shift : ℕ)
      (cpufreq : Bool) (hz tlmkb : ℕ) (screen curr : Bool) where
    -- The rows that a cycle adds are those of a tree t that the pass over /proc leaves.
    pub record Stores (r : Readings) (w w' : World Single) : Type 0 where
      pub t : AvlTree
      pub avl : IsAvl t
      pub collected :
          Resampled c k scanned garbage page_shift curr r.entries
            (λ y. find y w.tree)
            (λ y. find y t)
      pub rows :
          info_rows w'.history
          ≡ info_rows w.history
            ++ rows_of fl hz tlmkb curr r.ctime
                (u64_subcount (sys_of curr w').runtime (sys_of (not curr) w).runtime)
                t

    pub info_rows-insert_sys_info :
        (s : SysInfo Single) (h : History Single)
        → info_rows (insert_sys_info m s h).1 ≡ info_rows h
    unfolding insert_sys_info
    info_rows-insert_sys_info s h = info_rows-unrelated m (insert_sys s) h λ ps. refl

    pub Cycled-rows :
        (Q : AvlTree → Type 0) (r : Readings) (w w' : World Single)
        → Accepts m
        → (d : Cycled fl c k m scanned garbage page_shift cpufreq hz tlmkb screen curr Q r w w')
        → info_rows w'.history
          ≡ info_rows w.history
            ++ rows_of fl hz tlmkb curr r.ctime
                (u64_subcount (sys_of curr w').runtime (sys_of (not curr) w).runtime)
                d.t
    Cycled-rows Q r w w' accepts d =
        let itv = u64_subcount (sys_of curr w').runtime (sys_of (not curr) w).runtime in
        ap info_rows d.after
        ∙ info_rows-insert_sys_info d.row d.g'.history
        ∙ rows-TreeStep fl hz tlmkb curr r.ctime itv m accepts screen d.walked
        ∙ ap (λ h. info_rows h ++ rows_of fl hz tlmkb curr r.ctime itv d.t) d.before

    -- From a state with the invariant, if /proc lists a process, no line of /proc/net/wireless
    -- begins with a word of more than 9 bytes and the database accepts every statement, the body of
    -- the loop up to the screen ends the program, or the table of processes holds the rows of
    -- before and behind them those of the processes that were active, in the order of the walk over
    -- a search tree, which has one node for a process and no others than those described. Each is
    -- computed from the time between the two samples of the system and the two samples of one node,
    -- of which the previous one is the one that the tree held before the cycle (a cleared one for a
    -- process without a node); the node of a process that /proc lists was sampled in this cycle,
    -- from the last entry for the process, and that of any other process is the one of before. (`<`
    -- on shares is taken to be asymmetric.)
    pub sample_cycle-Stores :
        (lt_asymm : (a b : Single) → lt a b ≡ true → lt b a ≡ false) (r : Readings)
        (w : World Single)
        → IsGood w
        → any_process r.entries ≡ true
        → FitsNames c r.wireless
        → Accepts m
        → Returns
            (OnRun (λ s. Stores r w s.1))
            (sample_cycle fl c k m scanned garbage page_shift cpufreq hz tlmkb screen curr r w)
    sample_cycle-Stores lt_asymm r w good e names accepts =
        let Q = λ (t : AvlTree).
          Resampled c k scanned garbage page_shift curr r.entries (λ y. find y w.tree)
            (λ y. find y t) in
        let read =
          read_process_stats c k scanned garbage page_shift curr r.stat (some r.entries)
            (zero_sys_info fl) w.tree in
        let both = λ (t : AvlTree). IsAvl t × Q t in
        Returns-imp
          (OnRun (λ s.
            Cycled fl c k m scanned garbage page_shift cpufreq hz tlmkb screen curr both r w s.1))
          (OnRun (λ s. Stores r w s.1)) _
          (λ run. OnRun-imp _ _ run λ s d. record {
            t = d.t;
            avl = d.collected.0;
            collected = d.collected.1;
            rows = Cycled-rows both r w s.1 accepts d;
          })
          (sample_cycle-Cycled fl c k m scanned garbage page_shift cpufreq hz tlmkb screen curr
            lt_asymm both r w good e names
            (both_return (λ s. IsAvl s.1) (λ s. Q s.1) read
              (Returns-imp _ (OnRun (λ s. IsAvl s.1)) read (λ run. OnRun-imp _ _ run λ s h. h.0.avl)
                (read_process_stats-Kept c k scanned garbage page_shift curr r.stat r.entries
                  (zero_sys_info fl) w.tree good.avl good.allocated))
              (Returns→IfReturns (OnRun (λ s. Q s.1)) read (
                read_process_stats-Resampled c k scanned garbage page_shift curr r.stat r.entries
                  (zero_sys_info fl) w.tree good.avl good.allocated))))
