-- ===== src/Monitor/Loop/Calls.antt =====
-- ptop.c, main_loop: the calls of the database that a cycle makes close what they open.
use ptop.Prelude.{
  ℕ, Bool, some, true, false, if◌then◌else◌, IfReturns, IfReturns-bind, IfReturns-any,
}
use ptop.Prelude.Int.{ℤ}
use ptop.Files.{Libc, OnRun}
use ptop.Common.{u64_subcount}
use ptop.Floats.{Floats}
use ptop.Records.{SysInfo}
use ptop.AvlTree.{AvlTree}
use ptop.Database.{Mysql, insert_sys_info}
use ptop.Database.Session.{Session, Session-Keeps, statement-Keeps}
use ptop.MStats.{StatSmaps}
use ptop.Perf.{Kernel}
use ptop.Monitor.Collect.{read_process_stats}
use ptop.Monitor.Collect.Nodes.{OnRun-any, then_run-IfReturns}
use ptop.Monitor.Cycle.{read_system_stats, write_process_stats, write_system_stats}
use ptop.Monitor.Sample.{Globals, write_stat}
use ptop.Monitor.Sample.Calls.{write_stat-Session}
use ptop.Monitor.Loop.{World, Readings, put_sys, write_sample, sample_cycle, zero_sys_info}

module _ (fl : Floats) where
  open fl use {Single}

  module _ (c : Libc) (k : Kernel) (m : Mysql Single) (scanned : StatSmaps) (garbage page_shift : ℕ)
      (cpufreq : Bool) (hz tlmkb : ℕ) (screen curr : Bool) (n : ℕ) where
    history-put_sys :
        (s : SysInfo Single) (w : World Single)
        → Session n w.history
        → Session n
            (put_sys fl c k m scanned garbage page_shift cpufreq hz tlmkb screen curr s w).history
    unfolding put_sys
    history-put_sys s w o =
        elim curr
          as (λ b.
            Session n
              (put_sys fl c k m scanned garbage page_shift cpufreq hz tlmkb screen b s w).history) [
                | true ↦ o
                | false ↦ o
              ]

    write_sample-Session :
        (ctime : ℤ) (sys : SysInfo Single) (t : AvlTree) (w : World Single)
        → Session n w.history
        → IfReturns
            (λ s. Session n s.1.history)
            (write_sample fl c k m scanned garbage page_shift cpufreq hz tlmkb screen curr ctime sys
              t w)
    unfolding write_sample write_process_stats write_system_stats insert_sys_info
    write_sample-Session ctime sys t w o =
        let prev = if curr then w.sys0 else w.sys1 in
        let g : Globals Single = record {
          sys = sys;
          pst_list = w.pst_list;
          idx = 0;
          closed = w.closed;
          history = w.history;
        } in
        IfReturns-bind (λ r. Session n r.2.history) _
          (write_process_stats fl m hz tlmkb screen curr ctime prev t g) _
          (IfReturns-bind (λ r. Session n r.1.history) _
            (write_stat fl m hz tlmkb screen curr ctime (u64_subcount sys.runtime prev.runtime) t g)
            _
            (write_stat-Session fl m hz tlmkb screen curr ctime
              (u64_subcount sys.runtime prev.runtime) n t g o)
            λ r h. h)
          λ r h.
            history-put_sys _ _ (statement-Keeps m (Session n) _ r.2.history (Session-Keeps n) h)

    pub sample_cycle-Session :
        (r : Readings) (w : World Single)
        → Session n w.history
        → IfReturns
            (OnRun (λ s. Session n s.1.history))
            (sample_cycle fl c k m scanned garbage page_shift cpufreq hz tlmkb screen curr r w)
    unfolding sample_cycle
    sample_cycle-Session r w o =
        IfReturns-bind (λ _. Unit) _
          (read_process_stats c k scanned garbage page_shift curr r.stat (some r.entries)
            (zero_sys_info fl) w.tree)
          _ (IfReturns-any _)
          λ run _.
            then_run-IfReturns (λ _. Unit) _ run _ (OnRun-any run)
              λ s _.
                IfReturns-bind (λ _. Unit) _
                  (read_system_stats fl c k cpufreq r.freq_time r.freq_dir r.garbage r.wireless
                    r.net_dev w.counters s.0 w.freqs)
                  _ (IfReturns-any _)
                  λ u _.
                    IfReturns-bind (λ z. Session n z.1.history) _
                      (write_sample fl c k m scanned garbage page_shift cpufreq hz tlmkb screen curr
                        r.ctime u.0 s.1 (record w { freqs = u.1 }))
                      _ (write_sample-Session r.ctime u.0 s.1 (record w { freqs = u.1 }) o) λ z h. h
