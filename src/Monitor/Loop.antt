-- ===== src/Monitor/Loop.antt =====
-- ptop.c, main_loop: the body of the loop up to the screen, from the files as they are when they are
-- opened. Behind it stand the screen, in every third cycle, the deletion of old rows, in every
-- thirty-first, and the pause.
pub mod Invariant
pub mod Calls
pub mod Cycled
pub mod Stored
pub mod Stale
pub mod Widths
use ptop.Prelude.{ℕ, Bool, Option, none, some, List, ◌>>=◌, if◌then◌else◌}
use ptop.Prelude.Int.{ℤ, pos}
use ptop.Files.{Text, File, Libc, Run, goes_on, exits}
use ptop.Floats.{Floats}
use ptop.Records.{SysInfo, ProcessInfo}
use ptop.AvlTree.{AvlTree}
use ptop.Database.{History, Mysql}
use ptop.Perf.{Kernel, Counters}
use ptop.MStats.{StatSmaps}
use ptop.PidStats.{ProcFiles}
use ptop.CpuStats.{CpuFreqData}
use ptop.Monitor.Sample.{Globals}
use ptop.Monitor.Collect.{then_run, read_process_stats}
use ptop.Monitor.Cycle.{read_system_stats, write_process_stats, write_system_stats}

-- The globals of the program, the descriptors closed, and the calls made of the database.
pub record World (F : Type 0) : Type 0 where
  pub sys0 : SysInfo F
  pub sys1 : SysInfo F
  pub pst_list : List (ProcessInfo F)
  pub tree : AvlTree
  pub counters : Counters
  pub freqs : List CpuFreqData
  pub closed : List ℤ
  pub history : History F

-- The clock, twice, and the files of one cycle; `garbage` is what uninitialised names hold.
pub record Readings : Type 0 where
  pub ctime : ℤ
  pub freq_time : ℤ
  pub stat : File
  pub entries : List (Text × ProcFiles)
  pub freq_dir : Option (List (Text × File))
  pub garbage : Text
  pub wireless : File
  pub net_dev : File

module _ (fl : Floats) where
  open fl use {Single, of_u64}

  -- What the `memset` leaves of a record.
  abbrev pub zero_sys_info : SysInfo Single
  zero_sys_info = record {
    time = 0;
    totalnetsnd = 0;
    totalnetrcv = 0;
    totaldiskread = 0;
    totaldiskwrite = 0;
    cpupower = of_u64 0;
    memaccess = 0;
    itv = 0;
    runtime = 0;
    active_process_num = pos 0;
  }

  -- The settings: what uninitialised variables hold, kb_shift, cpufreq_stats, hz, tlmkb and screen.
  module _ (c : Libc) (k : Kernel) (m : Mysql Single) (scanned : StatSmaps) (garbage page_shift : ℕ)
      (cpufreq : Bool) (hz tlmkb : ℕ) (screen : Bool) where
    unfoldable pub put_sys : Bool → SysInfo Single → World Single → World Single
    put_sys curr s w = if curr then record w { sys1 = s } else record w { sys0 = s }

    -- What is done with a sample: the rows for the processes and the row for the system. `amount`
    -- is returned with the globals.
    unfoldable pub write_sample :
        Bool → ℤ → SysInfo Single → AvlTree → World Single → Option (ℤ × World Single)
    unfolding put_sys
    write_sample curr ctime sys t w =
        let prev = if curr then w.sys0 else w.sys1 in
        let g : Globals Single = record {
          sys = sys;
          pst_list = w.pst_list;
          idx = 0;
          closed = w.closed;
          history = w.history;
        } in
        write_process_stats fl m hz tlmkb screen curr ctime prev t g >>= λ (amount, t', g').
        let (sys', h) = write_system_stats fl m ctime amount g'.sys prev g'.history in
        some (
          amount,
          put_sys curr sys'
              (record w { pst_list = g'.pst_list; tree = t'; closed = g'.closed; history = h }),
        )

    -- The body of the loop up to the screen, in a cycle in which /proc could be opened (`sampled` of Run
    -- ends the program otherwise).
    unfoldable pub sample_cycle : Bool → Readings → World Single → Option (Run (ℤ × World Single))
    unfolding write_sample
    sample_cycle curr r w =
        read_process_stats c k scanned garbage page_shift curr r.stat (some r.entries) zero_sys_info
          w.tree
        >>= λ run. then_run run λ (sys, t).
          read_system_stats fl c k cpufreq r.freq_time r.freq_dir r.garbage r.wireless r.net_dev
            w.counters sys w.freqs
          >>= λ (sys', freqs).
              write_sample curr r.ctime sys' t (record w { freqs = freqs }) >>= λ s.
              some (goes_on s)
