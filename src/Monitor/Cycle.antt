-- ===== src/Monitor/Cycle.antt =====
-- ptop.c: the steps of one cycle of the main loop around the passes over /proc and over the tree,
-- and what happens before the first cycle and after the last.
pub mod Steps
use ptop.Prelude.{
  ℕ, ◌-◌, ◌%◌, zero, suc, Bool, true, false, Option, none, some, List, [], ◌∷◌, ◌>>=◌,
  if◌then◌else◌,
}
use ptop.Prelude.Int.{ℤ, pos, ◌-ℤ◌, eqb_ℤ}
use ptop.Common.{u32_of_int, u32_mod, u64_subcount, get_hz, get_kb_shift}
use ptop.Files.{Text, File, Libc, Run, goes_on, exits}
use ptop.Floats.{Floats}
use ptop.Records.{SysInfo, ProcessInfo}
use ptop.AvlTree.{AvlTree}
use ptop.Database.{History, Mysql, insert_sys_info, init_stat_data, clean_stat_data}
use ptop.Perf.{Kernel, Counters, init_perf, close_all_counters}
use ptop.CpuStats.{CpuFreqData, read_cpufreq_stats, check_cpufreq_stats, get_cpu_nr}
use ptop.MStats.{stat_sysmem_stats, stat_sysnet_stats}
use ptop.Monitor.Sample.{Globals, write_stat}

-- What `system_init` leaves in the globals.
pub record Settings : Type 0 where
  pub hz : ℕ
  pub kb_shift : ℕ
  pub cpufreq_stats : Bool
  pub cpu_nr : ℤ
  pub counters : Counters

-- What the kernel answers at the start: sysconf's page size, clock ticks and processors online.
pub record Startup : Type 0 where
  pub pagesize : ℤ
  pub ticks : ℤ
  pub online : ℕ
  pub time_in_state : File

module _ (fl : Floats) where
  open fl use {Single}

  -- The three files of one sample: the directory of the frequencies, and those of the network.
  unfoldable pub read_system_stats :
      Libc
      → Kernel
      → Bool
      → ℤ
      → Option (List (Text × File))
      → Text
      → File
      → File
      → Counters
      → SysInfo Single
      → List CpuFreqData
      → Option (SysInfo Single × List CpuFreqData)
  read_system_stats c k supported now dir garbage wireless dev counters sys freqs =
      read_cpufreq_stats fl c supported now dir sys freqs >>= λ (sys1, freqs').
      stat_sysmem_stats k counters sys1 >>= λ sys2.
      stat_sysnet_stats c garbage wireless dev sys2 >>= λ sys3. some (sys3, freqs')

  -- The row for the table: the differences between the two samples.
  unfoldable pub system_record : ℤ → ℤ → SysInfo Single → SysInfo Single → SysInfo Single
  system_record time amount sys prev = record sys {
    time = u32_of_int time;
    totalnetrcv = u64_subcount sys.totalnetrcv prev.totalnetrcv;
    totalnetsnd = u64_subcount sys.totalnetsnd prev.totalnetsnd;
    itv = u64_subcount sys.itv prev.itv % u32_mod;
    runtime = u64_subcount sys.runtime prev.runtime % u32_mod;
    memaccess = u64_subcount sys.memaccess prev.memaccess;
    active_process_num = amount;
  }

  module _ (m : Mysql Single) where
    -- sys_stats[curr] afterwards, and the calls.
    unfoldable pub write_system_stats :
        ℤ → ℤ → SysInfo Single → SysInfo Single → History Single → SysInfo Single × History Single
    unfolding system_record
    write_system_stats time amount sys prev h = (
      record sys { time = u32_of_int time },
      (insert_sys_info m (system_record time amount sys prev) h).1,
    )

    -- The number returned, the tree and the globals: sys_stats[curr] is among them.
    unfoldable pub write_process_stats :
        ℕ
        → ℕ
        → Bool
        → Bool
        → ℤ
        → SysInfo Single
        → AvlTree
        → Globals Single
        → Option (ℤ × AvlTree × Globals Single)
    write_process_stats hz tlmkb screen curr time prev t g =
        write_stat fl m hz tlmkb screen curr time (u64_subcount g.sys.runtime prev.runtime) t
          (record g { idx = 0 })
        >>= λ (t', g'). some (pos g'.idx -ℤ pos 1, t', g')

    -- The clock's readings are arguments, two for each deletion.
    unfoldable pub system_init :
        Kernel
        → Startup
        → ℤ
        → ℤ
        → ℤ
        → ℤ
        → Counters
        → History Single
        → Option (Run (Settings × History Single))
    system_init k s t1 t2 t3 t4 counters h =
        let (status, h1) = init_stat_data m t1 t2 h in
        let started = init_perf k s.online counters >>= λ counters'. some (
          goes_on (
            record {
              hz = get_hz s.ticks;
              kb_shift = get_kb_shift s.pagesize;
              cpufreq_stats = check_cpufreq_stats s.time_in_state;
              cpu_nr = pos s.online;
              counters = counters';
            },
            clean_stat_data m t3 t4 h1,
          )) in
        if eqb_ℤ status (pos 0)
        then some (exits 0)
        else elim (get_cpu_nr (pos s.online) (u32_mod - 1)) [
          | exits n ↦ some (exits n)
          | goes_on _ ↦ started
        ]

    -- The descriptors closed, the counters, and the calls.
    unfoldable pub system_clean :
        ℤ → ℤ → AvlTree → Counters → History Single → Option (List ℤ × Counters × History Single)
    system_clean now now' t counters h = close_all_counters t counters >>= λ (closed, cs).
        some (closed, cs, clean_stat_data m now now' h)
