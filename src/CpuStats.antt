-- ===== src/CpuStats.antt =====
-- cpu_stats.c: the times of the processors, the memory, the number of processors, and the power
-- that the processors draw at their frequencies.
pub mod Bounds
use ptop.Prelude.{
  ℕ, zero, suc, ◌+◌, ◌-◌, ◌%◌, Bool, true, false, not, ◌&&◌, Option, none, some, List, [], ◌∷◌, ltb,
  leb, if◌then◌else◌, ◌>>=◌, drop, codes, get_elem?, store,
}
use ptop.Prelude.Int.{ℤ, pos, negsuc, ◌+ℤ◌, ltb_ℤ}
use ptop.Common.{u32_mod, u64_mod, u32_of_int}
use ptop.Files.{
  Text, File, Libc, Run, goes_on, exits, starts_with, assigned, assigned_int, is_digit,
}
use ptop.Floats.{Floats}
use ptop.Records.{SysInfo}

-- struct stats_cpu
pub record StatsCpu : Type 0 where
  pub cpu_user : ℕ
  pub cpu_nice : ℕ
  pub cpu_sys : ℕ
  pub cpu_idle : ℕ
  pub cpu_iowait : ℕ
  pub cpu_steal : ℕ
  pub cpu_hardirq : ℕ
  pub cpu_softirq : ℕ
  pub cpu_guest : ℕ

-- struct stats_memory
pub record StatsMemory : Type 0 where
  pub frmkb : ℕ
  pub bufkb : ℕ
  pub camkb : ℕ
  pub tlmkb : ℕ
  pub frskb : ℕ
  pub tlskb : ℕ
  pub caskb : ℕ
  pub comkb : ℕ

-- struct cpufreqdata; `power` is never used.
pub record CpuFreqData : Type 0 where
  pub frequency : ℕ
  pub count : ℕ

-- The nine numbers of the first line, over a cleared structure.
unfoldable pub scan_cpu : List ℕ → StatsCpu
scan_cpu ns = record {
  cpu_user = assigned ns 0 0;
  cpu_nice = assigned ns 1 0;
  cpu_sys = assigned ns 2 0;
  cpu_idle = assigned ns 3 0;
  cpu_iowait = assigned ns 4 0;
  cpu_hardirq = assigned ns 5 0;
  cpu_softirq = assigned ns 6 0;
  cpu_steal = assigned ns 7 0;
  cpu_guest = assigned ns 8 0;
}

-- `sy->itv` and `sy->runtime`: 64-bit sums, stored in 32 bits.
unfoldable pub cpu_times : {F : Type 0} → StatsCpu → SysInfo F → SysInfo F
cpu_times st sy = record sy {
  itv =
      (st.cpu_user + st.cpu_nice + st.cpu_sys + st.cpu_idle + st.cpu_iowait + st.cpu_hardirq
        + st.cpu_steal + st.cpu_softirq)
      % u32_mod;
  runtime = (st.cpu_user + st.cpu_sys + (u64_mod - st.cpu_guest)) % u32_mod;
}

module _ (c : Libc) where
  unfoldable pub read_stat_cpu : {F : Type 0} → File → SysInfo F → Run (SysInfo F)
  read_stat_cpu none sy = exits 2
  read_stat_cpu (some []) sy = goes_on sy
  read_stat_cpu (some (line ∷ _)) sy =
      goes_on (cpu_times (scan_cpu (c.scan_numbers (drop 5 line))) sy)

  unfoldable pub meminfo_line : Text → StatsMemory → StatsMemory
  meminfo_line line st =
      let value = λ (skip old : ℕ). assigned (c.scan_numbers (drop skip line)) 0 old in
      if starts_with (codes "MemTotal:") line
      then record st { tlmkb = value 9 st.tlmkb }
      else if starts_with (codes "MemFree:") line
      then record st { frmkb = value 8 st.frmkb }
      else if starts_with (codes "Buffers:") line
      then record st { bufkb = value 8 st.bufkb }
      else if starts_with (codes "Cached:") line
      then record st { camkb = value 7 st.camkb }
      else if starts_with (codes "SwapCached:") line
      then record st { caskb = value 11 st.caskb }
      else if starts_with (codes "SwapTotal:") line
      then record st { tlskb = value 10 st.tlskb }
      else if starts_with (codes "SwapFree:") line
      then record st { frskb = value 9 st.frskb }
      else if starts_with (codes "Committed_AS:") line
      then record st { comkb = value 13 st.comkb }
      else st

  unfoldable pub meminfo_lines : List Text → StatsMemory → StatsMemory
  unfolding meminfo_line
  meminfo_lines [] st = st
  meminfo_lines (line ∷ lines) st = meminfo_lines lines (meminfo_line line st)

  unfoldable pub read_meminfo : File → StatsMemory → StatsMemory
  unfolding meminfo_lines
  read_meminfo none st = st
  read_meminfo (some lines) st = meminfo_lines lines st

  -- The loop of `get_proc_cpu_nr`, with what `num_proc` holds.
  unfoldable pub cpu_lines : List Text → ℤ → ℤ → ℤ
  cpu_lines [] num_proc proc_nr = proc_nr
  cpu_lines (line ∷ lines) num_proc proc_nr =
      let scanned = assigned_int (c.scan_int (drop 3 line)) num_proc in
      let counted = cpu_lines lines scanned (if ltb_ℤ proc_nr scanned then scanned else proc_nr) in
      let passed_over = cpu_lines lines num_proc proc_nr in
      if not (starts_with (codes "cpu ") line) && starts_with (codes "cpu") line
      then counted
      else passed_over

  -- `num_proc` is uninitialised.
  unfoldable pub get_proc_cpu_nr : ℤ → File → Run ℤ
  unfolding cpu_lines
  get_proc_cpu_nr num_proc none = exits 1
  get_proc_cpu_nr num_proc (some lines) = goes_on (cpu_lines lines num_proc (negsuc 0) +ℤ pos 1)

-- `isdigit(name[3])`, of which a name that is too short has a NUL.
abbrev pub digit_at : Text → ℕ → Bool
digit_at name i = elim (get_elem? name i) [ none ↦ false | some d ↦ is_digit d ]

-- The entries of SYSFS_DEVCPU, with whether `stat` finds a directory.
unfoldable pub cpu_entries : List (Text × Bool) → ℕ
cpu_entries [] = 0
cpu_entries ((name, is_dir) ∷ entries) =
    let rest = cpu_entries entries in
    if starts_with (codes "cpu") name && digit_at name 3 && is_dir then suc rest else rest

unfoldable pub get_sys_cpu_nr : Option (List (Text × Bool)) → ℕ
unfolding cpu_entries
get_sys_cpu_nr none = 0
get_sys_cpu_nr (some entries) = cpu_entries entries

-- `online` is what `sysconf` says; it is compared as an unsigned number.
unfoldable pub get_cpu_nr : ℤ → ℕ → Run ℤ
get_cpu_nr online max_nr_cpus =
    if ltb max_nr_cpus (u32_of_int online) then exits 1 else goes_on online

unfoldable pub check_cpufreq_stats : File → Bool
check_cpufreq_stats none = false
check_cpufreq_stats (some _) = true

-- The array has 16 entries; a write outside it is a fault.
abbrev pub nr_freqs : ℕ
nr_freqs = 16

module _ (c : Libc) where
  -- The lines of one file from the i-th on, `left` of which are read; with the index afterwards.
  unfoldable pub freq_lines : ℕ → List Text → ℕ → List CpuFreqData → Option (ℕ × List CpuFreqData)
  freq_lines zero lines i freqs = some (i, freqs)
  freq_lines (suc left) [] i freqs = some (i, freqs)
  freq_lines (suc left) (line ∷ lines) i freqs =
      let ns = c.scan_numbers line in
      get_elem? freqs i >>= λ old.
      store freqs i
        (record { frequency = assigned ns 0 old.frequency; count = assigned ns 1 old.count })
      >>= λ freqs'. freq_lines left lines (i + 1) freqs'

  -- The files of CPU_DIR's entries. `levels` is `maxfreq + 1`.
  unfoldable pub freq_files :
      List (Text × File) → ℕ → List CpuFreqData → Option (ℕ × List CpuFreqData)
  unfolding freq_lines
  freq_files [] levels freqs = some (levels, freqs)
  freq_files ((name, none) ∷ files) levels freqs = freq_files files levels freqs
  freq_files ((name, some lines) ∷ files) levels freqs =
      if starts_with (codes "cpu") name
      then (freq_lines nr_freqs lines 0 freqs >>= λ (levels', freqs').
          freq_files files levels' freqs')
      else freq_files files levels freqs

-- `freqs[ret].count = 0`
unfoldable pub clear_counts : List CpuFreqData → List CpuFreqData
clear_counts [] = []
clear_counts (f ∷ fs) = record f { count = 0 } ∷ clear_counts fs

-- The counts of `delta`: wrapping differences.
unfoldable pub deltas : List CpuFreqData → List CpuFreqData → List ℕ
deltas [] old = []
deltas (f ∷ fs) [] = []
deltas (f ∷ fs) (o ∷ os) = (f.count + u64_mod - o.count) % u64_mod ∷ deltas fs os

unfoldable pub total_time : List ℕ → ℕ → ℕ
total_time [] total = total
total_time (d ∷ ds) total = total_time ds ((total + d) % u64_mod)

module _ (fl : Floats) where
  open fl use {Single, of_u64, add, sub, mul, div, narrow, decimal}

  -- maxcpupower and mincpupower of energy.c
  abbrev pub maxcpupower : Single
  maxcpupower = narrow (decimal 245 1)

  abbrev pub mincpupower : Single
  mincpupower = narrow (decimal 60 1)

  -- `delta_power` at a level, for the ticks that were spent there.
  unfoldable pub level_power : ℕ → ℕ → ℕ → Single
  level_power maxfreq ret ticks =
      div
        (mul
          (sub maxcpupower (div (mul (sub maxcpupower mincpupower) (of_u64 ret)) (of_u64 maxfreq)))
          (of_u64 ticks))
        (of_u64 100)

  -- The last loop, with the levels left; a read outside `delta` is a fault.
  unfoldable pub add_levels : ℕ → ℕ → ℕ → ℕ → List ℕ → Single → Option Single
  unfolding level_power
  add_levels zero ret levels total delta power = some power
  add_levels (suc left) ret levels total delta power = get_elem? delta ret >>= λ ticks.
      add_levels left (ret + 1) levels total delta (
        add power (
          if ltb 0 total && ltb 1 levels
          then level_power (levels - 1) ret ticks
          else narrow (decimal 0 1)))

  -- `supported` is the global `cpufreq_stats`, `dir` what CPU_DIR holds. The result is the record
  -- and the global `freqs`.
  unfoldable pub read_cpufreq_stats :
      Libc
      → Bool
      → ℤ
      → Option (List (Text × File))
      → SysInfo Single
      → List CpuFreqData
      → Option (SysInfo Single × List CpuFreqData)
  unfolding freq_files add_levels
  read_cpufreq_stats c false now dir info freqs =
      some (record info { time = u32_of_int now; cpupower = of_u64 0 }, freqs)
  read_cpufreq_stats c true now none info freqs =
      some
        (record info { time = u32_of_int now; cpupower = narrow (decimal 0 1) }, clear_counts freqs)
  read_cpufreq_stats c true now (some files) info freqs =
      freq_files c files 1 (clear_counts freqs) >>= λ (levels, freqs').
      let delta = deltas freqs' freqs in
      add_levels levels 0 levels (total_time delta 0) delta (narrow (decimal 0 1)) >>= λ power.
      some (record info { time = u32_of_int now; cpupower = power }, freqs')
