-- ===== src/PidStats.antt =====
-- pid_stats.c: what is read of one process from the files of /proc.
pub mod Name
pub mod Outcome
pub mod RoundTrip
pub mod Widths
use ptop.Prelude.{
  ℕ, zero, suc, ◌+◌, ◌*◌, ◌/◌, ◌%◌, ◌^◌, Bool, true, false, not, ◌&&◌, Option, none, some, List, [],
  ◌∷◌, ◌==◌, ltb, if◌then◌else◌, drop, take, codes,
}
use ptop.Prelude.Int.{ℤ, pos, ltb_ℤ, eqb_ℤ}
use ptop.Common.{u32_mod, u64_mod}
use ptop.Files.{Text, File, Libc, Run, goes_on, exits, starts_with, assigned, is_digit}
use ptop.MStats.{StatSmaps, read_smaps, total_active_memory}
use ptop.Perf.{Kernel, read_counter}
use ptop.Records.{Dsk, Net, Memory, PidStats}
use ptop.AvlTree.{AvlNode}

-- MAX_COMM_LEN
abbrev pub max_comm_len : ℕ
max_comm_len = 16

-- A final ')' is cut off.
unfoldable pub cut_paren : Text → Text
cut_paren [] = []
cut_paren (c ∷ []) = if c == b')' then [] else c ∷ []
cut_paren (c ∷ d ∷ cs) = c ∷ cut_paren (d ∷ cs)

-- `pst->comm`, from what `%16s` scanned: fifteen bytes of it, without a final ')'.
unfoldable pub stored_comm : Text → Text
unfolding cut_paren
stored_comm comm = cut_paren (take 15 comm)

-- The first line of the file: the name that `(%16s` scans, and the fourteen numbers behind it.
pub record StatLine : Type 0 where
  pub comm : Text
  pub numbers : List ℕ

-- The conversions of the first `fscanf`, with `vsz` in kB and `rss` in kB. A `%lu` into a 32-bit
-- field leaves the low 32 bits there, since the neighbours that it spills into are written after.
-- `page_shift` is `kb_shift`.
unfoldable pub store_stat : ℕ → ℕ → StatLine → PidStats → PidStats
unfolding stored_comm
store_stat page_shift pid line pst =
    let at = λ (i old : ℕ). assigned line.numbers i old in
    record pst {
      minflt = at 0 pst.minflt % u32_mod;
      cminflt = at 1 pst.cminflt % u32_mod;
      majflt = at 2 pst.majflt % u32_mod;
      cmajflt = at 3 pst.cmajflt % u32_mod;
      utime = at 4 pst.utime;
      stime = at 5 pst.stime;
      cutime = at 6 pst.cutime;
      cstime = at 7 pst.cstime;
      vsz = at 9 pst.vsz % u32_mod / 2 ^ 10;
      rss = (at 10 pst.rss % u32_mod) * 2 ^ page_shift % u32_mod;
      processor = at 11 pst.processor % u32_mod;
      gtime = at 12 pst.gtime;
      cgtime = at 13 pst.cgtime;
      comm = stored_comm line.comm;
      pid = pid;
    }

-- The second line, which a kernel with the atop patch has.
unfoldable pub store_net : List ℕ → PidStats → PidStats
store_net ns pst =
    let d = record pst.dsk {
      rio = assigned ns 0 pst.dsk.rio;
      rsz = assigned ns 1 pst.dsk.rsz;
      wio = assigned ns 2 pst.dsk.wio;
      wsz = assigned ns 3 pst.dsk.wsz;
    } in
    let tcpsnd = assigned ns 4 pst.net.tcpsnd in
    let tcprcv = assigned ns 6 pst.net.tcprcv in
    let udpsnd = assigned ns 8 pst.net.udpsnd in
    let udprcv = assigned ns 10 pst.net.udprcv in
    let rawsnd = assigned ns 12 pst.net.rawsnd in
    let rawrcv = assigned ns 13 pst.net.rawrcv in
    record pst {
      dsk = d;
      net = record {
        tcpsnd = tcpsnd;
        tcpssz = assigned ns 5 pst.net.tcpssz;
        tcprcv = tcprcv;
        tcprsz = assigned ns 7 pst.net.tcprsz;
        udpsnd = udpsnd;
        udpssz = assigned ns 9 pst.net.udpssz;
        udprcv = udprcv;
        udprsz = assigned ns 11 pst.net.udprsz;
        rawsnd = rawsnd;
        rawrcv = rawrcv;
        totalnetsnd = (tcpsnd + udpsnd + rawsnd) % u64_mod;
        totalnetrcv = (tcprcv + udprcv + rawrcv) % u64_mod;
      };
    }

-- The files of one process, each as it is when it is opened: `stat` is opened twice.
pub record ProcFiles : Type 0 where
  pub stat : Option StatLine
  pub stat_again : File
  pub status : File
  pub io : File
  pub smaps : File
  pub meminfo : File

module _ (c : Libc) where
  -- What the second reading of the file adds: nothing, if it has no second line.
  unfoldable pub read_again : PidStats → File → ℕ × PidStats
  unfolding store_net
  read_again pst none = (1, pst)
  read_again pst (some []) = (0, pst)
  read_again pst (some (line ∷ [])) = (0, pst)
  read_again pst (some (line ∷ second ∷ _)) = (0, store_net (c.scan_numbers second) pst)

  -- The functions return 0 if the file could be read and 1 if not, with the record afterwards.
  unfoldable pub read_stat : ℕ → ℕ → Option StatLine → File → PidStats → ℕ × PidStats
  unfolding store_stat read_again
  read_stat page_shift pid none again pst = (1, pst)
  read_stat page_shift pid (some line) again pst =
      read_again (store_stat page_shift pid line pst) again

  unfoldable pub read_proc_pid_stat : ℕ → ℕ → ProcFiles → PidStats → ℕ × PidStats
  unfolding read_stat
  read_proc_pid_stat page_shift pid files pst =
      read_stat page_shift pid files.stat files.stat_again pst

  unfoldable pub status_lines : List Text → PidStats → PidStats
  status_lines [] pst = pst
  status_lines (line ∷ lines) pst = status_lines lines (
      if starts_with (codes "voluntary_ctxt_switches:") line
      then record pst { nvcsw = assigned (c.scan_numbers (drop 25 line)) 0 pst.nvcsw }
      else if starts_with (codes "nonvoluntary_ctxt_switches:") line
      then record pst { nivcsw = assigned (c.scan_numbers (drop 28 line)) 0 pst.nivcsw }
      else pst)

  unfoldable pub read_proc_pid_status : ℕ → File → PidStats → ℕ × PidStats
  unfolding status_lines
  read_proc_pid_status pid none pst = (1, pst)
  read_proc_pid_status pid (some lines) pst = (0, record (status_lines lines pst) { pid = pid })

  unfoldable pub io_lines : List Text → PidStats → PidStats
  io_lines [] pst = pst
  io_lines (line ∷ lines) pst = io_lines lines (
      if starts_with (codes "read_bytes:") line
      then record pst { read_bytes = assigned (c.scan_numbers (drop 12 line)) 0 pst.read_bytes }
      else if starts_with (codes "write_bytes:") line
      then record pst { write_bytes = assigned (c.scan_numbers (drop 13 line)) 0 pst.write_bytes }
      else if starts_with (codes "cancelled_write_bytes:") line
      then record pst {
        cancelled_write_bytes =
            assigned (c.scan_numbers (drop 23 line)) 0 pst.cancelled_write_bytes;
      }
      else pst)

  unfoldable pub read_proc_pid_io : ℕ → File → PidStats → ℕ × PidStats
  unfolding io_lines
  read_proc_pid_io pid none pst = (1, pst)
  read_proc_pid_io pid (some lines) pst = (0, record (io_lines lines pst) { pid = pid })

  -- The descriptor of the node afterwards: it gets a counter if it has none open. Any `active` but
  -- 0 counts as true.
  unfoldable pub counter_of : Kernel → ℕ → ℤ → AvlNode → ℤ
  counter_of k pid active p =
      if not (eqb_ℤ active (pos 0)) && not (ltb_ℤ (pos 0) p.fd) then k.open_process pid else p.fd

  -- The last statements, from what the two files say.
  unfoldable pub store_mem :
      Kernel → ℤ → AvlNode → PidStats → Run StatSmaps → Run ℕ → Run (ℕ × AvlNode × PidStats)
  store_mem k counter p pst (exits n) r = exits n
  store_mem k counter p pst (goes_on s) (exits n) = exits n
  store_mem k counter p pst (goes_on s) (goes_on total) = goes_on (
    0,
    record p { fd = counter },
    record pst {
      mem = record pst.mem {
        memory_used = (s.pss + s.private_clean + s.private_dirty) % u32_mod;
        total_active = total;
        cpu_accesses = read_counter k counter;
      };
    },
  )

  -- `scanned` and `garbage` are what uninitialised variables hold, `active` is the answer of
  -- is_active.
  unfoldable pub read_proc_pid_mem :
      Kernel → StatSmaps → ℕ → ℕ → ProcFiles → ℤ → AvlNode → PidStats → Run (ℕ × AvlNode × PidStats)
  unfolding counter_of store_mem
  read_proc_pid_mem k scanned garbage pid files active p pst =
      store_mem k (counter_of k pid active p) p pst (read_smaps c scanned files.smaps)
        (total_active_memory c garbage files.meminfo)

-- The entries of /proc whose name begins with a digit.
unfoldable pub count_pid : List Text → ℕ
count_pid [] = 0
count_pid ([] ∷ names) = count_pid names
count_pid ((c ∷ cs) ∷ names) = if is_digit c then suc (count_pid names) else count_pid names
