-- ===== src/PidStats/Widths.antt =====
-- pid_stats.c and m_stats.c: what is read of a process fits the fields of struct pid_stats.
pub mod Readers
use ptop.Prelude.{
  ℕ, zero, suc, ◌+◌, ◌%◌, ◌<◌, ◌≡◌, refl, Bool, true, false, not, Option, none, some, List, [], ◌∷◌,
  arith, length, drop, codes, Bool-cases, inl, inr, if◌then◌else◌,
}
use ptop.Prelude.Int.{ℤ}
use ptop.Common.{u32_mod, u64_mod}
use ptop.Files.{Text, File, Libc, Run, goes_on, exits, OnRun, starts_with, assigned}
use ptop.Records.{PidStats, Dsk, Net, Memory, zero_pid_stats}
use ptop.MStats.{StatSmaps, read_smaps, total_active_memory, active_line}
use ptop.Perf.{Kernel, read_counter}
use ptop.AvlTree.{AvlNode}
use ptop.PidStats.{
  StatLine, ProcFiles, max_comm_len, stored_comm, store_stat, store_net, read_again, read_stat,
  read_proc_pid_stat, status_lines, read_proc_pid_status, io_lines, read_proc_pid_io, store_mem,
  read_proc_pid_mem, counter_of,
}
use ptop.PidStats.Name.{length-stored_comm}

pub record FitsDsk (d : Dsk) : Type 0 where
  pub rio : d.rio < u64_mod
  pub rsz : d.rsz < u64_mod
  pub wio : d.wio < u64_mod
  pub wsz : d.wsz < u64_mod
  pub cwsz : d.cwsz < u64_mod

pub record FitsNet (n : Net) : Type 0 where
  pub tcpsnd : n.tcpsnd < u64_mod
  pub tcpssz : n.tcpssz < u64_mod
  pub tcprcv : n.tcprcv < u64_mod
  pub tcprsz : n.tcprsz < u64_mod
  pub udpsnd : n.udpsnd < u64_mod
  pub udpssz : n.udpssz < u64_mod
  pub udprcv : n.udprcv < u64_mod
  pub udprsz : n.udprsz < u64_mod
  pub rawsnd : n.rawsnd < u64_mod
  pub rawrcv : n.rawrcv < u64_mod
  pub totalnetsnd : n.totalnetsnd < u64_mod
  pub totalnetrcv : n.totalnetrcv < u64_mod

pub record FitsMemory (m : Memory) : Type 0 where
  pub memory_used : m.memory_used < u64_mod
  pub total_active : m.total_active < u64_mod
  pub cpu_accesses : m.cpu_accesses < u64_mod

-- Each field of a sample is a value of its type in C.
pub record FitsStats (s : PidStats) : Type 0 where
  pub read_bytes : s.read_bytes < u64_mod
  pub write_bytes : s.write_bytes < u64_mod
  pub cancelled_write_bytes : s.cancelled_write_bytes < u64_mod
  pub total_vsz : s.total_vsz < u64_mod
  pub total_rss : s.total_rss < u64_mod
  pub minflt : s.minflt < u32_mod
  pub cminflt : s.cminflt < u32_mod
  pub majflt : s.majflt < u32_mod
  pub cmajflt : s.cmajflt < u32_mod
  pub utime : s.utime < u64_mod
  pub cutime : s.cutime < u64_mod
  pub stime : s.stime < u64_mod
  pub cstime : s.cstime < u64_mod
  pub gtime : s.gtime < u64_mod
  pub cgtime : s.cgtime < u64_mod
  pub vsz : s.vsz < u32_mod
  pub rss : s.rss < u32_mod
  pub nvcsw : s.nvcsw < u32_mod
  pub nivcsw : s.nivcsw < u32_mod
  pub processor : s.processor < u32_mod
  pub pid : s.pid < u32_mod
  pub comm : length s.comm < max_comm_len
  pub dsk : FitsDsk s.dsk
  pub net : FitsNet s.net
  pub mem : FitsMemory s.mem

pub zero_pid_stats-FitsStats : FitsStats zero_pid_stats
zero_pid_stats-FitsStats = omega arith

abbrev pub AllUnder : ℕ → List ℕ → Type 0
AllUnder b [] = Unit
AllUnder b (n ∷ ns) = (n < b) × AllUnder b ns

-- The C library stores a converted number into an object of the conversion's type: an unsigned int
-- for the two counts of context switches, 64 bits for the rest.
pub record FitsLibc (c : Libc) : Type 0 where
  pub numbers : (t : Text) → AllUnder u64_mod (c.scan_numbers t)
  pub voluntary :
      (t : Text)
      → starts_with (codes "voluntary_ctxt_switches:") t ≡ true
      → AllUnder u32_mod (c.scan_numbers (drop 25 t))
  pub nonvoluntary :
      (t : Text)
      → starts_with (codes "nonvoluntary_ctxt_switches:") t ≡ true
      → AllUnder u32_mod (c.scan_numbers (drop 28 t))

-- The same for the first line of the stat file.
abbrev pub FitsLine : Option StatLine → Type 0
FitsLine none = Unit
FitsLine (some line) = AllUnder u64_mod line.numbers

-- The kernel delivers a counter in 64 bits.
abbrev pub FitsKernel : Kernel → Type 0
FitsKernel k = (fd : ℤ) (n : ℕ) → k.read fd ≡ some n → n < u64_mod

pub assigned_under :
    (b : ℕ) (ns : List ℕ) (i old : ℕ) → AllUnder b ns → old < b → assigned ns i old < b
assigned_under b [] i old h k = k
assigned_under b (n ∷ ns) zero old h k = h.0
assigned_under b (n ∷ ns) (suc i) old h k = assigned_under b ns i old h.1 k

pub store_stat-FitsStats :
    (page_shift pid : ℕ) (line : StatLine) (s : PidStats)
    → pid < u32_mod
    → AllUnder u64_mod line.numbers
    → FitsStats s
    → FitsStats (store_stat page_shift pid line s)
unfolding store_stat
store_stat-FitsStats page_shift pid line s p h v =
    let at = λ (i old : ℕ) (o : old < u64_mod). assigned_under u64_mod line.numbers i old h o in
    record {
      read_bytes = v.read_bytes;
      write_bytes = v.write_bytes;
      cancelled_write_bytes = v.cancelled_write_bytes;
      total_vsz = v.total_vsz;
      total_rss = v.total_rss;
      minflt = omega arith;
      cminflt = omega arith;
      majflt = omega arith;
      cmajflt = omega arith;
      utime = at 4 s.utime v.utime;
      stime = at 5 s.stime v.stime;
      cutime = at 6 s.cutime v.cutime;
      cstime = at 7 s.cstime v.cstime;
      gtime = at 12 s.gtime v.gtime;
      cgtime = at 13 s.cgtime v.cgtime;
      vsz = omega arith;
      rss = omega arith;
      nvcsw = v.nvcsw;
      nivcsw = v.nivcsw;
      processor = omega arith;
      pid = p;
      comm = length-stored_comm line.comm;
      dsk = v.dsk;
      net = v.net;
      mem = v.mem;
    }

pub with_switches :
    (s : PidStats) (v n : ℕ)
    → v < u32_mod
    → n < u32_mod
    → FitsStats s
    → FitsStats (record s { nvcsw = v; nivcsw = n })
with_switches s v n h j f = ground arith

pub with_bytes :
    (s : PidStats) (r w c : ℕ)
    → r < u64_mod
    → w < u64_mod
    → c < u64_mod
    → FitsStats s
    → FitsStats (record s { read_bytes = r; write_bytes = w; cancelled_write_bytes = c })
with_bytes s r w c h j k f = ground arith

pub with_pid :
    (s : PidStats) (pid : ℕ) → pid < u32_mod → FitsStats s → FitsStats (record s { pid = pid })
with_pid s pid h f = ground arith

pub with_mem :
    (s : PidStats) (m : Memory) → FitsMemory m → FitsStats s → FitsStats (record s { mem = m })
with_mem s m h f = ground arith

with_net :
    (s : PidStats) (d : Dsk) (n : Net)
    → FitsDsk d
    → FitsNet n
    → FitsStats s
    → FitsStats (record s { dsk = d; net = n })
with_net s d n h j f = ground arith

pub store_net-FitsStats :
    (ns : List ℕ) (s : PidStats) → AllUnder u64_mod ns → FitsStats s → FitsStats (store_net ns s)
unfolding store_net
store_net-FitsStats ns s h v =
    let at = λ (i old : ℕ) (o : old < u64_mod). assigned_under u64_mod ns i old h o in
    with_net s _ _
      (record {
        rio = at 0 s.dsk.rio v.dsk.rio;
        rsz = at 1 s.dsk.rsz v.dsk.rsz;
        wio = at 2 s.dsk.wio v.dsk.wio;
        wsz = at 3 s.dsk.wsz v.dsk.wsz;
        cwsz = v.dsk.cwsz;
      })
      (record {
        tcpsnd = at 4 s.net.tcpsnd v.net.tcpsnd;
        tcpssz = at 5 s.net.tcpssz v.net.tcpssz;
        tcprcv = at 6 s.net.tcprcv v.net.tcprcv;
        tcprsz = at 7 s.net.tcprsz v.net.tcprsz;
        udpsnd = at 8 s.net.udpsnd v.net.udpsnd;
        udpssz = at 9 s.net.udpssz v.net.udpssz;
        udprcv = at 10 s.net.udprcv v.net.udprcv;
        udprsz = at 11 s.net.udprsz v.net.udprsz;
        rawsnd = at 12 s.net.rawsnd v.net.rawsnd;
        rawrcv = at 13 s.net.rawrcv v.net.rawrcv;
        totalnetsnd = omega arith;
        totalnetrcv = omega arith;
      })
      v
