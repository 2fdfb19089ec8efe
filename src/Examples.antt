-- ===== src/Examples.antt =====
-- The theorems at concrete inputs: a machine with natural numbers for floats, a database that
-- accepts everything, two processes, and the tree that holds them.
mod Tree
mod Cycle
mod Samples
mod Stale
mod Widths
mod Machine
mod Statements
mod Storage
mod Program
mod Printed
use Prim.Native.Nat.{ℕ}
use ptop.Prelude.{
  zero, suc, ◌+◌, ◌-◌, ◌*◌, ◌/◌, ◌^◌, ◌≡◌, refl, true, false, none, some, List, [], ◌∷◌, arith, ltb,
}
use ptop.Prelude.Int.{ℤ, pos, negsuc, pos_part}
use ptop.Floats.{Floats}
use ptop.Files.{Libc}
use ptop.Records.{PidStats, ProcessInfo, SysInfo, zero_pid_stats}
use ptop.AvlTree.{AvlNode, AvlTree, null, node}
use ptop.AvlTree.Contract.{IsAvl}
use ptop.Database.{History, Mysql}
use ptop.Perf.{Kernel, Counters}
use ptop.CpuStats.{CpuFreqData}
use ptop.PidStats.{ProcFiles, StatLine}
use ptop.AvlTree.Shape.{IsAllocated}

abbrev pub fl : Floats
fl = record {
  Single = ℕ;
  Double = ℕ;
  of_u64 = λ n. n;
  add = λ a b. a + b;
  sub = λ a b. a - b;
  mul = λ a b. a * b;
  div = λ a b. a / b;
  lt = ltb;
  widen = λ n. n;
  narrow = λ n. n;
  of_u64_double = λ n. n;
  of_int_double = pos_part;
  decimal = λ n k. n / 10 ^ k;
  add_double = λ a b. a + b;
  mul_double = λ a b. a * b;
  div_double = λ a b. a / b;
}

pub ltb_asymm : (a b : ℕ) → ltb a b ≡ true → ltb b a ≡ false
ltb_asymm a b h = ground arith

pub ltb_irrefl : (a : ℕ) → ltb a a ≡ false
ltb_irrefl a = ground arith

-- It connects, accepts every statement, and has no rows.
abbrev pub accepting : Mysql ℕ
accepting = record { connects = λ h. true; answer = λ h q. pos 0; rows = λ h. [] }

-- It refuses every connection.
abbrev pub unreachable : Mysql ℕ
unreachable = record { connects = λ h. false; answer = λ h q. pos 0; rows = λ h. [] }

abbrev pub no_calls : History ℕ
no_calls = []

abbrev pub kernel : Kernel
kernel = record { open_cpu = λ n. pos 3; open_process = λ n. pos 4; read = λ d. some 7 }

abbrev pub libc : Libc
libc = record {
  scan_numbers = λ t. 12 ∷ [];
  scan_word = λ t. none;
  scan_int = λ t. none;
  atoi = λ t. pos 9;
  atol = λ t. pos 9;
  usable = λ n. n + 8;
  spare = 16;
}

abbrev pub earlier : PidStats
earlier = record zero_pid_stats { pid = 5; utime = 10; stime = 4 }

abbrev pub later : PidStats
later = record zero_pid_stats { pid = 5; utime = 30; stime = 2 }

abbrev pub busy : AvlNode
busy = record { element = pos 5; fd = pos 4; pst_list0 = some earlier; pst_list1 = some later }

abbrev pub idle : AvlNode
idle = record {
  element = pos 9;
  fd = negsuc 0;
  pst_list0 = some zero_pid_stats;
  pst_list1 = some zero_pid_stats;
}

abbrev pub two : AvlTree
two = node null busy (pos 1) (node null idle (pos 0) null)

pub two-IsAvl : IsAvl two
two-IsAvl = record {
  balanced = (refl, omega arith, omega arith, tt, (refl, omega arith, omega arith, tt, tt));
  ordered = ((omega arith, tt), (tt, tt));
}

abbrev pub row_of : ℕ → ProcessInfo ℕ
row_of share = record {
  read_bytes = 0;
  write_bytes = 0;
  cancelled_write_bytes = 0;
  vsz = 0;
  rss = 0;
  mem = 0;
  minflt = 0;
  majflt = 0;
  utime = 0;
  stime = 0;
  gtime = 0;
  cpu = share;
  cswch = 0;
  nvcswch = 0;
  pid = 5;
  time = 100;
  cmdline = [];
  netsnd = 0;
  netrcv = 0;
  ratio = 0;
  cpu_accesses = 0;
}

-- A table of that many places.
abbrev pub rows : ℕ → List (ProcessInfo ℕ)
rows zero = []
rows (suc n) = row_of 0 ∷ rows n

abbrev pub zero_sys : SysInfo ℕ
zero_sys = record {
  time = 0;
  totalnetsnd = 0;
  totalnetrcv = 0;
  totaldiskread = 0;
  totaldiskwrite = 0;
  cpupower = 0;
  memaccess = 0;
  itv = 0;
  runtime = 0;
  active_process_num = pos 0;
}

abbrev pub closed_32 : List ℤ
closed_32 =
    let eight = λ (ds : List ℤ).
      negsuc 0 ∷ negsuc 0 ∷ negsuc 0 ∷ negsuc 0 ∷ negsuc 0 ∷ negsuc 0 ∷ negsuc 0 ∷ negsuc 0 ∷ ds in
    eight (eight (eight (eight [])))

abbrev pub unopened : Counters
unopened = record { nr_cpus = 0; fd = closed_32 }

abbrev pub no_counts : List CpuFreqData
no_counts =
    let four = λ (fs : List CpuFreqData).
      let f : CpuFreqData = record { frequency = 0; count = 0 } in f ∷ f ∷ f ∷ f ∷ fs in
    four (four (four (four [])))

pub two-IsAllocated : IsAllocated two
two-IsAllocated =
    ((earlier, later, refl, refl), tt, ((zero_pid_stats, zero_pid_stats, refl, refl), tt, tt))

-- A process whose files are all there, and one that has gone.
abbrev pub running : ProcFiles
running = record {
  stat = some (record { comm = b'a' ∷ b')' ∷ []; numbers = 1 ∷ 2 ∷ [] });
  stat_again = some [];
  status = some [];
  io = some [];
  smaps = some [];
  meminfo = some [];
}

abbrev pub gone : ProcFiles
gone = record running { stat = none }
