-- ===== src/Records.antt =====
-- The structures of common.h that hold what is read of one process, and those of
-- database.h that hold the rows of the tables. Unsigned fields are numbers,
-- bounded by their width where a theorem needs it; `char[]` is a list of bytes.
use ptop.Prelude.{ℕ, List, []}
use ptop.Prelude.Int.{ℤ}

-- struct dsk
pub record Dsk : Type 0 where
  pub rio : ℕ
  pub rsz : ℕ
  pub wio : ℕ
  pub wsz : ℕ
  pub cwsz : ℕ

-- struct net
pub record Net : Type 0 where
  pub tcpsnd : ℕ
  pub tcpssz : ℕ
  pub tcprcv : ℕ
  pub tcprsz : ℕ
  pub udpsnd : ℕ
  pub udpssz : ℕ
  pub udprcv : ℕ
  pub udprsz : ℕ
  pub rawsnd : ℕ
  pub rawrcv : ℕ
  pub totalnetsnd : ℕ
  pub totalnetrcv : ℕ

-- struct memory
pub record Memory : Type 0 where
  pub memory_used : ℕ
  pub total_active : ℕ
  pub cpu_accesses : ℕ

-- struct pid_stats; `cfuture` is reserved and never used.
pub record PidStats : Type 0 where
  pub read_bytes : ℕ
  pub write_bytes : ℕ
  pub cancelled_write_bytes : ℕ
  pub total_vsz : ℕ
  pub total_rss : ℕ
  pub minflt : ℕ
  pub cminflt : ℕ
  pub majflt : ℕ
  pub cmajflt : ℕ
  pub utime : ℕ
  pub cutime : ℕ
  pub stime : ℕ
  pub cstime : ℕ
  pub gtime : ℕ
  pub cgtime : ℕ
  pub vsz : ℕ
  pub rss : ℕ
  pub nvcsw : ℕ
  pub nivcsw : ℕ
  pub processor : ℕ
  pub pid : ℕ
  pub comm : List ℕ
  pub dsk : Dsk
  pub net : Net
  pub mem : Memory

abbrev zero_dsk : Dsk
zero_dsk = record { rio = 0; rsz = 0; wio = 0; wsz = 0; cwsz = 0 }

abbrev zero_net : Net
zero_net = record {
  tcpsnd = 0;
  tcpssz = 0;
  tcprcv = 0;
  tcprsz = 0;
  udpsnd = 0;
  udpssz = 0;
  udprcv = 0;
  udprsz = 0;
  rawsnd = 0;
  rawrcv = 0;
  totalnetsnd = 0;
  totalnetrcv = 0;
}

abbrev zero_memory : Memory
zero_memory = record { memory_used = 0; total_active = 0; cpu_accesses = 0 }

-- What `memset(pst, 0, sizeof(struct pid_stats))` leaves.
abbrev pub zero_pid_stats : PidStats
zero_pid_stats = record {
  read_bytes = 0;
  write_bytes = 0;
  cancelled_write_bytes = 0;
  total_vsz = 0;
  total_rss = 0;
  minflt = 0;
  cminflt = 0;
  majflt = 0;
  cmajflt = 0;
  utime = 0;
  cutime = 0;
  stime = 0;
  cstime = 0;
  gtime = 0;
  cgtime = 0;
  vsz = 0;
  rss = 0;
  nvcsw = 0;
  nivcsw = 0;
  processor = 0;
  pid = 0;
  comm = [];
  dsk = zero_dsk;
  net = zero_net;
  mem = zero_memory;
}

-- struct device_energy, over the type of `float`
pub record DeviceEnergy (F : Type 0) : Type 0 where
  pub time : ℤ
  pub ecpu : F
  pub emem : F
  pub enet : F
  pub edisk : F

-- struct process_energy
pub record ProcessEnergy (F : Type 0) : Type 0 where
  pub pid : ℤ
  pub time : ℤ
  pub ecpu : F
  pub emem : F
  pub enet : F
  pub edisk : F
  pub cmdline : List ℕ

-- struct process_info
pub record ProcessInfo (F : Type 0) : Type 0 where
  pub read_bytes : F
  pub write_bytes : F
  pub cancelled_write_bytes : F
  pub vsz : ℕ
  pub rss : ℕ
  pub mem : F
  pub minflt : F
  pub majflt : F
  pub utime : F
  pub stime : F
  pub gtime : F
  pub cpu : F
  pub cswch : F
  pub nvcswch : F
  pub pid : ℕ
  pub time : ℕ
  pub cmdline : List ℕ
  pub netsnd : F
  pub netrcv : F
  pub ratio : F
  pub cpu_accesses : ℕ

-- struct sys_info
pub record SysInfo (F : Type 0) : Type 0 where
  pub time : ℕ
  pub totalnetsnd : ℕ
  pub totalnetrcv : ℕ
  pub totaldiskread : ℕ
  pub totaldiskwrite : ℕ
  pub cpupower : F
  pub memaccess : ℕ
  pub itv : ℕ
  pub runtime : ℕ
  pub active_process_num : ℤ
