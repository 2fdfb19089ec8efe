-- ===== src/Monitor/Sample/Unclamped.antt =====
-- ptop.c, write_stat: the walk changes three times of a sample, and nothing else of it.
use ptop.Prelude.{◌≡◌, some, arith}
use ptop.Records.{PidStats}
use ptop.AvlTree.{AvlNode}
use ptop.Monitor.Activity.{SameCounters}
use ptop.Monitor.Sample.{clamp_times}

-- The counters that the walk never changes, all equal, and the pid.
pub record SameUnclamped (a b : PidStats) : Type 0 where
  pub pid : a.pid ≡ b.pid
  pub cutime : a.cutime ≡ b.cutime
  pub cstime : a.cstime ≡ b.cstime
  pub minflt : a.minflt ≡ b.minflt
  pub majflt : a.majflt ≡ b.majflt
  pub vsz : a.vsz ≡ b.vsz
  pub rss : a.rss ≡ b.rss
  pub cminflt : a.cminflt ≡ b.cminflt
  pub cmajflt : a.cmajflt ≡ b.cmajflt
  pub read_bytes : a.read_bytes ≡ b.read_bytes
  pub write_bytes : a.write_bytes ≡ b.write_bytes
  pub cancelled_write_bytes : a.cancelled_write_bytes ≡ b.cancelled_write_bytes
  pub nvcsw : a.nvcsw ≡ b.nvcsw
  pub nivcsw : a.nivcsw ≡ b.nivcsw

pub SameUnclamped-refl : (a : PidStats) → SameUnclamped a a
SameUnclamped-refl a = ground arith

pub SameUnclamped-symm : (a b : PidStats) → SameUnclamped a b → SameUnclamped b a
SameUnclamped-symm a b h = ground arith

pub SameUnclamped-moved :
    (a b u v : PidStats)
    → SameUnclamped u a
    → SameUnclamped v b
    → SameUnclamped u v
    → SameUnclamped a b
SameUnclamped-moved a b u v h j e = ground arith

pub clamp_times-SameUnclamped : (a b : PidStats) → SameUnclamped (clamp_times a b) a
unfolding clamp_times
clamp_times-SameUnclamped a b = ground arith

pub SameCounters-SameUnclamped :
    (a b : PidStats) → a.pid ≡ b.pid → SameCounters a b → SameUnclamped a b
SameCounters-SameUnclamped a b e h = ground arith

-- A node with both samples, which are given ones but for their times.
pub record Samples (s0 s1 : PidStats) (p : AvlNode) : Type 0 where
  pub u0 : PidStats
  pub u1 : PidStats
  pub e0 : p.pst_list0 ≡ some u0
  pub e1 : p.pst_list1 ≡ some u1
  pub same0 : SameUnclamped u0 s0
  pub same1 : SameUnclamped u1 s1
