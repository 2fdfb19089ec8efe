-- ===== src/Monitor/Activity.antt =====
-- ptop.c, is_active: whether a process did anything between two samples.
use ptop.Prelude.{
  ℕ, ◌≡◌, ◌≢◌, ◌↔◌, ◌⊎◌, inl, inr, Bool, true, not, ◌||◌, Option, none, some, arith, ◌==◌,
  if◌then◌else◌,
}
use ptop.Prelude.Int.{ℤ, pos, negsuc}
use ptop.Records.{PidStats}

infix 50 ◌!=◌
abbrev ◌!=◌ : ℕ → ℕ → Bool
a != b = not (a == b)

-- The tests behind the check of the pid, in the order of the source; its last two lines leave -1,
-- since nothing sets `isActive`. The groups are functions of their own.
times_changed : PidStats → PidStats → Bool
times_changed psti pstj =
    if (psti.utime != pstj.utime) || (psti.stime != pstj.stime)
    then true
    else (psti.cutime != pstj.cutime) || (psti.cstime != pstj.cstime)

memory_changed : PidStats → PidStats → Bool
memory_changed psti pstj =
    if (psti.minflt != pstj.minflt) || (psti.majflt != pstj.majflt)
    then true
    else if (psti.vsz != pstj.vsz) || (psti.rss != pstj.rss)
    then true
    else (psti.cminflt != pstj.cminflt) || (psti.cmajflt != pstj.cmajflt)

io_changed : PidStats → PidStats → Bool
io_changed psti pstj =
    (psti.read_bytes != pstj.read_bytes)
    || (psti.write_bytes != pstj.write_bytes)
    || (psti.cancelled_write_bytes != pstj.cancelled_write_bytes)

switches_changed : PidStats → PidStats → Bool
switches_changed psti pstj = (psti.nvcsw != pstj.nvcsw) || (psti.nivcsw != pstj.nivcsw)

unfoldable pub is_active : PidStats → Option PidStats → ℤ
unfolding times_changed memory_changed io_changed switches_changed
is_active pstj none = pos 0
is_active pstj (some psti) =
    if psti.pid == 0
    then pos 0
    else if times_changed psti pstj
    then pos 1
    else if memory_changed psti pstj
    then pos 1
    else if io_changed psti pstj
    then pos 1
    else if switches_changed psti pstj
    then pos 1
    else negsuc 0

-- The counters that the function compares are all equal.
pub record SameCounters (a b : PidStats) : Type 0 where
  pub utime : a.utime ≡ b.utime
  pub stime : a.stime ≡ b.stime
  pub cutime : a.cutime ≡ b.cutime
  pub cstime : a.cstime ≡ b.cstime
  pub minflt : a.minflt ≡ b.minflt
  pub majflt : a.majflt ≡ b.majflt
  pub vsz : a.vsz ≡ b.vsz
  pub rss : a.rss ≡ b.rss
  pub cminflt : a.cminflt ≡ b.cminflt
  pub cmajflt : a.cmajflt ≡ b.cmajflt
  pub read_bytes : a.read_bytes ≡ b.read_bytes
  pub write_bytes : a.write_bytes ≡ b.write_bytes
  pub cancelled_write_bytes : a.cancelled_write_bytes ≡ b.cancelled_write_bytes
  pub nvcsw : a.nvcsw ≡ b.nvcsw
  pub nivcsw : a.nivcsw ≡ b.nivcsw

is_active_same :
    (pstj psti : PidStats)
    → psti.pid ≢ 0
    → (is_active pstj (some psti) ≡ negsuc 0) ↔ SameCounters psti pstj
unfolding is_active
is_active_same pstj psti h = ground arith

is_active_range :
    (pstj psti : PidStats)
    → psti.pid ≢ 0
    → (is_active pstj (some psti) ≡ pos 1) ⊎ (is_active pstj (some psti) ≡ negsuc 0)
unfolding is_active
is_active_range pstj psti h = ground arith

-- For a process with a pid the answer is -1 exactly when all compared counters are equal, and 1
-- exactly when one of them differs.
pub is_active_iff :
    (pstj psti : PidStats)
    → psti.pid ≢ 0
    → ((is_active pstj (some psti) ≡ negsuc 0) ↔ SameCounters psti pstj)
      × ((is_active pstj (some psti) ≡ pos 1) ↔ (¬ SameCounters psti pstj))
is_active_iff pstj psti h = (
  is_active_same pstj psti h,
  (
    (λ one same. cc (one, (is_active_same pstj psti h).1 same)),
    λ differ. elim (is_active_range pstj psti h) [
      | inl one ↦ one
      | inr minus ↦ absurd (differ ((is_active_same pstj psti h).0 minus))
    ],
  ),
)
