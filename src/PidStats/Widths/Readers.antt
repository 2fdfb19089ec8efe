-- ===== src/PidStats/Widths/Readers.antt =====
-- pid_stats.c: the four readers leave a sample whose fields fit their types.
use ptop.Prelude.{
  ℕ, ◌<◌, ◌≡◌, refl, Option, none, some, List, [], ◌∷◌, arith, drop, codes, Bool-cases, inl, inr,
}
use ptop.Prelude.Int.{ℤ, pos, ltb_ℤ}
use ptop.Common.{u32_mod, u64_mod}
use ptop.Files.{Text, File, Libc, Run, goes_on, exits, OnRun, starts_with}
use ptop.Records.{PidStats}
use ptop.MStats.{StatSmaps, read_smaps, total_active_memory, active_line}
use ptop.Perf.{Kernel, read_counter, or_zero}
use ptop.AvlTree.{AvlNode}
use ptop.PidStats.{
  StatLine, ProcFiles, read_again, read_stat, read_proc_pid_stat, status_lines,
  read_proc_pid_status, io_lines, read_proc_pid_io, store_mem, read_proc_pid_mem, counter_of,
}
use ptop.PidStats.Widths.{
  FitsStats, FitsLibc, FitsLine, FitsKernel, assigned_under, store_stat-FitsStats,
  store_net-FitsStats, with_switches, with_bytes, with_pid, with_mem,
}

or_zero_under : (o : Option ℕ) → ((n : ℕ) → o ≡ some n → n < u64_mod) → or_zero o < u64_mod
or_zero_under none h = omega arith
or_zero_under (some n) h = h n refl

read_counter_under : (k : Kernel) (fd : ℤ) → FitsKernel k → read_counter k fd < u64_mod
unfolding read_counter
read_counter_under k fd h = elim (Bool-cases (ltb_ℤ (pos 0) fd)) [
  | inl held ↦ rw held (or_zero_under (k.read fd) (h fd))
  | inr shut ↦ rw shut (omega arith)
]

module _ (c : Libc) (fits : FitsLibc c) where
  read_again-FitsStats : (s : PidStats) (f : File) → FitsStats s → FitsStats (read_again c s f).1
  unfolding read_again
  read_again-FitsStats s none v = v
  read_again-FitsStats s (some []) v = v
  read_again-FitsStats s (some (line ∷ [])) v = v
  read_again-FitsStats s (some (line ∷ second ∷ _)) v =
      store_net-FitsStats (c.scan_numbers second) s (fits.numbers second) v

  read_stat-FitsStats :
      (page_shift pid : ℕ) (line : Option StatLine) (f : File) (s : PidStats)
      → pid < u32_mod
      → FitsLine line
      → FitsStats s
      → FitsStats (read_stat c page_shift pid line f s).1
  unfolding read_stat
  read_stat-FitsStats page_shift pid none f s p h v = v
  read_stat-FitsStats page_shift pid (some line) f s p h v =
      read_again-FitsStats _ f (store_stat-FitsStats page_shift pid line s p h v)

  pub read_proc_pid_stat-FitsStats :
      (page_shift pid : ℕ) (files : ProcFiles) (s : PidStats)
      → pid < u32_mod
      → FitsLine files.stat
      → FitsStats s
      → FitsStats (read_proc_pid_stat c page_shift pid files s).1
  unfolding read_proc_pid_stat
  read_proc_pid_stat-FitsStats page_shift pid files s p h v =
      read_stat-FitsStats page_shift pid files.stat files.stat_again s p h v

  status_lines-FitsStats :
      (lines : List Text) (s : PidStats) → FitsStats s → FitsStats (status_lines c lines s)
  unfolding status_lines
  status_lines-FitsStats [] s v = v
  status_lines-FitsStats (line ∷ lines) s v =
      status_lines-FitsStats lines _
        (elim (Bool-cases (starts_with (codes "voluntary_ctxt_switches:") line)) [
          | inl one ↦ rw one (
              with_switches s _ s.nivcsw
                (assigned_under u32_mod _ 0 s.nvcsw (fits.voluntary line one) v.nvcsw) v.nivcsw v)
          | inr one ↦ elim (Bool-cases (starts_with (codes "nonvoluntary_ctxt_switches:") line)) [
            | inl two ↦
                rw (one, two)
                  (with_switches s s.nvcsw _ v.nvcsw
                    (assigned_under u32_mod _ 0 s.nivcsw (fits.nonvoluntary line two) v.nivcsw) v)
            | inr two ↦ rw (one, two) v
          ]
        ])

  pub read_proc_pid_status-FitsStats :
      (pid : ℕ) (f : File) (s : PidStats)
      → pid < u32_mod
      → FitsStats s
      → FitsStats (read_proc_pid_status c pid f s).1
  unfolding read_proc_pid_status
  read_proc_pid_status-FitsStats pid none s p v = v
  read_proc_pid_status-FitsStats pid (some lines) s p v =
      with_pid _ pid p (status_lines-FitsStats lines s v)

  io_lines-FitsStats :
      (lines : List Text) (s : PidStats) → FitsStats s → FitsStats (io_lines c lines s)
  unfolding io_lines
  io_lines-FitsStats [] s v = v
  io_lines-FitsStats (line ∷ lines) s v =
      let at = λ (skip old : ℕ) (o : old < u64_mod).
        assigned_under u64_mod (c.scan_numbers (drop skip line)) 0 old
          (fits.numbers (drop skip line)) o in
      io_lines-FitsStats lines _ (elim (Bool-cases (starts_with (codes "read_bytes:") line)) [
        | inl one ↦ rw one (
            with_bytes s _ s.write_bytes s.cancelled_write_bytes (at 12 s.read_bytes v.read_bytes)
              v.write_bytes v.cancelled_write_bytes v)
        | inr one ↦ elim (Bool-cases (starts_with (codes "write_bytes:") line)) [
          | inl two ↦
              rw (one, two)
                (with_bytes s s.read_bytes _ s.cancelled_write_bytes v.read_bytes
                  (at 13 s.write_bytes v.write_bytes) v.cancelled_write_bytes v)
          | inr two ↦ elim (Bool-cases (starts_with (codes "cancelled_write_bytes:") line)) [
            | inl three ↦
                rw (one, two, three)
                  (with_bytes s s.read_bytes s.write_bytes _ v.read_bytes v.write_bytes
                    (at 23 s.cancelled_write_bytes v.cancelled_write_bytes) v)
            | inr three ↦ rw (one, two, three) v
          ]
        ]
      ])

  pub read_proc_pid_io-FitsStats :
      (pid : ℕ) (f : File) (s : PidStats)
      → pid < u32_mod
      → FitsStats s
      → FitsStats (read_proc_pid_io c pid f s).1
  unfolding read_proc_pid_io
  read_proc_pid_io-FitsStats pid none s p v = v
  read_proc_pid_io-FitsStats pid (some lines) s p v =
      with_pid _ pid p (io_lines-FitsStats lines s v)

  active_line_under :
      (lines : List Text) (active : ℕ) → active < u64_mod → active_line c lines active < u64_mod
  unfolding active_line
  active_line_under [] active h = h
  active_line_under (line ∷ lines) active h =
      elim (Bool-cases (starts_with (codes "Active:") line)) [
        | inl here ↦ rw here (assigned_under u64_mod _ 0 active (fits.numbers (drop 7 line)) h)
        | inr other ↦ rw other (active_line_under lines active h)
      ]

  total_active_memory_under :
      (active : ℕ) (f : File)
      → active < u64_mod
      → OnRun (λ n. n < u64_mod) (total_active_memory c active f)
  unfolding total_active_memory
  total_active_memory_under active none h = tt
  total_active_memory_under active (some lines) h = active_line_under lines active h

  module _ (k : Kernel) (delivers : FitsKernel k) where
    store_mem-FitsStats :
        (counter : ℤ) (p : AvlNode) (s : PidStats) (a : Run StatSmaps) (b : Run ℕ)
        → OnRun (λ n. n < u64_mod) b
        → FitsStats s
        → OnRun (λ r. FitsStats r.2) (store_mem c k counter p s a b)
    unfolding store_mem
    store_mem-FitsStats counter p s (exits n) b h v = tt
    store_mem-FitsStats counter p s (goes_on x) (exits n) h v = tt
    store_mem-FitsStats counter p s (goes_on x) (goes_on total) h v =
        with_mem s _
          (record {
            memory_used = omega arith;
            total_active = h;
            cpu_accesses = read_counter_under k counter delivers;
          })
          v

    pub read_proc_pid_mem-FitsStats :
        (scanned : StatSmaps) (garbage pid : ℕ) (files : ProcFiles) (active : ℤ) (p : AvlNode)
        (s : PidStats)
        → garbage < u64_mod
        → FitsStats s
        → OnRun (λ r. FitsStats r.2) (read_proc_pid_mem c k scanned garbage pid files active p s)
    unfolding read_proc_pid_mem
    read_proc_pid_mem-FitsStats scanned garbage pid files active p s g v =
        store_mem-FitsStats (counter_of c k pid active p) p s (read_smaps c scanned files.smaps)
          (total_active_memory c garbage files.meminfo)
          (total_active_memory_under garbage files.meminfo g) v
