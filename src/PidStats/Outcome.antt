-- ===== src/PidStats/Outcome.antt =====
-- pid_stats.c: what read_proc_pid_mem leaves in the node and in the sample.
use ptop.Prelude.{ℕ, ◌≡◌, refl, arith, if◌then◌else◌}
use ptop.Prelude.Int.{ℤ, pos, ltb_ℤ}
use ptop.Files.{Libc, Run, goes_on, exits, OnRun}
use ptop.MStats.{StatSmaps, read_smaps, total_active_memory}
use ptop.Perf.{Kernel}
use ptop.AvlTree.{AvlNode}
use ptop.Records.{PidStats}
use ptop.PidStats.{ProcFiles, read_proc_pid_mem, store_mem, counter_of}

-- The descriptor of before, if it is open.
abbrev pub kept_fd : ℤ → ℤ → ℤ
kept_fd old new = if ltb_ℤ (pos 0) old then old else new

pub kept_fd_same : (fd : ℤ) → fd ≡ kept_fd fd fd
kept_fd_same fd = ground arith

-- Two nodes that agree but for the descriptor, which is only replaced if it was not open.
pub record SameButFd (p q : AvlNode) : Type 0 where
  pub element : q.element ≡ p.element
  pub pst_list0 : q.pst_list0 ≡ p.pst_list0
  pub pst_list1 : q.pst_list1 ≡ p.pst_list1
  pub held : q.fd ≡ kept_fd p.fd q.fd

module _ (c : Libc) where
  store_mem-SameButFd :
      (k : Kernel) (counter : ℤ) (p : AvlNode) (pst : PidStats) (a : Run StatSmaps) (b : Run ℕ)
      → counter ≡ kept_fd p.fd counter
      → OnRun (λ r. (r.0 ≡ 0) × SameButFd p r.1) (store_mem c k counter p pst a b)
  unfolding store_mem
  store_mem-SameButFd k counter p pst (exits n) b h = tt
  store_mem-SameButFd k counter p pst (goes_on s) (exits n) h = tt
  store_mem-SameButFd k counter p pst (goes_on s) (goes_on total) h =
      (refl, record { element = refl; pst_list0 = refl; pst_list1 = refl; held = h })

  counter_of_kept :
      (k : Kernel) (pid : ℕ) (active : ℤ) (p : AvlNode)
      → counter_of c k pid active p ≡ kept_fd p.fd (counter_of c k pid active p)
  unfolding counter_of
  counter_of_kept k pid active p = ground arith

  -- If the program goes on, the status is 0 and nothing of the node has changed but its
  -- descriptor, if that was not open.
  pub read_proc_pid_mem-SameButFd :
      (k : Kernel) (scanned : StatSmaps) (garbage pid : ℕ) (files : ProcFiles) (active : ℤ)
      (p : AvlNode) (pst : PidStats)
      → OnRun
          (λ r. (r.0 ≡ 0) × SameButFd p r.1)
          (read_proc_pid_mem c k scanned garbage pid files active p pst)
  unfolding read_proc_pid_mem
  read_proc_pid_mem-SameButFd k scanned garbage pid files active p pst =
      store_mem-SameButFd k (counter_of c k pid active p) p pst (read_smaps c scanned files.smaps)
        (total_active_memory c garbage files.meminfo) (counter_of_kept k pid active p)
