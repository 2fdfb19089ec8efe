-- ===== src/Monitor/Collect.antt =====
-- ptop.c, read_process_stats: the pass over /proc, which samples every process into its node of
-- the tree.
pub mod Nodes
pub mod Counter
pub mod Pass
pub mod Refinement
pub mod Slots
pub mod Widths
use ptop.Prelude.{
  ℕ, zero, suc, Bool, true, false, not, Option, none, some, List, [], ◌∷◌, ◌==◌, ◌>>=◌,
  if◌then◌else◌,
}
use ptop.Prelude.Int.{ℤ, pos, negsuc, int_of_u32}
use ptop.Common.{u32_of_int}
use ptop.Files.{Text, File, Libc, Run, goes_on, exits, is_digit}
use ptop.Records.{PidStats, SysInfo, zero_pid_stats}
use ptop.MStats.{StatSmaps}
use ptop.Perf.{Kernel}
use ptop.PidStats.{
  ProcFiles, read_proc_pid_stat, read_proc_pid_status, read_proc_pid_io, read_proc_pid_mem,
}
use ptop.CpuStats.{read_stat_cpu}
use ptop.AvlTree.{AvlNode, AvlTree, find, insert, store_node}
use ptop.Monitor.Activity.{is_active}

-- `pst_list[curr] = s`
unfoldable pub put_sample : Bool → AvlNode → PidStats → AvlNode
put_sample true p s = record p { pst_list1 = some s }
put_sample false p s = record p { pst_list0 = some s }

-- Any status but 0 is 1.
abbrev pub failed : ℕ → ℕ
failed n = if n == 0 then 0 else 1

-- After a run that may have ended the program.
abbrev pub then_run {ℓ κ} :
    {A : Type ℓ} {B : Type κ} → Run A → (A → Option (Run B)) → Option (Run B)
then_run (exits n) f = some (exits n)
then_run (goes_on a) f = f a

-- `scanned` and `garbage` are what uninitialised variables hold, `page_shift` is `kb_shift`.
module _ (c : Libc) (k : Kernel) (scanned : StatSmaps) (garbage page_shift : ℕ) where
  finish_mem : Run (ℕ × AvlNode × PidStats) → Run (ℕ × AvlNode × PidStats)
  finish_mem (exits n) = exits n
  finish_mem (goes_on (status, p, pst)) = goes_on (failed status, p, pst)

  -- The status, the node, and the sample, which is cleared first; `pstj` is the previous sample.
  unfoldable pub read_pid_stats : ℕ → ProcFiles → PidStats → AvlNode → Run (ℕ × AvlNode × PidStats)
  unfolding finish_mem
  read_pid_stats pid files pstj p =
      let (e1, s1) = read_proc_pid_stat c page_shift pid files zero_pid_stats in
      let (e2, s2) = read_proc_pid_status c pid files.status s1 in
      let (e3, s3) = read_proc_pid_io c pid files.io s2 in
      if not (e1 == 0)
      then goes_on (1, p, s1)
      else if not (e2 == 0)
      then goes_on (1, p, s2)
      else if not (e3 == 0)
      then goes_on (1, p, s3)
      else finish_mem
          (read_proc_pid_mem c k scanned garbage pid files (is_active pstj (some s3)) p s3)

  module _ (curr : Bool) where
    -- The sample is stored, with the pid 0 if the process has gone.
    unfoldable pub keep_sample : Run (ℕ × AvlNode × PidStats) → Run AvlNode
    unfolding put_sample
    keep_sample (exits n) = exits n
    keep_sample (goes_on (status, p, s)) =
        goes_on (put_sample curr p (if status == 0 then s else record s { pid = 0 }))

    -- The node with its two samples at hand. A null sample is a fault: salloc_pid allocates both.
    unfoldable pub sample_pair :
        ℕ → ProcFiles → AvlNode → Option PidStats → Option PidStats → Option (Run AvlNode)
    unfolding keep_sample
    sample_pair pid files p none s1 = none
    sample_pair pid files p (some s0) none = none
    sample_pair pid files p (some s0) (some s1) =
        some (keep_sample (read_pid_stats pid files (if curr then s0 else s1) p))

    unfoldable pub sample_node : ℕ → ProcFiles → AvlNode → Option (Run AvlNode)
    unfolding sample_pair
    sample_node pid files p = sample_pair pid files p p.pst_list0 p.pst_list1

    -- A node for the process, a new one if it has none.
    unfoldable pub ensure : ℤ → AvlTree → Option AvlNode → Option AvlTree
    ensure x t (some p) = some t
    ensure x t none = insert x (negsuc 0) t

    unfoldable pub read_process : ℕ → ProcFiles → AvlTree → Option (Run AvlTree)
    unfolding ensure
    read_process pid files t = ensure (int_of_u32 pid) t (find (int_of_u32 pid) t) >>= λ t'.
        find (int_of_u32 pid) t' >>= λ p. sample_node pid files p >>= λ r.
        then_run r λ p'. some (goes_on (store_node (int_of_u32 pid) p' t'))

    -- The entries of /proc, in the order of `readdir`, each with the files of the process.
    unfoldable pub read_entries : List (Text × ProcFiles) → AvlTree → Option (Run AvlTree)
    read_entries [] t = some (goes_on t)
    read_entries (([], files) ∷ entries) t = read_entries entries t
    read_entries ((d ∷ ds, files) ∷ entries) t =
        if is_digit d
        then (read_process (u32_of_int (c.atoi (d ∷ ds))) files t >>= λ r.
            then_run r λ t'. read_entries entries t')
        else read_entries entries t

    unfoldable pub read_process_stats :
        {F : Type 0}
        → File
        → Option (List (Text × ProcFiles))
        → SysInfo F
        → AvlTree
        → Option (Run (SysInfo F × AvlTree))
    unfolding read_entries
    read_process_stats stat dir sys t = then_run (read_stat_cpu c stat sys) λ sys'. elim dir [
      | none ↦ some (exits 4)
      | some entries ↦ (read_entries entries t >>= λ r. then_run r λ t'. some (goes_on (sys', t')))
    ]
