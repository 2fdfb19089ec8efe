-- ===== src/Monitor/Collect/Widths.antt =====
-- ptop.c, read_process_stats: the samples that a pass over /proc leaves in the tree fit the fields
-- of struct pid_stats.
use ptop.Prelude.{
  ℕ, ◌<◌, ◌≡◌, refl, Bool, true, false, not, Option, none, some, List, [], ◌∷◌, ◌==◌, arith,
  Bool-cases, inl, inr, Returns, Returns-bind, IfReturns, IfReturns-bind,
}
use ptop.Prelude.Int.{ℤ, negsuc, int_of_u32, pos}
use ptop.Common.{u32_of_int, u32_mod, u64_mod}
use ptop.Files.{Text, File, Libc, Run, goes_on, exits, OnRun, is_digit}
use ptop.Records.{PidStats, SysInfo, zero_pid_stats}
use ptop.MStats.{StatSmaps}
use ptop.Perf.{Kernel}
use ptop.PidStats.{ProcFiles, read_proc_pid_stat, read_proc_pid_status, read_proc_pid_io}
use ptop.PidStats.Outcome.{SameButFd}
use ptop.PidStats.Widths.{
  FitsStats, FitsLibc, FitsLine, FitsKernel, zero_pid_stats-FitsStats, with_pid,
}
use ptop.PidStats.Widths.Readers.{
  read_proc_pid_stat-FitsStats, read_proc_pid_status-FitsStats, read_proc_pid_io-FitsStats,
  read_proc_pid_mem-FitsStats,
}
use ptop.CpuStats.{read_stat_cpu}
use ptop.AvlTree.{AvlNode, AvlTree, find, insert, fresh}
use ptop.AvlTree.Contract.{IsAvl, insert-refines}
use ptop.AvlTree.Nodes.{AllNodes, AllNodes-add, find-AllNodes, store_node-AllNodes}
use ptop.AvlTree.Shape.{IsAllocated, IsMember}
use ptop.Monitor.Activity.{is_active}
use ptop.Monitor.Collect.{
  put_sample, finish_mem, read_pid_stats, keep_sample, sample_pair, sample_node, ensure,
  read_process, read_entries, read_process_stats,
}
use ptop.Monitor.Collect.Nodes.{
  OnRun-if, OnRun-any, then_run-OnRun, then_run-IfReturns, both_return, read_pid_stats-SameButFd,
}
use ptop.Monitor.Collect.Pass.{Kept, read_process-Kept}

abbrev pub FitsSlot : Option PidStats → Type 0
FitsSlot none = Unit
FitsSlot (some s) = FitsStats s

-- Both samples of a node fit.
abbrev pub FitsNode : AvlNode → Type 0
FitsNode p = FitsSlot p.pst_list0 × FitsSlot p.pst_list1

abbrev pub FitsTree : AvlTree → Type 0
FitsTree = AllNodes FitsNode

-- The numbers in the files of the processes fit their conversions.
abbrev pub FitsEntries : List (Text × ProcFiles) → Type 0
FitsEntries [] = Unit
FitsEntries ((name, files) ∷ entries) = FitsLine files.stat × FitsEntries entries

pub u32_of_int_under : (x : ℤ) → u32_of_int x < u32_mod
u32_of_int_under (pos n) = omega arith
u32_of_int_under (negsuc n) = omega arith

fresh-FitsNode : (x fd : ℤ) → FitsNode (fresh x fd)
unfolding fresh
fresh-FitsNode x fd = (zero_pid_stats-FitsStats, zero_pid_stats-FitsStats)

put_sample-FitsNode :
    (b : Bool) (p q : AvlNode) (s : PidStats)
    → FitsNode p
    → SameButFd p q
    → FitsStats s
    → FitsNode (put_sample b q s)
unfolding put_sample
put_sample-FitsNode true p q s f h v = (rw h.pst_list0 f.0, v)
put_sample-FitsNode false p q s f h v = (v, rw h.pst_list1 f.1)

insert-FitsTree :
    (x fd : ℤ) (t : AvlTree) → IsAvl t → FitsTree t → IfReturns FitsTree (insert x fd t)
insert-FitsTree x fd t v f =
    let (t', i, w, s) = insert-refines x fd t v in
    rw i (AllNodes-add FitsNode x fd t t' s (fresh-FitsNode x fd) f)

found-FitsNode : (x : ℤ) (t : AvlTree) → FitsTree t → IfReturns FitsNode (find x t)
found-FitsNode x t f = each (find x t) refl
  where
    each : (o : Option AvlNode) → find x t ≡ o → IfReturns FitsNode o
    each none e = tt
    each (some p) e = find-AllNodes FitsNode x t p f e

module _ (c : Libc) (k : Kernel) (scanned : StatSmaps) (garbage page_shift : ℕ) (fits : FitsLibc c)
    (delivers : FitsKernel k) (under : garbage < u64_mod) where
  finish_mem-FitsStats :
      (r : Run (ℕ × AvlNode × PidStats))
      → OnRun (λ r. FitsStats r.2) r
      → OnRun (λ r. FitsStats r.2) (finish_mem c k scanned garbage page_shift r)
  unfolding finish_mem
  finish_mem-FitsStats (exits n) h = tt
  finish_mem-FitsStats (goes_on (status, q, s)) h = h

  read_pid_stats-FitsStats :
      (pid : ℕ) (files : ProcFiles) (pstj : PidStats) (p : AvlNode)
      → pid < u32_mod
      → FitsLine files.stat
      → OnRun (λ r. FitsStats r.2) (read_pid_stats c k scanned garbage page_shift pid files pstj p)
  unfolding read_pid_stats
  read_pid_stats-FitsStats pid files pstj p small line =
      let r1 = read_proc_pid_stat c page_shift pid files zero_pid_stats in
      let r2 = read_proc_pid_status c pid files.status r1.1 in
      let r3 = read_proc_pid_io c pid files.io r2.1 in
      let v1 =
        read_proc_pid_stat-FitsStats c fits page_shift pid files zero_pid_stats small line
          zero_pid_stats-FitsStats in
      let v2 = read_proc_pid_status-FitsStats c fits pid files.status r1.1 small v1 in
      let v3 = read_proc_pid_io-FitsStats c fits pid files.io r2.1 small v2 in
      let Fit = λ (r : ℕ × AvlNode × PidStats). FitsStats r.2 in
      OnRun-if Fit (not (r1.0 == 0)) (goes_on (1, p, r1.1)) _ v1 (
        OnRun-if Fit (not (r2.0 == 0)) (goes_on (1, p, r2.1)) _ v2 (
          OnRun-if Fit (not (r3.0 == 0)) (goes_on (1, p, r3.1)) _ v3 (
            finish_mem-FitsStats _ (
              read_proc_pid_mem-FitsStats c fits k delivers scanned garbage pid files
                (is_active pstj (some r3.1)) p r3.1 under v3))))

  module _ (curr : Bool) where
    keep_sample-FitsNode :
        (p : AvlNode) (r : Run (ℕ × AvlNode × PidStats))
        → FitsNode p
        → OnRun (λ r. SameButFd p r.1) r
        → OnRun (λ r. FitsStats r.2) r
        → OnRun FitsNode (keep_sample c k scanned garbage page_shift curr r)
    unfolding keep_sample
    keep_sample-FitsNode p (exits n) f h v = tt
    keep_sample-FitsNode p (goes_on (status, q, s)) f h v = elim (Bool-cases (status == 0)) [
      | inl done ↦ rw done (put_sample-FitsNode curr p q s f h v)
      | inr gone ↦
          rw gone
            (put_sample-FitsNode curr p q (record s { pid = 0 }) f h (with_pid s 0 (omega arith) v))
    ]

    sample_pair-FitsNode :
        (pid : ℕ) (files : ProcFiles) (p : AvlNode) (o0 o1 : Option PidStats)
        → pid < u32_mod
        → FitsLine files.stat
        → FitsNode p
        → IfReturns
            (OnRun FitsNode)
            (sample_pair c k scanned garbage page_shift curr pid files p o0 o1)
    unfolding sample_pair
    sample_pair-FitsNode pid files p none o1 small line f = tt
    sample_pair-FitsNode pid files p (some s0) none small line f = tt
    sample_pair-FitsNode pid files p (some s0) (some s1) small line f =
        keep_sample-FitsNode p _ f
          (read_pid_stats-SameButFd c k scanned garbage page_shift pid files _ p)
          (read_pid_stats-FitsStats pid files _ p small line)

    ensure-FitsTree :
        (x : ℤ) (t : AvlTree) (o : Option AvlNode)
        → IsAvl t
        → FitsTree t
        → IfReturns FitsTree (ensure c k scanned garbage page_shift curr x t o)
    unfolding ensure
    ensure-FitsTree x t none v f = insert-FitsTree x (negsuc 0) t v f
    ensure-FitsTree x t (some p) v f = f

    read_process-FitsTree :
        (pid : ℕ) (files : ProcFiles) (t : AvlTree)
        → pid < u32_mod
        → FitsLine files.stat
        → IsAvl t
        → FitsTree t
        → IfReturns (OnRun FitsTree) (read_process c k scanned garbage page_shift curr pid files t)
    unfolding read_process sample_node
    read_process-FitsTree pid files t small line v f =
        let x = int_of_u32 pid in
        IfReturns-bind FitsTree _ (ensure c k scanned garbage page_shift curr x t (find x t)) _
          (ensure-FitsTree x t (find x t) v f)
          λ u g. IfReturns-bind FitsNode _ (find x u) _ (found-FitsNode x u g) λ p fp.
            IfReturns-bind (OnRun FitsNode) _
              (sample_node c k scanned garbage page_shift curr pid files p) _
              (sample_pair-FitsNode pid files p p.pst_list0 p.pst_list1 small line fp)
              λ r h.
                then_run-IfReturns FitsNode FitsTree r _ h
                  λ q fq. store_node-AllNodes FitsNode x q u fq g

    read_entries-FitsTree :
        (entries : List (Text × ProcFiles)) (t : AvlTree)
        → FitsEntries entries
        → IsAvl t
        → IsAllocated t
        → FitsTree t
        → Returns (OnRun FitsTree) (read_entries c k scanned garbage page_shift curr entries t)
    unfolding read_entries
    read_entries-FitsTree [] t e v a f = f
    read_entries-FitsTree (([], files) ∷ entries) t e v a f =
        read_entries-FitsTree entries t e.1 v a f
    read_entries-FitsTree ((d ∷ ds, files) ∷ entries) t e v a f = elim (Bool-cases (is_digit d)) [
      | inr other ↦ rw other (read_entries-FitsTree entries t e.1 v a f)
      | inl digit ↦ rw digit (
          let pid = u32_of_int (c.atoi (d ∷ ds)) in
          let KeptTree = λ (t' : AvlTree).
            Kept c k scanned garbage page_shift curr t t' × IsMember (int_of_u32 pid) t' in
          let run = read_process c k scanned garbage page_shift curr pid files t in
          Returns-bind (OnRun (λ t'. KeptTree t' × FitsTree t')) _ run _
            (both_return KeptTree FitsTree run
              (read_process-Kept c k scanned garbage page_shift curr pid files t v a)
              (read_process-FitsTree pid files t (u32_of_int_under (c.atoi (d ∷ ds))) e.0 v f))
            λ r h.
              then_run-OnRun (λ t'. KeptTree t' × FitsTree t') FitsTree r _ h
                λ u j. read_entries-FitsTree entries u e.1 j.0.0.avl j.0.0.allocated j.1)
    ]

    -- In a tree with the invariant, of whose nodes both samples are allocated and hold values of
    -- the C types of their fields, the pass over /proc returns, and if no file ends the program,
    -- the samples hold such values again: each field of struct pid_stats is below 2^32 or 2^64, as
    -- it is declared, and the name with its final zero has at most 16 bytes. The C library is taken
    -- to convert numbers into the type of the conversion, and the kernel to deliver 64 bits.
    pub read_process_stats-FitsTree :
        {F : Type 0} (stat : File) (entries : List (Text × ProcFiles)) (sys : SysInfo F)
        (t : AvlTree)
        → FitsEntries entries
        → IsAvl t
        → IsAllocated t
        → FitsTree t
        → Returns
            (OnRun (λ r. FitsTree r.1))
            (read_process_stats c k scanned garbage page_shift curr stat (some entries) sys t)
    unfolding read_process_stats
    read_process_stats-FitsTree stat entries sys t e v a f =
        then_run-OnRun (λ _. Unit) _ (read_stat_cpu c stat sys) _ (OnRun-any _)
          λ sys' _.
            Returns-bind (OnRun FitsTree) _
              (read_entries c k scanned garbage page_shift curr entries t) _
              (read_entries-FitsTree entries t e v a f)
              λ r h. then_run-OnRun FitsTree _ r _ h λ t' j. j
