-- ===== src/Monitor/Collect/Slots.antt =====
-- ptop.c, read_process_stats: the two samples of a node. A pass writes into the slot `curr`, and the
-- other one keeps the sample of the pass before. A process that /proc no longer lists keeps both.
pub mod Process
pub mod Listing
use ptop.Prelude.{
  ℕ, ◌≡◌, refl, ◌∙◌, Bool, true, false, not, ◌&&◌, ◌||◌, Option, none, some, List, [], ◌∷◌, arith,
  ap, some-inj, if◌then◌else◌, ◌>>=◌, Bool-cases, inl, inr, Returns, Returns-bind, IfReturns,
  IfReturns-bind, IfReturns-imp,
}
use ptop.Prelude.Int.{ℤ, eqb_ℤ, int_of_u32, eq_of_parts}
use ptop.Common.{u32_of_int}
use ptop.Files.{Text, File, Libc, Run, goes_on, exits, OnRun, is_digit}
use ptop.Records.{PidStats, SysInfo, zero_pid_stats}
use ptop.MStats.{StatSmaps}
use ptop.Perf.{Kernel}
use ptop.PidStats.{ProcFiles}
use ptop.PidStats.Outcome.{SameButFd}
use ptop.CpuStats.{read_stat_cpu}
use ptop.AvlTree.{AvlNode, AvlTree, find, fresh}
use ptop.AvlTree.Contract.{IsAvl}
use ptop.AvlTree.Shape.{IsAllocated}
use ptop.Monitor.Collect.{
  then_run, put_sample, keep_sample, sample_pair, sample_node, read_entries, read_process_stats,
}
use ptop.Monitor.Collect.Nodes.{
  read_pid_stats-SameButFd, OnRun-imp, OnRun-any, then_run-OnRun, then_run-IfReturns,
}
use ptop.Monitor.Collect.Pass.{Kept, AllPresent, read_entries-Kept}
use ptop.Monitor.Collect.Refinement.{
  NodeMap, put_node, node_or_fresh, Agrees, sample_process, sample_entries, read_entries-Agrees,
}

abbrev pub or_else : {A : Type 0} → Option A → Option A → Option A
or_else none o = o
or_else (some a) o = some a

-- `pst_list[b]`
abbrev pub slot : Bool → AvlNode → Option PidStats
slot true p = p.pst_list1
slot false p = p.pst_list0

-- The same for a process that may have no node: a new one is cleared.
abbrev pub slot_of : Bool → Option AvlNode → Option PidStats
slot_of b none = some zero_pid_stats
slot_of b (some p) = slot b p

slot-put_sample :
    (b : Bool) (q : AvlNode) (s : PidStats) → slot (not b) (put_sample b q s) ≡ slot (not b) q
unfolding put_sample
slot-put_sample true q s = refl
slot-put_sample false q s = refl

slot-SameButFd : (b : Bool) (p q : AvlNode) → SameButFd p q → slot b q ≡ slot b p
slot-SameButFd true p q h = h.pst_list1
slot-SameButFd false p q h = h.pst_list0

pub slot-node_or_fresh :
    (b : Bool) (x : ℤ) (o : Option AvlNode) → slot b (node_or_fresh x o) ≡ slot_of b o
unfolding fresh
slot-node_or_fresh true x none = refl
slot-node_or_fresh false x none = refl
slot-node_or_fresh b x (some p) = refl

module _ (c : Libc) (k : Kernel) (scanned : StatSmaps) (garbage page_shift : ℕ) (curr : Bool) where
  -- The last entry of /proc for a process, with its pid.
  abbrev pub last_entry : ℤ → List (Text × ProcFiles) → Option (ℕ × ProcFiles)
  last_entry y [] = none
  last_entry y (([], files) ∷ entries) = last_entry y entries
  last_entry y ((d ∷ ds, files) ∷ entries) =
      let pid = u32_of_int (c.atoi (d ∷ ds)) in
      or_else (last_entry y entries)
        (if is_digit d && eqb_ℤ y (int_of_u32 pid) then some (pid, files) else none)

  -- A node that was sampled from the files of a process: sample_node made it of a node whose
  -- previous sample is that of before.
  pub record SampledFrom (pid : ℕ) (files : ProcFiles) (o o' : Option AvlNode) : Type 0 where
    pub p : AvlNode
    pub q : AvlNode
    pub before : slot (not curr) p ≡ slot_of (not curr) o
    pub after : o' ≡ some q
    pub sampled : sample_node c k scanned garbage page_shift curr pid files p ≡ some (goes_on q)

  -- From nodes to nodes: the previous samples are the same, the nodes of the processes that are not
  -- listed are, and the others were sampled from the last entry for them.
  pub record Resampled (entries : List (Text × ProcFiles)) (f f' : NodeMap) : Type 0 where
    pub previous : (y : ℤ) → slot_of (not curr) (f' y) ≡ slot_of (not curr) (f y)
    pub unlisted : (y : ℤ) → last_entry y entries ≡ none → f' y ≡ f y
    pub listed :
        (y : ℤ) (pid : ℕ) (files : ProcFiles)
        → last_entry y entries ≡ some (pid, files)
        → SampledFrom pid files (f y) (f' y)

  slot-keep_sample :
      (p : AvlNode) (r : Run (ℕ × AvlNode × PidStats))
      → OnRun (λ r. SameButFd p r.1) r
      → OnRun
          (λ q. slot (not curr) q ≡ slot (not curr) p)
          (keep_sample c k scanned garbage page_shift curr r)
  unfolding keep_sample
  slot-keep_sample p (exits n) h = tt
  slot-keep_sample p (goes_on (status, q, s)) h =
      slot-put_sample curr q _ ∙ slot-SameButFd (not curr) p q h

  slot-sample_pair :
      (pid : ℕ) (files : ProcFiles) (p : AvlNode) (o0 o1 : Option PidStats)
      → IfReturns
          (OnRun (λ q. slot (not curr) q ≡ slot (not curr) p))
          (sample_pair c k scanned garbage page_shift curr pid files p o0 o1)
  unfolding sample_pair
  slot-sample_pair pid files p none o1 = tt
  slot-sample_pair pid files p (some s0) none = tt
  slot-sample_pair pid files p (some s0) (some s1) =
      slot-keep_sample p _ (read_pid_stats-SameButFd c k scanned garbage page_shift pid files _ p)

  pub slot-sample_node :
      (pid : ℕ) (files : ProcFiles) (p : AvlNode)
      → IfReturns
          (OnRun (λ q. slot (not curr) q ≡ slot (not curr) p))
          (sample_node c k scanned garbage page_shift curr pid files p)
  unfolding sample_node
  slot-sample_node pid files p = slot-sample_pair pid files p p.pst_list0 p.pst_list1
