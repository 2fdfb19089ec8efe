-- ===== src/Monitor/Collect/Slots/Listing.antt =====
-- ptop.c, read_process_stats: what a pass over /proc leaves in the nodes.
use ptop.Prelude.{
  ℕ, refl, Bool, Option, none, some, List, [], ◌∷◌, Bool-cases, inl, inr, Returns, Returns-bind,
  IfReturns, IfReturns-bind, IfReturns-imp,
}
use ptop.Common.{u32_of_int}
use ptop.Files.{Text, File, Libc, Run, goes_on, exits, OnRun, is_digit}
use ptop.Records.{SysInfo}
use ptop.MStats.{StatSmaps}
use ptop.Perf.{Kernel}
use ptop.PidStats.{ProcFiles}
use ptop.CpuStats.{read_stat_cpu}
use ptop.AvlTree.{AvlTree, find}
use ptop.AvlTree.Contract.{IsAvl}
use ptop.AvlTree.Shape.{IsAllocated}
use ptop.Monitor.Collect.{read_entries, read_process_stats}
use ptop.Monitor.Collect.Nodes.{OnRun-imp, OnRun-any, then_run-OnRun, then_run-IfReturns}
use ptop.Monitor.Collect.Pass.{Kept, AllPresent, read_entries-Kept}
use ptop.Monitor.Collect.Refinement.{
  NodeMap, Agrees, sample_process, sample_entries, read_entries-Agrees,
}
use ptop.Monitor.Collect.Slots.{Resampled}
use ptop.Monitor.Collect.Slots.Process.{
  OneSampled, sample_process-OneSampled, then-Resampled, skip-Resampled,
}

module _ (c : Libc) (k : Kernel) (scanned : StatSmaps) (garbage page_shift : ℕ) (curr : Bool) where
  sample_entries-Resampled :
      (entries : List (Text × ProcFiles)) (f : NodeMap)
      → IfReturns
          (OnRun (Resampled c k scanned garbage page_shift curr entries f))
          (sample_entries c k scanned garbage page_shift curr entries f)
  sample_entries-Resampled [] f = record {
    previous = λ y. refl;
    unlisted = λ y e. refl;
    listed = λ y pid files e. cc;
  }
  sample_entries-Resampled (([], files) ∷ entries) f =
      IfReturns-imp (OnRun (Resampled c k scanned garbage page_shift curr entries f)) _ _
        (λ r.
          OnRun-imp (Resampled c k scanned garbage page_shift curr entries f) _ r
            λ f' v. record { previous = v.previous; unlisted = v.unlisted; listed = v.listed })
        (sample_entries-Resampled entries f)
  sample_entries-Resampled ((d ∷ ds, files) ∷ entries) f = elim (Bool-cases (is_digit d)) [
    | inr other ↦ rw other (
        IfReturns-imp (OnRun (Resampled c k scanned garbage page_shift curr entries f)) _ _
          (λ r. OnRun-imp (Resampled c k scanned garbage page_shift curr entries f) _ r λ f' v.
            skip-Resampled c k scanned garbage page_shift curr d ds files entries f f' v other)
          (sample_entries-Resampled entries f))
    | inl digit ↦ rw digit (
        let pid = u32_of_int (c.atoi (d ∷ ds)) in
        IfReturns-bind (OnRun (OneSampled c k scanned garbage page_shift curr pid files f)) _
          (sample_process c k scanned garbage page_shift curr pid files f) _
          (sample_process-OneSampled c k scanned garbage page_shift curr pid files f)
          λ r h. then_run-IfReturns _ _ r _ h λ u one.
            IfReturns-imp (OnRun (Resampled c k scanned garbage page_shift curr entries u)) _ _
              (λ s. OnRun-imp (Resampled c k scanned garbage page_shift curr entries u) _ s λ w v.
                then-Resampled c k scanned garbage page_shift curr d ds files entries f u w one v
                  digit)
              (sample_entries-Resampled entries u))
  ]

  -- What holds of the map holds of the tree that agrees with it.
  Agrees-Resampled :
      (P : AvlTree → Type 0) (entries : List (Text × ProcFiles)) (f : NodeMap)
      (m : Option (Run AvlTree)) (n : Option (Run NodeMap))
      → Returns (OnRun P) m
      → Agrees m n
      → IfReturns (OnRun (Resampled c k scanned garbage page_shift curr entries f)) n
      → Returns
          (OnRun (λ t'. Resampled c k scanned garbage page_shift curr entries f (λ y. find y t')))
          m
  Agrees-Resampled P entries f none n r a v = r
  Agrees-Resampled P entries f (some (exits i)) n r a v = tt
  Agrees-Resampled P entries f (some (goes_on t')) none r a v = absurd a
  Agrees-Resampled P entries f (some (goes_on t')) (some (exits i)) r a v = absurd a
  Agrees-Resampled P entries f (some (goes_on t')) (some (goes_on f')) r a v = record {
    previous = λ y. rw (a y) (v.previous y);
    unlisted = λ y e. rw (a y) (v.unlisted y e);
    listed = λ y pid files e. rw (a y) (v.listed y pid files e);
  }

  read_entries-Resampled :
      (entries : List (Text × ProcFiles)) (t : AvlTree)
      → IsAvl t
      → IsAllocated t
      → Returns
          (OnRun (λ t'.
            Resampled c k scanned garbage page_shift curr entries (λ y. find y t) (λ y. find y t')))
          (read_entries c k scanned garbage page_shift curr entries t)
  read_entries-Resampled entries t v a =
      Agrees-Resampled
        (λ t'.
          Kept c k scanned garbage page_shift curr t t'
          × AllPresent c k scanned garbage page_shift curr entries t')
        entries (λ y. find y t) _ _
        (read_entries-Kept c k scanned garbage page_shift curr entries t v a)
        (read_entries-Agrees c k scanned garbage page_shift curr entries t v a)
        (sample_entries-Resampled entries (λ y. find y t))

  -- In a tree with the invariant, of whose nodes both samples are allocated, the pass over /proc
  -- returns, and if no file ends the program, it has not touched the previous sample of any process
  -- (that of a process without a node counts as cleared), it has left the whole node of every
  -- process that /proc does not list as it was, and the node of every other process is what
  -- sample_node made, from the files of the last entry for the process, of a node with the previous
  -- sample of before.
  pub read_process_stats-Resampled :
      {F : Type 0} (stat : File) (entries : List (Text × ProcFiles)) (sys : SysInfo F) (t : AvlTree)
      → IsAvl t
      → IsAllocated t
      → Returns
          (OnRun (λ r.
            Resampled c k scanned garbage page_shift curr entries
              (λ y. find y t)
              (λ y. find y r.1)))
          (read_process_stats c k scanned garbage page_shift curr stat (some entries) sys t)
  unfolding read_process_stats
  read_process_stats-Resampled stat entries sys t v a =
      then_run-OnRun (λ _. Unit) _ (read_stat_cpu c stat sys) _ (OnRun-any _)
        λ sys' _.
          Returns-bind
            (OnRun (λ t'.
              Resampled c k scanned garbage page_shift curr entries (λ y. find y t)
                (λ y. find y t')))
            _ (read_entries c k scanned garbage page_shift curr entries t) _
            (read_entries-Resampled entries t v a) λ r h. then_run-OnRun _ _ r _ h λ t' j. j
