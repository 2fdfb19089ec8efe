-- ===== src/Examples/Stale.antt =====
-- What a cycle stores, on a tree with the node of a process that has ended.
use ptop.Prelude.{ℕ, refl, true, some, [], arith, Returns}
use ptop.Prelude.Int.{pos}
use ptop.Files.{OnRun}
use ptop.Records.{PidStats}
use ptop.AvlTree.{AvlNode, AvlTree, null, node, find}
use ptop.Database.{statement}
use ptop.Database.Retention.{Accepts}
use ptop.MStats.{zero_smaps}
use ptop.Monitor.Collect.{read_process_stats}
use ptop.Monitor.Collect.Slots.{Resampled}
use ptop.Monitor.Collect.Slots.Listing.{read_process_stats-Resampled}
use ptop.Monitor.Loop.{World, sample_cycle}
use ptop.Monitor.Loop.Invariant.{IsGood}
use ptop.Monitor.Loop.Stored.{Stores, sample_cycle-Stores}
use ptop.Monitor.Loop.Stale.{IsStale, Again, sample_cycle-Again}
use ptop.Examples.Cycle.{world, readings}
use ptop.Examples.{
  fl, ltb_asymm, accepting, libc, kernel, earlier, two, two-IsAllocated, two-IsAvl, zero_sys,
}

accepting-Accepts : Accepts accepting
unfolding statement
accepting-Accepts q h = refl

read_process_stats-Resampled_example :
    Returns
      (OnRun (λ r.
        Resampled libc kernel zero_smaps 0 2 true readings.entries
          (λ y. find y two)
          (λ y. find y r.1)))
      (read_process_stats libc kernel zero_smaps 0 2 true
        (some [])
        (some readings.entries)
        zero_sys
        two)
read_process_stats-Resampled_example =
    read_process_stats-Resampled libc kernel zero_smaps 0 2 true (some []) readings.entries zero_sys
      two two-IsAvl two-IsAllocated

-- The process 5 switched its context between its last two samples.
abbrev switched : PidStats
switched = record earlier { nvcsw = 7 }

abbrev ended : AvlNode
ended = record { element = pos 5; fd = pos 4; pst_list0 = some earlier; pst_list1 = some switched }

abbrev stale_tree : AvlTree
stale_tree = node null ended (pos 0) null

abbrev stale_world : World ℕ
stale_world = record world { tree = stale_tree }

stale_world-IsGood : IsGood stale_world
stale_world-IsGood = record {
  avl = record { balanced = (refl, omega arith, omega arith, tt, tt); ordered = (tt, tt) };
  allocated = ((earlier, switched, refl, refl), tt, tt);
  places = refl;
  opened = omega arith;
  levels = refl;
}

stale_tree-IsStale : IsStale (pos 5) 5 stale_tree
unfolding find
stale_tree-IsStale = record {
  p = ended;
  s0 = earlier;
  s1 = switched;
  found = refl;
  sample0 = refl;
  sample1 = refl;
  pid0 = refl;
  pid1 = refl;
  differ = λ same. absurd (omega (arith, same.nvcsw));
}

sample_cycle-Stores_example :
    Returns
      (OnRun (λ s.
        Stores fl libc kernel accepting zero_smaps 0 2 true 100 0 true true readings stale_world
          s.1))
      (sample_cycle fl libc kernel accepting zero_smaps 0 2 true 100 0 true true readings
        stale_world)
sample_cycle-Stores_example =
    sample_cycle-Stores fl libc kernel accepting zero_smaps 0 2 true 100 0 true true ltb_asymm
      readings stale_world stale_world-IsGood refl (refl, tt) accepting-Accepts

sample_cycle-Again_example :
    Returns
      (OnRun (λ s.
        Again fl libc kernel accepting zero_smaps 0 2 true 100 0 true true
          (pos 5)
          5
          stale_world
          s.1))
      (sample_cycle fl libc kernel accepting zero_smaps 0 2 true 100 0 true true readings
        stale_world)
sample_cycle-Again_example =
    sample_cycle-Again fl libc kernel accepting zero_smaps 0 2 true 100 0 true true ltb_asymm
      (pos 5) 5 readings stale_world stale_world-IsGood refl (refl, tt) accepting-Accepts
      (λ e. absurd (omega (arith, e))) refl stale_tree-IsStale
