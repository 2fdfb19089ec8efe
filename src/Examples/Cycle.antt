-- ===== src/Examples/Cycle.antt =====
-- One cycle of the main loop, on the tree with two processes.
use ptop.Prelude.{codes, ℕ, refl, true, none, some, [], ◌∷◌, arith}
use ptop.Prelude.Int.{pos}
use ptop.Monitor.Loop.{World, Readings}
use ptop.Monitor.Loop.Invariant.{IsGood}
use ptop.AvlTree.{find}
use ptop.MStats.{zero_smaps}
use ptop.Monitor.Collect.{read_entries}
use ptop.Monitor.Collect.Refinement.{Agrees, sample_entries, read_entries-Agrees}
use ptop.Examples.{
  libc, kernel, two, two-IsAvl, two-IsAllocated, running, gone, rows, zero_sys, unopened, no_counts,
}

abbrev pub world : World ℕ
world = record {
  sys0 = zero_sys;
  sys1 = zero_sys;
  pst_list = rows 41;
  tree = two;
  counters = record unopened { nr_cpus = 4 };
  freqs = no_counts;
  closed = [];
  history = [];
}

pub world-IsGood : IsGood world
world-IsGood = record {
  avl = two-IsAvl;
  allocated = two-IsAllocated;
  places = refl;
  opened = omega arith;
  levels = refl;
}

abbrev pub readings : Readings
readings = record {
  ctime = pos 100;
  freq_time = pos 100;
  stat = some ([] ∷ []);
  entries = (b'9' ∷ [], running) ∷ (b'5' ∷ [], gone) ∷ [];
  freq_dir = some [];
  garbage = [];
  wireless = some (codes "eth0: 0000" ∷ []);
  net_dev = none;
}

read_entries-Agrees_example :
    Agrees
      (read_entries libc kernel zero_smaps 0 2 true readings.entries two)
      (sample_entries libc kernel zero_smaps 0 2 true readings.entries (λ y. find y two))
read_entries-Agrees_example =
    read_entries-Agrees libc kernel zero_smaps 0 2 true readings.entries two two-IsAvl
      two-IsAllocated
