-- ===== src/Monitor/Loop/Invariant.antt =====
-- ptop.c, main_loop: a cycle does not fault, and keeps what the next one relies on.
use ptop.Prelude.{
  ℕ, ◌+◌, ◌≤◌, ◌≡◌, refl, Bool, true, false, ◌||◌, some, List, [], ◌∷◌, arith, length,
  if◌then◌else◌, Bool-cases, inl, inr, Returns, Returns-bind,
}
use ptop.Prelude.Int.{ℤ, int_of_u32}
use ptop.Common.{u32_of_int, u64_subcount}
use ptop.Files.{Text, Libc, OnRun, is_digit}
use ptop.Floats.{Floats}
use ptop.Records.{SysInfo, ProcessInfo}
use ptop.AvlTree.{AvlTree, null, node, find}
use ptop.AvlTree.Contract.{IsAvl}
use ptop.AvlTree.Shape.{IsAllocated, IsMember, IsAvl-SameShape}
use ptop.Database.{Mysql}
use ptop.Perf.{Kernel}
use ptop.MStats.{StatSmaps}
use ptop.PidStats.{ProcFiles}
use ptop.CpuStats.{nr_freqs}
use ptop.Monitor.Ranking.Order.{rev_append}
use ptop.Monitor.Sample.{Globals, write_stat}
use ptop.Monitor.Sample.Table.{IsTable}
use ptop.Monitor.Sample.Walk.{Walked, write_stat-Walked}
use ptop.Monitor.Collect.{read_process_stats}
use ptop.Monitor.Collect.Nodes.{then_run-OnRun}
use ptop.Monitor.Collect.Pass.{Kept, AllPresent, read_process_stats-Kept}
use ptop.Monitor.Cycle.{read_system_stats, write_process_stats}
use ptop.Monitor.Cycle.Steps.{FitsNames, read_system_stats-length}
use ptop.Monitor.Loop.{World, Readings, put_sys, write_sample, sample_cycle, zero_sys_info}

-- What a cycle relies on: the tree, both samples of every node, the 41 places of the table, a
-- counter for each processor, and the 16 frequencies.
pub record IsGood {F : Type 0} (w : World F) : Type 0 where
  pub avl : IsAvl w.tree
  pub allocated : IsAllocated w.tree
  pub places : length w.pst_list ≡ 41
  pub opened : w.counters.nr_cpus ≤ length w.counters.fd
  pub levels : length w.freqs ≡ nr_freqs

-- Whether an enumeration of /proc lists a process.
abbrev pub any_process : List (Text × ProcFiles) → Bool
any_process [] = false
any_process (([], files) ∷ entries) = any_process entries
any_process ((d ∷ ds, files) ∷ entries) = is_digit d || any_process entries

length-rev_append {ℓ} :
    {A : Type ℓ} (xs ys : List A) → length (rev_append xs ys) ≡ length xs + length ys
length-rev_append [] ys = omega arith
length-rev_append (x ∷ xs) ys = omega (arith, length-rev_append xs (x ∷ ys))

module _ (fl : Floats) where
  open fl use {Single, lt}

  pub pst_list-IsTable :
      (g : Globals Single) (table : List (ProcessInfo Single))
      → g.pst_list ≡ table
      → g.idx ≡ 0
      → length table ≡ 41
      → IsTable fl g
  pst_list-IsTable g [] e i h = absurd (omega (arith, h))
  pst_list-IsTable g (y ∷ zs) e i h = record {
    ranked = [];
    free = y;
    rest = zs;
    holds = e;
    filled = rw i refl;
    size = omega (arith, h);
    order = tt;
  }

  IsTable-length : (g : Globals Single) → IsTable fl g → length g.pst_list ≡ 41
  IsTable-length g t =
      rw t.holds (omega (arith, t.size, length-rev_append t.ranked (t.free ∷ t.rest)))

  module _ (lt_asymm : (a b : Single) → lt a b ≡ true → lt b a ≡ false) (c : Libc) (k : Kernel)
      (m : Mysql Single) (scanned : StatSmaps) (garbage page_shift : ℕ) (cpufreq : Bool)
      (hz tlmkb : ℕ) (screen curr : Bool) where
    member :
        (entries : List (Text × ProcFiles)) (t : AvlTree)
        → any_process entries ≡ true
        → AllPresent c k scanned garbage page_shift curr entries t
        → (x : ℤ) × IsMember x t
    member [] t e a = cc
    member (([], files) ∷ entries) t e a = member entries t e a
    member ((d ∷ ds, files) ∷ entries) t e a = elim (Bool-cases (is_digit d)) [
      | inl digit ↦ (int_of_u32 (u32_of_int (c.atoi (d ∷ ds))), rw digit at a.0)
      | inr other ↦ member entries t (rw other at e) a.1
    ]

    put_sys-IsGood :
        (s : SysInfo Single) (w : World Single)
        → IsGood w
        → IsGood (put_sys fl c k m scanned garbage page_shift cpufreq hz tlmkb screen curr s w)
    unfolding put_sys
    put_sys-IsGood s w v = elim (Bool-cases curr) [
      | inl one ↦ rw one (record {
        avl = v.avl;
        allocated = v.allocated;
        places = v.places;
        opened = v.opened;
        levels = v.levels;
      })
      | inr other ↦ rw other (record {
        avl = v.avl;
        allocated = v.allocated;
        places = v.places;
        opened = v.opened;
        levels = v.levels;
      })
    ]

    -- After the walk: the tree has the invariant, and the table its places.
    KeptTable : ℤ × AvlTree × Globals Single → Type 0
    KeptTable (amount, t, g) = IsAvl t × IsAllocated t × (length g.pst_list ≡ 41)

    write_process_stats-KeptTable :
        (ctime : ℤ) (prev : SysInfo Single) (t : AvlTree) (g : Globals Single) (x : ℤ)
        → IsMember x t
        → IsAvl t
        → IsAllocated t
        → length g.pst_list ≡ 41
        → Returns KeptTable (write_process_stats fl m hz tlmkb screen curr ctime prev t g)
    unfolding write_process_stats find KeptTable
    write_process_stats-KeptTable ctime prev null g x q v a n = cc
    write_process_stats-KeptTable ctime prev (node l p h r) g x q v a n =
        let itv = u64_subcount g.sys.runtime prev.runtime in
        let start : Globals Single = record g { idx = 0 } in
        Returns-bind (Walked fl lt_asymm m hz tlmkb screen curr ctime itv (node l p h r) start) _
          (write_stat fl m hz tlmkb screen curr ctime itv (node l p h r) start) _
          (write_stat-Walked fl lt_asymm m hz tlmkb screen curr ctime itv l p h r start a
            (pst_list-IsTable start g.pst_list refl refl n))
          λ s w. (IsAvl-SameShape (node l p h r) s.0 w.0 v, w.1, IsTable-length s.1 w.2)

    write_sample-IsGood :
        (ctime : ℤ) (sys : SysInfo Single) (t : AvlTree) (w : World Single) (x : ℤ)
        → IsMember x t
        → IsAvl t
        → IsAllocated t
        → length w.pst_list ≡ 41
        → w.counters.nr_cpus ≤ length w.counters.fd
        → length w.freqs ≡ nr_freqs
        → Returns
            (λ s. IsGood s.1)
            (write_sample fl c k m scanned garbage page_shift cpufreq hz tlmkb screen curr ctime sys
              t w)
    unfolding write_sample KeptTable
    write_sample-IsGood ctime sys t w x q v a n o f =
        let prev = if curr then w.sys0 else w.sys1 in
        let g : Globals Single = record {
          sys = sys;
          pst_list = w.pst_list;
          idx = 0;
          closed = w.closed;
          history = w.history;
        } in
        Returns-bind KeptTable _ (write_process_stats fl m hz tlmkb screen curr ctime prev t g) _
          (write_process_stats-KeptTable ctime prev t g x q v a n)
          λ s h.
            put_sys-IsGood _ _
              (record { avl = h.0; allocated = h.1; places = h.2; opened = o; levels = f })

    -- From a state with the invariant, if /proc lists a process and no line of /proc/net/wireless
    -- begins with a word of more than 9 bytes, the body of the loop runs up to the screen without a
    -- fault: it ends the program where a file cannot be opened, or leaves a state with the
    -- invariant for the next cycle. (`<` on shares is taken to be asymmetric.)
    pub sample_cycle-IsGood :
        (r : Readings) (w : World Single)
        → IsGood w
        → any_process r.entries ≡ true
        → FitsNames c r.wireless
        → Returns
            (OnRun (λ s. IsGood s.1))
            (sample_cycle fl c k m scanned garbage page_shift cpufreq hz tlmkb screen curr r w)
    unfolding sample_cycle
    sample_cycle-IsGood r w good e names =
        Returns-bind
          (OnRun (λ s.
            Kept c k scanned garbage page_shift curr w.tree s.1
            × AllPresent c k scanned garbage page_shift curr r.entries s.1))
          _
          (read_process_stats c k scanned garbage page_shift curr r.stat (some r.entries)
            (zero_sys_info fl) w.tree)
          _
          (read_process_stats-Kept c k scanned garbage page_shift curr r.stat r.entries
            (zero_sys_info fl) w.tree good.avl good.allocated)
          λ run kept. then_run-OnRun _ _ run _ kept λ s h.
            let (x, q) = member r.entries s.1 e h.1 in
            Returns-bind (λ u. length u.1 ≡ nr_freqs) _
              (read_system_stats fl c k cpufreq r.freq_time r.freq_dir r.garbage r.wireless
                r.net_dev w.counters s.0 w.freqs)
              _
              (read_system_stats-length fl c k cpufreq r.freq_time r.freq_dir r.garbage r.wireless
                r.net_dev w.counters s.0 w.freqs good.opened good.levels names)
              λ u n.
                Returns-bind (λ z. IsGood z.1) _
                  (write_sample fl c k m scanned garbage page_shift cpufreq hz tlmkb screen curr
                    r.ctime u.0 s.1 (record w { freqs = u.1 }))
                  _
                  (write_sample-IsGood r.ctime u.0 s.1 (record w { freqs = u.1 }) x q h.0.avl
                    h.0.allocated good.places good.opened n)
                  λ z g. g
