-- ===== src/Perf.antt =====
-- eperf.c: the performance counters of the processors and of single processes. What the kernel
-- answers is a parameter; an access outside `fd[MAX_NR_CPUS]` is a fault, `none`.
pub mod Bounds
pub mod Closing
use ptop.Prelude.{
  ℕ, zero, suc, ◌+◌, ◌%◌, Bool, true, false, Option, none, some, List, [], ◌∷◌, ◌++◌, ltb, length,
  get_elem?, set, store, if◌then◌else◌, ◌>>=◌,
}
use ptop.Prelude.Int.{ℤ, pos, negsuc, ltb_ℤ}
use ptop.Common.{u64_mod}
use ptop.AvlTree.{AvlTree, empty, close_if_open}

-- sys_perf_event_open for a processor and for a process, and the first of the three numbers that
-- `read` delivers, if it delivers all three (`scale` is 1).
pub record Kernel : Type 0 where
  pub open_cpu : ℕ → ℤ
  pub open_process : ℕ → ℤ
  pub read : ℤ → Option ℕ

-- `nr_cpus` and `fd`
pub record Counters : Type 0 where
  pub nr_cpus : ℕ
  pub fd : List ℤ

abbrev pub max_nr_cpus : ℕ
max_nr_cpus = 32

abbrev pub or_zero : Option ℕ → ℕ
or_zero none = 0
or_zero (some n) = n

unfoldable pub read_counter : Kernel → ℤ → ℕ
read_counter k fd = if ltb_ℤ (pos 0) fd then or_zero (k.read fd) else 0

-- The loop of `read_cpu_counter`, with the processors left, the index and the sum so far.
unfoldable pub sum_counters : Kernel → List ℤ → ℕ → ℕ → ℕ → Option ℕ
sum_counters k fd zero cpu result = some result
sum_counters k fd (suc left) cpu result = get_elem? fd cpu >>= λ d.
    sum_counters k fd left (cpu + 1) ((result + read_counter k d) % u64_mod)

unfoldable pub read_cpu_counter : Kernel → Counters → Option ℕ
unfolding sum_counters
read_cpu_counter k c = sum_counters k c.fd c.nr_cpus 0 0

-- The loop of `create_perf_stat_counter` for all processors.
unfoldable pub open_counters : Kernel → ℕ → ℕ → List ℤ → Option (List ℤ)
open_counters k zero cpu fd = some fd
open_counters k (suc left) cpu fd =
    store fd cpu (k.open_cpu cpu) >>= λ fd'. open_counters k left (cpu + 1) fd'

-- The descriptor returned with the counters afterwards. With no processor the last line reads
-- fd[-1].
unfoldable pub create_perf_stat_counter : Kernel → ℕ → Bool → Counters → Option (ℤ × Counters)
unfolding open_counters
create_perf_stat_counter k pid false c = some (k.open_process pid, c)
create_perf_stat_counter k pid true c = open_counters k c.nr_cpus 0 c.fd >>= λ fd. elim c.nr_cpus [
  | zero ↦ none
  | suc last ↦ (get_elem? fd last >>= λ d. some (d, record c { fd = fd }))
]

-- `online` is what `sysconf` says.
unfoldable pub init_perf : Kernel → ℕ → Counters → Option Counters
unfolding create_perf_stat_counter
init_perf k online c =
    create_perf_stat_counter k 1 true (record c { nr_cpus = online }) >>= λ r. some r.1

-- The loop of `close_all_counters`: the descriptors closed, and the array.
unfoldable pub close_counters : ℕ → ℕ → List ℤ → List ℤ → Option (List ℤ × List ℤ)
close_counters zero cpu closed fd = some (closed, fd)
close_counters (suc left) cpu closed fd = get_elem? fd cpu >>= λ d.
    close_counters left (cpu + 1) (closed ++ close_if_open d)
      (if ltb_ℤ (pos 0) d then set fd cpu (negsuc 0) else fd)

unfoldable pub close_all_counters : AvlTree → Counters → Option (List ℤ × Counters)
unfolding close_counters
close_all_counters tree c = close_counters c.nr_cpus 0 [] c.fd >>= λ (closed, fd).
    some (closed ++ (empty tree).0, record c { fd = fd })
