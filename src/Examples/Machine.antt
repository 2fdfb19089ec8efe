-- ===== src/Examples/Machine.antt =====
-- The theorems on counters, files and input at small values.
use ptop.Prelude.{
  ◌+◌, ◌*◌, ◌/◌, ◌%◌, ◌^◌, ◌≤◌, ◌<◌, ◌≡◌, refl, true, some, none, [], ◌∷◌, arith, length, Returns,
  inr,
}
use ptop.Prelude.Int.{pos}
use ptop.Common.{u32_mod, max_u32_val, subcount, get_kb_shift}
use ptop.Common.Counter.{increase32, subcount_wrapped}
use ptop.Common.PageShift.{get_kb_shift-bounds}
use ptop.Perf.{init_perf}
use ptop.Perf.Bounds.{init_perf_faults}
use ptop.PidStats.{stored_comm}
use ptop.PidStats.Name.{stored_comm_short}
use ptop.CpuStats.{StatsCpu, nr_freqs, read_cpufreq_stats}
use ptop.CpuStats.Bounds.{read_cpufreq_stats-length}
use ptop.Display.{elapsed_parts}
use ptop.Display.Elapsed.{seconds, seconds-elapsed_parts}
use ptop.Examples.{unopened, no_counts, fl, libc, kernel, zero_sys}

subcount_wrapped_example : subcount 3 10 ≡ (increase32 3 10 + max_u32_val) % u32_mod
subcount_wrapped_example = subcount_wrapped 3 10 (omega arith) (omega arith)

get_kb_shift-bounds_example :
    (2 ^ get_kb_shift (pos 4096) ≤ 4096 / 1024) × (4096 / 1024 < 2 * 2 ^ get_kb_shift (pos 4096))
get_kb_shift-bounds_example = get_kb_shift-bounds 4096 (omega arith) (omega arith)

init_perf_faults_example : init_perf kernel 64 unopened ≡ none
init_perf_faults_example = init_perf_faults kernel 64 unopened refl (inr (omega arith))

stored_comm_short_example : stored_comm (b's' ∷ b'h' ∷ b')' ∷ []) ≡ b's' ∷ b'h' ∷ []
stored_comm_short_example = stored_comm_short (b's' ∷ b'h' ∷ []) (omega arith)

read_cpufreq_stats-length_example :
    Returns
      (λ r. length r.1 ≡ nr_freqs)
      (read_cpufreq_stats fl libc true
        (pos 100)
        (some ((b'c' ∷ b'p' ∷ b'u' ∷ b'0' ∷ [], some ([] ∷ [] ∷ [])) ∷ []))
        zero_sys
        no_counts)
read_cpufreq_stats-length_example =
    read_cpufreq_stats-length fl libc true (pos 100)
      (some ((b'c' ∷ b'p' ∷ b'u' ∷ b'0' ∷ [], some ([] ∷ [] ∷ [])) ∷ [])) zero_sys no_counts refl

abbrev times : StatsCpu
times = record {
  cpu_user = 10;
  cpu_nice = 1;
  cpu_sys = 5;
  cpu_idle = 80;
  cpu_iowait = 2;
  cpu_steal = 0;
  cpu_hardirq = 1;
  cpu_softirq = 1;
  cpu_guest = 3;
}

seconds-elapsed_parts_example : seconds (elapsed_parts (pos 90061)) ≡ 90061
seconds-elapsed_parts_example = seconds-elapsed_parts 90061
