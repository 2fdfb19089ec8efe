-- ===== src/Monitor/Cycle/Steps.antt =====
-- ptop.c: the steps of a cycle do not fault, and what they leave.
use ptop.Prelude.{
  ℕ, zero, suc, ◌+◌, ◌≤◌, ◌≡◌, Bool, Option, none, some, List, arith, length, get_elem?,
  get_elem?-within, Returns, Returns-bind, true, [], ◌∷◌, codes, Bool-cases, inl, inr,
}
use ptop.Prelude.Int.{ℤ}
use ptop.Files.{Text, File, Libc, starts_with, assigned_text}
use ptop.Floats.{Floats}
use ptop.Records.{SysInfo}
use ptop.Perf.{Kernel, Counters, read_cpu_counter, sum_counters}
use ptop.MStats.{stat_sysmem_stats, fits_wireless, wireless_name, stat_sysnet_stats}
use ptop.CpuStats.{CpuFreqData, nr_freqs, read_cpufreq_stats}
use ptop.CpuStats.Bounds.{read_cpufreq_stats-length}
use ptop.Monitor.Cycle.{read_system_stats}

sum_counters-Returns :
    (k : Kernel) (fd : List ℤ) (left cpu result : ℕ)
    → cpu + left ≤ length fd
    → Returns (λ _. Unit) (sum_counters k fd left cpu result)
unfolding sum_counters
sum_counters-Returns k fd zero cpu result h = tt
sum_counters-Returns k fd (suc left) cpu result h =
    Returns-bind (λ _. Unit) _ (get_elem? fd cpu) _ (get_elem?-within fd cpu (omega (arith, h)))
      λ d _. sum_counters-Returns k fd left (cpu + 1) _ (omega (arith, h))

memory-Returns :
    {F : Type 0} (o : Option ℕ) (info : SysInfo F)
    → Returns (λ _. Unit {0}) o
    → Returns {A = SysInfo F}
        (λ _. Unit)
        (elim o [ none ↦ none | some n ↦ some (record info { memaccess = n }) ])
memory-Returns none info h = h
memory-Returns (some n) info h = tt

-- No line of the file begins with a word of more than 9 bytes.
abbrev pub AllFit : Libc → List Text → Type 0
AllFit c [] = Unit
AllFit c (line ∷ lines) = (fits_wireless c (c.scan_word line) ≡ true) × AllFit c lines

abbrev pub FitsNames : Libc → File → Type 0
FitsNames c none = Unit
FitsNames c (some lines) = AllFit c lines

wireless_name-Returns :
    (c : Libc) (lines : List Text) (wireless : Text)
    → AllFit c lines
    → Returns (λ _. Unit) (wireless_name c lines wireless)
unfolding wireless_name
wireless_name-Returns c [] wireless w = tt
wireless_name-Returns c (line ∷ lines) wireless w =
    let word = assigned_text (c.scan_word line) wireless in
    let rest = wireless_name-Returns c lines word w.1 in
    rw w.0 (elim (Bool-cases (starts_with (codes "eth") word)) [
      | inl found ↦ rw found tt
      | inr other ↦ rw other rest
    ])

stat_sysnet_stats-Returns :
    {F : Type 0} (c : Libc) (garbage : Text) (wireless dev : File) (info : SysInfo F)
    → FitsNames c wireless
    → Returns (λ _. Unit) (stat_sysnet_stats c garbage wireless dev info)
unfolding stat_sysnet_stats
stat_sysnet_stats-Returns c garbage none dev info w = tt
stat_sysnet_stats-Returns c garbage (some lines) dev info w =
    Returns-bind (λ _. Unit) _ (wireless_name c lines garbage) _
      (wireless_name-Returns c lines garbage w) λ _ _. tt

module _ (fl : Floats) where
  open fl use {Single}

  -- With as many counters as processors, or more, a table of 16 frequencies, and words of at most 9
  -- bytes at the beginning of the lines of NET_WIRELESS, a sample of the system is taken without a
  -- fault, and the table has 16 frequencies afterwards.
  pub read_system_stats-length :
      (c : Libc) (k : Kernel) (supported : Bool) (now : ℤ) (dir : Option (List (Text × File)))
      (garbage : Text) (wireless dev : File) (counters : Counters) (sys : SysInfo Single)
      (freqs : List CpuFreqData)
      → counters.nr_cpus ≤ length counters.fd
      → length freqs ≡ nr_freqs
      → FitsNames c wireless
      → Returns
          (λ r. length r.1 ≡ nr_freqs)
          (read_system_stats fl c k supported now dir garbage wireless dev counters sys freqs)
  unfolding read_system_stats stat_sysmem_stats read_cpu_counter
  read_system_stats-length c k supported now dir garbage wireless dev counters sys freqs h n w =
      Returns-bind (λ r. length r.1 ≡ nr_freqs) _
        (read_cpufreq_stats fl c supported now dir sys freqs) _
        (read_cpufreq_stats-length fl c supported now dir sys freqs n)
        λ r j.
          Returns-bind (λ _. Unit) _ (stat_sysmem_stats k counters r.0) _
            (memory-Returns _ r.0
              (sum_counters-Returns k counters.fd counters.nr_cpus 0 0 (omega (arith, h))))
            λ s _.
              Returns-bind (λ _. Unit) _ (stat_sysnet_stats c garbage wireless dev s) _
                (stat_sysnet_stats-Returns c garbage wireless dev s w) λ s' _. j
