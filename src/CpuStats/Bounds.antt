-- ===== src/CpuStats/Bounds.antt =====
-- cpu_stats.c: the frequency tables are never accessed outside their 16 entries, and the counts of
-- processors are bounds on what the files say.
use ptop.Prelude.{
  ℕ, zero, suc, ◌+◌, ◌≤◌, ◌≡◌, refl, Bool, true, false, Option, none, some, List, [], ◌∷◌, arith,
  codes, ◌-◌, ltb, length, get_elem?, get_elem?-within, store, store-length, Bool-cases, inl, inr,
  Returns, Returns-bind,
}
use ptop.Prelude.Int.{ℤ}
use ptop.Common.{u32_mod, u32_of_int}
use ptop.Files.{Text, File, Libc, goes_on, starts_with}
use ptop.Floats.{Floats}
use ptop.Records.{SysInfo}
use ptop.CpuStats.{
  CpuFreqData, nr_freqs, freq_lines, freq_files, clear_counts, deltas, add_levels,
  read_cpufreq_stats, get_cpu_nr,
}

-- At most `bound` entries were counted, and there are 16 of them still.
abbrev Scanned : ℕ × List CpuFreqData → Type 0
Scanned (levels, freqs) = (levels ≤ nr_freqs) × (length freqs ≡ nr_freqs)

module _ (c : Libc) where
  freq_lines-Scanned :
      (left : ℕ) (lines : List Text) (i : ℕ) (freqs : List CpuFreqData)
      → i + left ≤ nr_freqs
      → length freqs ≡ nr_freqs
      → Returns Scanned (freq_lines c left lines i freqs)
  unfolding freq_lines
  freq_lines-Scanned zero lines i freqs h n = (omega (arith, h), n)
  freq_lines-Scanned (suc left) [] i freqs h n = (omega (arith, h), n)
  freq_lines-Scanned (suc left) (line ∷ lines) i freqs h n =
      Returns-bind (λ _. Unit) _ (get_elem? freqs i) _
        (get_elem?-within freqs i (omega (arith, h, n)))
        λ old _.
          Returns-bind (λ fs. length fs ≡ length freqs) _ (store freqs i _) _
            (store-length freqs i _ (omega (arith, h, n)))
            λ fs e.
              freq_lines-Scanned left lines (i + 1) fs (omega (arith, h)) (omega (arith, e, n))

  freq_files-Scanned :
      (files : List (Text × File)) (levels : ℕ) (freqs : List CpuFreqData)
      → Scanned (levels, freqs)
      → Returns Scanned (freq_files c files levels freqs)
  unfolding freq_files
  freq_files-Scanned [] levels freqs h = h
  freq_files-Scanned ((name, none) ∷ files) levels freqs h = freq_files-Scanned files levels freqs h
  freq_files-Scanned ((name, some lines) ∷ files) levels freqs h =
      elim (Bool-cases (starts_with (codes "cpu") name)) [
        | inl cpu ↦ rw cpu (
            Returns-bind Scanned _ (freq_lines c nr_freqs lines 0 freqs) _
              (freq_lines-Scanned nr_freqs lines 0 freqs (omega arith) h.1)
              λ r j. freq_files-Scanned files r.0 r.1 j)
        | inr other ↦ rw other (freq_files-Scanned files levels freqs h)
      ]

length-clear_counts : (fs : List CpuFreqData) → length (clear_counts fs) ≡ length fs
unfolding clear_counts
length-clear_counts [] = refl
length-clear_counts (f ∷ fs) = omega (arith, length-clear_counts fs)

length-deltas :
    (fs os : List CpuFreqData) → length fs ≡ length os → length (deltas fs os) ≡ length fs
unfolding deltas
length-deltas [] os h = refl
length-deltas (f ∷ fs) [] h = absurd (omega (arith, h))
length-deltas (f ∷ fs) (o ∷ os) h = omega (arith, length-deltas fs os (omega (arith, h)))

module _ (fl : Floats) where
  open fl use {Single}

  add_levels-Returns :
      (left ret levels total : ℕ) (delta : List ℕ) (power : Single)
      → ret + left ≤ length delta
      → Returns (λ _. Unit) (add_levels fl left ret levels total delta power)
  unfolding add_levels
  add_levels-Returns zero ret levels total delta power h = tt
  add_levels-Returns (suc left) ret levels total delta power h =
      Returns-bind (λ _. Unit) _ (get_elem? delta ret) _
        (get_elem?-within delta ret (omega (arith, h)))
        λ ticks _. add_levels-Returns left (ret + 1) levels total delta _ (omega (arith, h))

  -- With a table of 16 frequencies, whatever the directory and its files hold, the function returns
  -- without an access outside its arrays, and leaves a table of 16 frequencies.
  pub read_cpufreq_stats-length :
      (c : Libc) (supported : Bool) (now : ℤ) (dir : Option (List (Text × File)))
      (info : SysInfo Single) (freqs : List CpuFreqData)
      → length freqs ≡ nr_freqs
      → Returns (λ r. length r.1 ≡ nr_freqs) (read_cpufreq_stats fl c supported now dir info freqs)
  unfolding read_cpufreq_stats
  read_cpufreq_stats-length c false now dir info freqs h = h
  read_cpufreq_stats-length c true now none info freqs h =
      omega (arith, length-clear_counts freqs, h)
  read_cpufreq_stats-length c true now (some files) info freqs h =
      Returns-bind Scanned _ (freq_files c files 1 (clear_counts freqs)) _
        (freq_files-Scanned c files 1 (clear_counts freqs)
          (omega arith, omega (arith, length-clear_counts freqs, h)))
        λ r j.
          Returns-bind (λ _. Unit) _ (add_levels fl r.0 0 r.0 _ (deltas r.1 freqs) _) _
            (add_levels-Returns r.0 0 r.0 _ (deltas r.1 freqs) _
              (omega (arith, j.0, j.1, h, length-deltas r.1 freqs (omega (arith, j.1, h)))))
            λ power _. j.1

ltb-u32_of_int : (a : ℤ) → ltb (u32_mod - 1) (u32_of_int a) ≡ false
ltb-u32_of_int a = ground arith

-- With the bound `~0` that `system_init` gives, the program does not end here: the number of
-- processors online is what it is, also if `sysconf` failed.
pub get_cpu_nr_unbounded : (online : ℤ) → get_cpu_nr online (u32_mod - 1) ≡ goes_on online
unfolding get_cpu_nr
get_cpu_nr_unbounded online =
    let fits : ltb (u32_mod - 1) (u32_of_int online) ≡ false = ltb-u32_of_int online in rw fits refl
