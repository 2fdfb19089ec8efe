-- ===== src/Perf/Bounds.antt =====
-- eperf.c: with as many processors as the array has places, or fewer, nothing is accessed outside
-- it; with more, something is.
use ptop.Prelude.{
  ℕ, zero, suc, ◌+◌, ◌≤◌, ◌<◌, ◌≡◌, refl, ◌∙◌, ◌⊎◌, true, none, some, List, [], ◌∷◌, arith, ltb,
  length, length-set, get_elem?, set, Bool-cases, inl, inr, Returns, Returns-bind, Returns-imp,
}
use ptop.Prelude.Int.{ℤ}
use ptop.Perf.{Kernel, Counters, max_nr_cpus, open_counters, create_perf_stat_counter, init_perf}

pub in_range {ℓ} :
    {A : Type ℓ} (xs : List A) (i : ℕ) → i < length xs → (x : A) × (get_elem? xs i ≡ some x)
in_range [] i h = absurd (omega arith)
in_range (x ∷ xs) zero h = (x, refl)
in_range (x ∷ xs) (suc i) h = in_range xs i (omega arith)

open_counters_within :
    (k : Kernel) (left cpu : ℕ) (fd : List ℤ)
    → cpu + left ≤ length fd
    → Returns (λ fd'. length fd' ≡ length fd) (open_counters k left cpu fd)
unfolding open_counters
open_counters_within k zero cpu fd h = refl
open_counters_within k (suc left) cpu fd h =
    let fits : ltb cpu (length fd) ≡ true = ground arith in
    rw fits (
      Returns-imp (λ fd'. length fd' ≡ length (set fd cpu (k.open_cpu cpu))) _ _
        (λ fd' e. e ∙ length-set fd cpu (k.open_cpu cpu))
        (open_counters_within k left (cpu + 1) (set fd cpu (k.open_cpu cpu))
          (omega (arith, length-set fd cpu (k.open_cpu cpu)))))

open_counters_beyond :
    (k : Kernel) (left cpu : ℕ) (fd : List ℤ)
    → cpu ≤ length fd
    → length fd < cpu + left
    → open_counters k left cpu fd ≡ none
unfolding open_counters
open_counters_beyond k zero cpu fd h j = absurd (omega arith)
open_counters_beyond k (suc left) cpu fd h j = elim (Bool-cases (ltb cpu (length fd))) [
  | inl fits ↦ rw fits (
      open_counters_beyond k left (cpu + 1) (set fd cpu (k.open_cpu cpu))
        (ground (arith, length-set fd cpu (k.open_cpu cpu)))
        (ground (arith, length-set fd cpu (k.open_cpu cpu))))
  | inr full ↦ rw full
]

-- With one processor up to 32 of them, the start of the counters stays within the array, whose
-- length stays 32.
pub init_perf_within :
    (k : Kernel) (last : ℕ) (c : Counters)
    → length c.fd ≡ max_nr_cpus
    → suc last ≤ max_nr_cpus
    → Returns
        (λ c'. (c'.nr_cpus ≡ suc last) × (length c'.fd ≡ max_nr_cpus))
        (init_perf k (suc last) c)
unfolding init_perf
init_perf_within k last c full h =
    Returns-bind (λ r. (r.1.nr_cpus ≡ suc last) × (length r.1.fd ≡ max_nr_cpus)) _
      (create_perf_stat_counter k 1 true (record c { nr_cpus = suc last })) (λ r. some r.1)
      (Returns-bind (λ fd. length fd ≡ length c.fd) _ (open_counters k (suc last) 0 c.fd) _
        (open_counters_within k (suc last) 0 c.fd (omega arith))
        λ fd e. let (d, here) = in_range fd last (omega arith) in rw here (refl, e ∙ full))
      λ r h. h

-- With more than 32 processors the start writes outside the array, and with none it reads outside.
pub init_perf_faults :
    (k : Kernel) (online : ℕ) (c : Counters)
    → length c.fd ≡ max_nr_cpus
    → (online ≡ 0) ⊎ (max_nr_cpus < online)
    → init_perf k online c ≡ none
unfolding init_perf open_counters
init_perf_faults k zero c full h = refl
init_perf_faults k (suc last) c full (inl idle) = absurd (omega arith)
init_perf_faults k (suc last) c full (inr many) =
    rw (open_counters_beyond k (suc last) 0 c.fd (omega arith) (omega arith))
