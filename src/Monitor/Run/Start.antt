-- ===== src/Monitor/Run/Start.antt =====
-- ptop.c, main and system_init: the program starts, and runs on from there.
use ptop.Prelude.{ℕ, zero, suc, ◌≤◌, ◌≡◌, arith, length, Returns, Returns-bind, Returns-imp}
use ptop.Prelude.Int.{ℤ, pos}
use ptop.Files.{OnRun}
use ptop.Floats.{Floats}
use ptop.Database.{History, Mysql, clean_stat_data}
use ptop.Database.Session.{Session, Session-Keeps, freeup_all-Keeps, init_stat_data-Session}
use ptop.Database.Status.{init_stat_data_status}
use ptop.Perf.{Kernel, Counters, init_perf, max_nr_cpus}
use ptop.Perf.Bounds.{init_perf_within}
use ptop.CpuStats.Bounds.{get_cpu_nr_unbounded}
use ptop.Monitor.Cycle.{Settings, Startup, system_init}

init_perf-opened :
    (k : Kernel) (online : ℕ) (c : Counters)
    → length c.fd ≡ max_nr_cpus
    → 1 ≤ online
    → online ≤ max_nr_cpus
    → Returns (λ cs. cs.nr_cpus ≤ length cs.fd) (init_perf k online c)
init_perf-opened k zero c f one many = absurd (omega (arith, one))
init_perf-opened k (suc last) c f one many =
    Returns-imp (λ cs. (cs.nr_cpus ≡ suc last) × (length cs.fd ≡ max_nr_cpus)) _
      (init_perf k (suc last) c) (λ cs h. omega (arith, h.0, h.1, many))
      (init_perf_within k last c f many)

module _ (fl : Floats) where
  open fl use {Single, lt}

  -- What the start leaves: a place for each processor, and calls in order that closed every
  -- connection.
  abbrev pub Started : Settings × History Single → Type 0
  Started (settings, h) = (settings.counters.nr_cpus ≤ length settings.counters.fd) × Session 0 h

  -- With one processor online up to 32 of them, `system_init` neither faults nor ends the program,
  -- and leaves a place for each processor, and calls in order that closed every connection.
  pub system_init-Started :
      (m : Mysql Single) (k : Kernel) (s : Startup) (t1 t2 t3 t4 : ℤ) (counters : Counters)
      (h : History Single)
      → length counters.fd ≡ max_nr_cpus
      → 1 ≤ s.online
      → s.online ≤ max_nr_cpus
      → Session 0 h
      → Returns (OnRun Started) (system_init fl m k s t1 t2 t3 t4 counters h)
  unfolding system_init clean_stat_data
  system_init-Started m k s t1 t2 t3 t4 counters h f one many o =
      rw (init_stat_data_status m t1 t2 h, get_cpu_nr_unbounded (pos s.online))
        (Returns-bind (λ cs. cs.nr_cpus ≤ length cs.fd) _ (init_perf k s.online counters) _
          (init_perf-opened k s.online counters f one many)
          λ cs within. (
            within,
            freeup_all-Keeps m (Session 0) t3 t4 0 _ (Session-Keeps 0)
                (init_stat_data-Session m t1 t2 0 h o),
          ))
