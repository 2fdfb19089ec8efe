-- ===== src/Monitor/Run.antt =====
-- ptop.c, main and main_loop: the start, and the cycles one after the other. The pause between two
-- cycles ends with the alarm. The cycle number is an int, which 2^31 cycles do not reach in years.
pub mod Ready
pub mod Start
pub mod Ranked
use ptop.Prelude.{
  ℕ, zero, suc, ◌+◌, ◌%◌, Bool, true, false, not, ◌&&◌, Option, none, some, List, [], ◌∷◌, ◌==◌,
  replicate, if◌then◌else◌, ◌>>=◌,
}
use ptop.Prelude.Int.{ℤ, pos, negsuc, ltb_ℤ, eqb_ℤ}
use ptop.Files.{Text, Libc, Run, goes_on, exits}
use ptop.Floats.{Floats}
use ptop.Records.{ProcessInfo}
use ptop.AvlTree.{null}
use ptop.Database.{History, Mysql, freeup_all}
use ptop.Perf.{Kernel, Counters, max_nr_cpus}
use ptop.MStats.{StatSmaps}
use ptop.CpuStats.{nr_freqs}
use ptop.Display.{Signal}
use ptop.Display.Screen.{Terminal, Screen, show_proc_stat}
use ptop.Monitor.Collect.{then_run}
use ptop.Monitor.Cycle.{Settings, Startup, system_init, system_clean}
use ptop.Monitor.Loop.{World, Readings, sample_cycle, zero_sys_info}

-- The globals, the local variables `curr` and `cycle`, what `alarm` was last set to, and the signals
-- sent, the last one first.
pub record Program (F : Type 0) : Type 0 where
  pub world : World F
  pub screen : Bool
  pub curr : Bool
  pub cycle : ℕ
  pub clock : ℤ
  pub sent : List Signal

-- What is outside the program during one cycle: the kernel's counters, whether /proc can be opened,
-- the files, the terminal, and the clock, which is read twice for the deletions of each kind.
pub record Inputs : Type 0 where
  pub kernel : Kernel
  pub proc_opens : Bool
  pub readings : Readings
  pub terminal : Terminal
  pub freeup_time : ℤ
  pub freeup_time' : ℤ
  pub clean_time : ℤ
  pub clean_time' : ℤ

abbrev pub clean_interval : ℕ
clean_interval = 31

-- The sample interval of `main`, from the arguments behind the program's name.
unfoldable pub interval_of : Libc → List Text → ℤ
interval_of c (rate ∷ []) = let n = c.atoi rate in if ltb_ℤ (pos 0) n then n else pos 1
interval_of c _ = pos 1

-- The globals before the start.
abbrev pub unopened_counters : Counters
unopened_counters = record { nr_cpus = 0; fd = replicate max_nr_cpus (pos 0) }

module _ (fl : Floats) where
  open fl use {Single, of_u64}

  abbrev pub zero_process_info : ProcessInfo Single
  zero_process_info = record {
    read_bytes = of_u64 0;
    write_bytes = of_u64 0;
    cancelled_write_bytes = of_u64 0;
    vsz = 0;
    rss = 0;
    mem = of_u64 0;
    minflt = of_u64 0;
    majflt = of_u64 0;
    utime = of_u64 0;
    stime = of_u64 0;
    gtime = of_u64 0;
    cpu = of_u64 0;
    cswch = of_u64 0;
    nvcswch = of_u64 0;
    pid = 0;
    time = 0;
    cmdline = [];
    netsnd = of_u64 0;
    netrcv = of_u64 0;
    ratio = of_u64 0;
    cpu_accesses = 0;
  }

  -- What main_loop starts with.
  unfoldable pub first_program : ℤ → Counters → History Single → Program Single
  first_program interval counters h = record {
    world = record {
      sys0 = zero_sys_info fl;
      sys1 = zero_sys_info fl;
      pst_list = replicate 41 zero_process_info;
      tree = null;
      counters = counters;
      freqs = replicate nr_freqs (record { frequency = 0; count = 0 });
      closed = [];
      history = h;
    };
    screen = true;
    curr = true;
    cycle = 1;
    clock = interval;
    sent = [];
  }

  -- `fixed` is what "%.3f" prints; `scanned` and `garbage` are what uninitialised variables hold.
  module _ (c : Libc) (atof : Text → Floats.Double fl) (fixed : Single → Text) (k : Kernel)
      (m : Mysql Single) (scanned : StatSmaps) (garbage : ℕ) where
    -- cleanstop: the program ends, if the descriptors are closed without a fault.
    unfoldable pub cleanstop : ℕ → Inputs → World Single → Option (Run (Program Single))
    cleanstop status i w =
        system_clean fl m i.clean_time i.clean_time' w.tree w.counters w.history >>= λ _.
        some (exits status)

    -- What is done with the result of show_proc_stat.
    unfoldable pub finish_show :
        Inputs → Run ℤ → World Single → Program Single → Option (Run (Program Single))
    unfolding cleanstop
    finish_show i (exits status) w p = cleanstop status i w
    finish_show i (goes_on answer) w p = some (goes_on p)

    module _ (settings : Settings) (interval : ℤ) where
      -- The screen, in every third cycle.
      unfoldable pub show_due : Inputs → ℤ → Program Single → Option (Run (Program Single))
      unfolding finish_show
      show_due i amount p =
          if p.screen && (p.cycle % 3 == 0)
          then (show_proc_stat fl c atof fixed m interval i.terminal p.world.pst_list amount
                i.readings.ctime p.clock p.world.history
              >>= λ s.
                  let w = record p.world { history = s.history } in
                  finish_show i s.answer w (record p {
                    world = w;
                    screen = s.screen;
                    clock = s.clock;
                    sent = s.sent ∷ p.sent;
                  }))
          else some (goes_on p)

      -- The deletion of old rows, in every thirty-first cycle.
      unfoldable pub clean_due : Inputs → Program Single → Program Single
      clean_due i p =
          if p.cycle % clean_interval == 0
          then record p {
            world = record p.world {
              history =
                  (freeup_all m i.freeup_time i.freeup_time' clean_interval p.world.history).1;
            };
          }
          else p

      -- The handler of the alarm sets the clock anew.
      abbrev pub alarm_handler : Program Single → Program Single
      alarm_handler p = record p { clock = interval }

      -- The end of the body: `cycle++`, `curr ^= 1` and `pause`, which the alarm ends. With the
      -- clock stopped the pause never ends, which is `none` as well.
      unfoldable pub next_cycle : Program Single → Option (Program Single)
      next_cycle p =
          if eqb_ℤ p.clock (pos 0)
          then none
          else some (alarm_handler (record p { curr = not p.curr; cycle = p.cycle + 1 }))

      -- The sample of a cycle; without /proc the program ends.
      unfoldable pub sampled : Inputs → Program Single → Option (Run (ℤ × World Single))
      sampled i p =
          if i.proc_opens
          then sample_cycle fl c i.kernel m scanned garbage settings.kb_shift settings.cpufreq_stats
              settings.hz 0 p.screen p.curr i.readings p.world
          else some (exits 4)

      -- The body of the loop.
      unfoldable pub run_cycle : Inputs → Program Single → Option (Run (Program Single))
      unfolding sampled show_due clean_due next_cycle
      run_cycle i p = sampled i p >>= λ run. then_run run λ (amount, w).
          show_due i amount (record p { world = w }) >>= λ shown.
          then_run shown λ p1. next_cycle (clean_due i p1) >>= λ p2. some (goes_on p2)

      -- The loop, for as many cycles as there are inputs.
      unfoldable pub main_loop : List Inputs → Program Single → Option (Run (Program Single))
      unfolding run_cycle
      main_loop [] p = some (goes_on p)
      main_loop (i ∷ is) p = run_cycle i p >>= λ run. then_run run λ p'. main_loop is p'

    -- The arguments, what the system says at the start and four readings of the clock.
    unfoldable pub main :
        List Text → Startup → ℤ → ℤ → ℤ → ℤ → List Inputs → Option (Run (Program Single))
    unfolding interval_of main_loop first_program
    main args s t1 t2 t3 t4 is =
        let interval = interval_of c args in
        system_init fl m k s t1 t2 t3 t4 unopened_counters [] >>= λ run.
        then_run run λ (settings, h).
          main_loop settings interval is (first_program interval settings.counters h)
