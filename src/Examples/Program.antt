-- ===== src/Examples/Program.antt =====
-- The theorems on the screen and on the whole program, with a user who asks for help and leaves it.
use ptop.Prelude.{
  map, take, ◌==◌, if◌then◌else◌, ℕ, ◌+◌, ◌≤◌, ◌≡◌, ◌↔◌, refl, true, some, [], ◌∷◌, arith, length,
  Returns, codes,
}
use ptop.Prelude.Int.{◌-ℤ◌, pos, negsuc, ◌+ℤ◌}
use ptop.Files.{Text}
use ptop.Energy.Outcome.{HasColumns}
use ptop.Perf.{Counters, close_all_counters}
use ptop.Perf.Closing.{places_of, close_all_counters-closes}
use ptop.AvlTree.Closing.{count, holders}
use ptop.AvlTree.Elements.{elements}
use ptop.Display.{val2elapstr}
use ptop.Display.Print.{Tm, print_int, header_row}
use ptop.Display.Print.Width.{IsTm}
use ptop.Display.Print.Lines.{header_row-fits, length-val2elapstr}
use ptop.Display.Keys.{Typed, showhelp, helptext}
use ptop.Display.Keys.Waiting.{line_of, showhelp_quit}
use ptop.Display.Screen.{Terminal}
use ptop.Display.Table.{Shown}
use ptop.Monitor.Cycle.{Settings, Startup}
use ptop.Monitor.Run.{Program, Inputs}
use ptop.Examples.{accepting, kernel, two, unopened}
use ptop.Examples.Cycle.{world, readings}

abbrev evening : Tm
evening = record {
  tm_sec = 5;
  tm_min = 30;
  tm_hour = 21;
  tm_mday = 9;
  tm_mon = 6;
  tm_year = pos 126;
}

evening-IsTm : IsTm evening
unfolding ◌+ℤ◌
evening-IsTm = record {
  sec = omega arith;
  min = omega arith;
  hour = omega arith;
  mday = omega arith;
  mon = omega arith;
  year = 2026;
  is_year = refl;
  four_digits = omega arith;
}

-- The keys are spaces, and the answers are the process 9 and nothing.
abbrev typed : Typed
typed = record { keys = λ n. b' '; pid = b'9' ∷ []; signal = [] }

-- A terminal on which the help is asked for.
abbrev terminal : Terminal
terminal = record {
  isatty = true;
  nodename = codes "node.local";
  cols = 100;
  lines = 24;
  tm = evening;
  selected = pos 1;
  key = pos b'h';
  typed = typed;
}

abbrev no_rows : HasColumns accepting
no_rows = λ h q r. tt

abbrev printed : ℕ → Text
printed n = b'0' ∷ b'.' ∷ b'0' ∷ []

abbrev one_processor : Counters
one_processor = record { nr_cpus = 1; fd = pos 3 ∷ negsuc 0 ∷ [] }

abbrev startup : Startup
startup = record { pagesize = pos 4096; ticks = pos 100; online = 4; time_in_state = some [] }

abbrev settings : Settings
settings = record {
  hz = 100;
  kb_shift = 2;
  cpufreq_stats = true;
  cpu_nr = pos 4;
  counters = unopened;
}

abbrev inputs : Inputs
inputs = record {
  kernel = kernel;
  proc_opens = true;
  readings = readings;
  terminal = terminal;
  freeup_time = pos 100;
  freeup_time' = pos 100;
  clean_time = pos 100;
  clean_time' = pos 100;
}

abbrev program : Program ℕ
program = record { world = world; screen = true; curr = true; cycle = 3; clock = pos 1; sent = [] }

abbrev shown : Shown ℕ
shown = record {
  percent = 50;
  energy = record {
    pid = pos 5;
    time = pos 100;
    ecpu = 1;
    emem = 1;
    enet = 0;
    edisk = 2;
    cmdline = codes "bash";
  };
}

header_row-fits_example : (length (header_row 80) ≤ 80) ↔ (84 ≤ 80)
header_row-fits_example = header_row-fits 80

length-val2elapstr_example : length (val2elapstr print_int (pos 90061)) ≤ 13
length-val2elapstr_example = length-val2elapstr 90061 (omega arith)

-- The second key is 'q'.
abbrev impatient : ℕ → ℕ
impatient n = if n == 1 then b'q' else b' '

showhelp_quit_example : showhelp (pos 6) (pos 2) impatient ≡ (map line_of (take 4 helptext), 2)
showhelp_quit_example =
    showhelp_quit (pos 6) (pos 2) 2 1 impatient (unfold ◌-ℤ◌ in refl) (omega arith)
      (λ j h. ground (arith, h)) refl

close_all_counters-closes_example :
    Returns
      (λ r.
        (count (pos 3) r.0
          ≡ places_of (pos 3) one_processor.fd 0 1 + holders (pos 3) (elements two))
        × (places_of (pos 3) r.1.fd 0 1 ≡ 0))
      (close_all_counters two one_processor)
close_all_counters-closes_example =
    close_all_counters-closes (pos 3) two one_processor (omega arith)
