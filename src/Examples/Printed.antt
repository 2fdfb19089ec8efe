-- ===== src/Examples/Printed.antt =====
-- The theorems on printed files, with a C library that reads a byte as a number, and those on the
-- rows that are kept and shown.
use ptop.Prelude.{
  arith, ℕ, ◌-◌, ◌≡◌, refl, true, some, [], ◌∷◌, length, leb, if◌then◌else◌, codes, Returns,
}
use ptop.Prelude.Int.{pos, ◌-ℤ◌}
use ptop.Files.{Text, Libc, goes_on}
use ptop.Records.{zero_pid_stats}
use ptop.AvlTree.{null, node}
use ptop.Database.{freeup_all, freeup_ps, statement}
use ptop.Database.Retention.{keep_since, info_rows, AllSince, freeup_all-AllSince}
use ptop.Display.Table.{shown_amount}
use ptop.MStats.{zero_smaps, read_smaps}
use ptop.MStats.RoundTrip.{
  Mapping, IsAddress, IsInt, print_smaps, low_bits, total, read_smaps-print_smaps,
}
use ptop.Monitor.Cycle.{write_process_stats}
use ptop.Monitor.Ranking.{show_num}
use ptop.Monitor.Run.Ranked.{shown_amount-write_process_stats}
use ptop.Monitor.Sample.{Globals}
use ptop.Monitor.Sample.Table.{IsTable}
use ptop.PidStats.{read_proc_pid_io, read_proc_pid_status}
use ptop.PidStats.RoundTrip.{
  Io, print_io, print_status, read_proc_pid_io-print_io, read_proc_pid_status-print_status,
}
use ptop.Examples.{
  fl, ltb_asymm, libc, accepting, no_calls, busy, idle, two-IsAllocated, rows, zero_sys,
}

abbrev bytes : Libc
bytes = record libc { scan_numbers = λ t. t }

abbrev byte : ℕ → Text
byte n = n ∷ []

abbrev io : Io
io = record {
  rchar = 1;
  wchar = 2;
  syscr = 3;
  syscw = 4;
  read_bytes = 4096;
  write_bytes = 512;
  cancelled_write_bytes = 0;
}

read_proc_pid_io-print_io_example :
    read_proc_pid_io bytes 5 (some (print_io byte io)) zero_pid_stats ≡ (
      0,
      record zero_pid_stats {
        read_bytes = 4096;
        write_bytes = 512;
        cancelled_write_bytes = 0;
        pid = 5;
      },
    )
read_proc_pid_io-print_io_example =
    read_proc_pid_io-print_io bytes byte (λ n h. refl) 5 io zero_pid_stats (omega arith)
      (omega arith) (omega arith)

read_proc_pid_status-print_status_example :
    read_proc_pid_status bytes 5 (some (print_status byte (codes "Name:" ∷ []) 7 8)) zero_pid_stats
    ≡ (0, record zero_pid_stats { nvcsw = 7; nivcsw = 8; pid = 5 })
read_proc_pid_status-print_status_example =
    read_proc_pid_status-print_status bytes byte (λ n h. refl) 5 (codes "Name:" ∷ []) 7 8
      zero_pid_stats (omega arith) (omega arith) (unfold ptop.Files.starts_with in (refl, refl, tt))

abbrev mapping : Mapping
mapping = record { addresses = codes "00400000-0048a000"; numbers = record zero_smaps { size = 8 } }

mapping-fits : IsAddress mapping.addresses × IsInt mapping.numbers
mapping-fits = ((refl, refl, refl), omega arith)

read_smaps-print_smaps_example :
    read_smaps bytes zero_smaps (some (print_smaps byte (mapping ∷ mapping ∷ [])))
    ≡ goes_on (low_bits (total (mapping ∷ mapping ∷ []) zero_smaps))
read_smaps-print_smaps_example =
    read_smaps-print_smaps bytes byte (λ n h. refl) zero_smaps (mapping ∷ mapping ∷ [])
      (mapping-fits, (mapping-fits, tt))

freeup_all-AllSince_example :
    (info_rows (freeup_all accepting (pos 60) (pos 60) 10 no_calls).1
      ≡ keep_since (pos 60 -ℤ pos 10) (info_rows no_calls))
    × AllSince (pos 60 -ℤ pos 10) (info_rows (freeup_all accepting (pos 60) (pos 60) 10 no_calls).1)
freeup_all-AllSince_example =
    freeup_all-AllSince accepting (pos 60) (pos 60) 10 no_calls (unfold freeup_ps statement in refl)

abbrev start : Globals ℕ
start = record { sys = zero_sys; pst_list = rows 41; idx = 0; closed = []; history = no_calls }

shown_amount-write_process_stats_example :
    Returns
      (λ (amount, t', g').
        (table : IsTable fl g') × (shown_amount fl libc (λ t. 3) accepting (pos 1) (pos 100) amount
          ≡ length table.ranked - (if leb g'.idx show_num then 1 else 0)))
      (write_process_stats fl accepting 100 0 true true
        (pos 100)
        zero_sys
        (node null busy (pos 1) (node null idle (pos 0) null))
        start)
shown_amount-write_process_stats_example =
    shown_amount-write_process_stats fl ltb_asymm libc (λ t. 3) accepting 100 0 true true (pos 1)
      (pos 100) zero_sys null busy (pos 1) (node null idle (pos 0) null) start two-IsAllocated refl
