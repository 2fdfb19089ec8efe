-- ===== src/PidStats/RoundTrip.antt =====
-- pid_stats.c: the numbers that the kernel prints into /proc/<pid>/io and /proc/<pid>/status are the
-- numbers read.
use ptop.Common.{u32_mod, u64_mod}
use ptop.Prelude.{ℕ, ◌<◌, ◌≡◌, refl, ◌∙◌, false, some, List, [], ◌∷◌, ◌++◌, codes}
use ptop.Files.{Text, Libc, starts_with}
use ptop.Records.{PidStats}
use ptop.PidStats.{io_lines, read_proc_pid_io, status_lines, read_proc_pid_status}

-- The numbers of /proc/<pid>/io.
pub record Io : Type 0 where
  pub rchar : ℕ
  pub wchar : ℕ
  pub syscr : ℕ
  pub syscw : ℕ
  pub read_bytes : ℕ
  pub write_bytes : ℕ
  pub cancelled_write_bytes : ℕ

-- The lines as the kernel prints them; `number` is the text of a number.
abbrev pub print_io : (ℕ → Text) → Io → List Text
print_io number io =
    (codes "rchar: " ++ number io.rchar)
    ∷ (codes "wchar: " ++ number io.wchar)
    ∷ (codes "syscr: " ++ number io.syscr)
    ∷ (codes "syscw: " ++ number io.syscw)
    ∷ (codes "read_bytes: " ++ number io.read_bytes)
    ∷ (codes "write_bytes: " ++ number io.write_bytes)
    ∷ (codes "cancelled_write_bytes: " ++ number io.cancelled_write_bytes)
    ∷ []

-- The two lines about context switches, behind the other lines of /proc/<pid>/status.
abbrev pub print_status : (ℕ → Text) → List Text → ℕ → ℕ → List Text
print_status number others voluntary nonvoluntary =
    others
    ++ ((codes "voluntary_ctxt_switches:\t" ++ number voluntary)
        ∷ (codes "nonvoluntary_ctxt_switches:\t" ++ number nonvoluntary)
        ∷ [])

-- No line is about context switches.
abbrev pub AllOther : List Text → Type 0
AllOther [] = Unit
AllOther (line ∷ lines) =
    (starts_with (codes "voluntary_ctxt_switches:") line ≡ false)
    × (starts_with (codes "nonvoluntary_ctxt_switches:") line ≡ false)
    × AllOther lines

-- The conversion of a printed number below the bound is that number.
abbrev pub Reads : Libc → (ℕ → Text) → ℕ → Type 0
Reads c number bound = (n : ℕ) → n < bound → c.scan_numbers (number n) ≡ n ∷ []

module _ (c : Libc) (number : ℕ → Text) where
  -- If the conversion of a printed number below 2^64 is that number, the three counters that the
  -- kernel prints into /proc/<pid>/io, each below 2^64, are read, and nothing else is changed but
  -- the pid.
  pub read_proc_pid_io-print_io :
      (scan : Reads c number u64_mod) (pid : ℕ) (io : Io) (pst : PidStats)
      → io.read_bytes < u64_mod
      → io.write_bytes < u64_mod
      → io.cancelled_write_bytes < u64_mod
      → read_proc_pid_io c pid (some (print_io number io)) pst ≡ (
        0,
        record pst {
          read_bytes = io.read_bytes;
          write_bytes = io.write_bytes;
          cancelled_write_bytes = io.cancelled_write_bytes;
          pid = pid;
        },
      )
  unfolding read_proc_pid_io io_lines starts_with
  read_proc_pid_io-print_io scan pid io pst r w x =
      rw (scan io.read_bytes r, scan io.write_bytes w, scan io.cancelled_write_bytes x) refl

  status_lines-two :
      (scan : Reads c number u32_mod) (voluntary nonvoluntary : ℕ) (pst : PidStats)
      → voluntary < u32_mod
      → nonvoluntary < u32_mod
      → status_lines c (print_status number [] voluntary nonvoluntary) pst
        ≡ record pst { nvcsw = voluntary; nivcsw = nonvoluntary }
  unfolding status_lines starts_with
  status_lines-two scan voluntary nonvoluntary pst v n =
      rw (scan voluntary v, scan nonvoluntary n) refl

  status_lines-other :
      (line : Text) (lines : List Text) (pst : PidStats)
      → starts_with (codes "voluntary_ctxt_switches:") line ≡ false
      → starts_with (codes "nonvoluntary_ctxt_switches:") line ≡ false
      → status_lines c (line ∷ lines) pst ≡ status_lines c lines pst
  unfolding status_lines
  status_lines-other line lines pst a b = rw (status_lines, a, b) refl

  status_lines-print_status :
      (scan : Reads c number u32_mod) (others : List Text) (voluntary nonvoluntary : ℕ)
      (pst : PidStats)
      → voluntary < u32_mod
      → nonvoluntary < u32_mod
      → AllOther others
      → status_lines c (print_status number others voluntary nonvoluntary) pst
        ≡ record pst { nvcsw = voluntary; nivcsw = nonvoluntary }
  status_lines-print_status scan [] voluntary nonvoluntary pst v n o =
      status_lines-two scan voluntary nonvoluntary pst v n
  status_lines-print_status scan (line ∷ others) voluntary nonvoluntary pst v n (a, b, o) =
      status_lines-other line (print_status number others voluntary nonvoluntary) pst a b
      ∙ status_lines-print_status scan others voluntary nonvoluntary pst v n o

  -- If the conversion of a printed number below 2^32 is that number, the two counts of context
  -- switches that the kernel prints into /proc/<pid>/status, each below 2^32, behind any lines that
  -- are not about them, are read, and nothing else is changed but the pid.
  pub read_proc_pid_status-print_status :
      (scan : Reads c number u32_mod) (pid : ℕ) (others : List Text) (voluntary nonvoluntary : ℕ)
      (pst : PidStats)
      → voluntary < u32_mod
      → nonvoluntary < u32_mod
      → AllOther others
      → read_proc_pid_status c pid (some (print_status number others voluntary nonvoluntary)) pst
        ≡ (0, record pst { nvcsw = voluntary; nivcsw = nonvoluntary; pid = pid })
  unfolding read_proc_pid_status
  read_proc_pid_status-print_status scan pid others voluntary nonvoluntary pst v n o =
      rw (status_lines-print_status scan others voluntary nonvoluntary pst v n o) refl
