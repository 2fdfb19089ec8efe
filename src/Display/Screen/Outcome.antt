-- ===== src/Display/Screen/Outcome.antt =====
-- display.c, show_proc_stat: it returns with the connections closed and the clock running.
use ptop.Prelude.{ℕ, ◌+◌, ◌≡◌, Bool, false, ◌&&◌, not, length, ltb, if◌then◌else◌}
use ptop.Prelude.Int.{ℤ, pos, eqb_ℤ}
use ptop.Files.{Text, Libc}
use ptop.Floats.{Floats}
use ptop.Database.{Mysql}
use ptop.Database.Session.{Session}
use ptop.Energy.Outcome.{HasColumns}
use ptop.Display.Screen.{Terminal, Screen, least_columns}
use ptop.Display.Input.{IsAllowed}
use ptop.Display.Table.{shown_amount}

module _ (fl : Floats) (c : Libc) (atof : Text → Floats.Double fl)
    (fixed : Floats.Single fl → Text) where
  open fl use {Single}

  -- Whether the table is shown: on a terminal that is wide enough.
  abbrev pub is_drawn : Terminal → Bool
  is_drawn t = t.isatty && not (ltb t.cols least_columns)

  module _ (m : Mysql Single) (interval : ℤ) (n : ℕ) (columns : HasColumns m) where
    -- After the screen: the calls of the database, the clock, the signal, and the lines drawn for an
    -- amount of processes.
    abbrev pub Settled : Terminal → ℤ → ℤ → Screen Single → Type 0
    Settled t amount now s =
        Session n s.history
        × (eqb_ℤ s.clock (pos 0) ≡ false)
        × IsAllowed s.sent
        × (length s.drawn
            ≡ (if is_drawn t then 4 + shown_amount fl c atof m interval now amount else 0))
