-- ===== src/Monitor/Run/Ready.antt =====
-- ptop.c, main: the program runs on, from the start and through every cycle.
use ptop.Prelude.{◌≡◌, true, false, List, [], ◌∷◌}
use ptop.Prelude.Int.{pos, eqb_ℤ}
use ptop.Files.{Libc, Run}
use ptop.Floats.{Floats}
use ptop.Database.Session.{Session}
use ptop.Display.{Signal}
use ptop.Display.Input.{IsAllowed}
use ptop.Monitor.Loop.Invariant.{IsGood, any_process}
use ptop.Monitor.Run.{Program, Inputs}
use ptop.Monitor.Cycle.Steps.{FitsNames}

-- Every signal of a list is allowed.
abbrev pub AllAllowed : List Signal → Type 0
AllAllowed [] = Unit
AllAllowed (s ∷ ss) = IsAllowed s × AllAllowed ss

-- Each enumeration of /proc lists a process, and the words that lines of /proc/net/wireless begin
-- with have at most 9 bytes.
abbrev pub AllListed : Libc → List Inputs → Type 0
AllListed c [] = Unit
AllListed c (i ∷ is) =
    ((any_process i.readings.entries ≡ true) × FitsNames c i.readings.wireless) × AllListed c is

-- Between two cycles: the invariant of the cycles, no open connection after calls of the database in
-- order, a running clock, and no signal sent to a pid with a special meaning.
pub record IsReady {F : Type 0} (p : Program F) : Type 0 where
  pub good : IsGood p.world
  pub calls : Session 0 p.world.history
  pub running : eqb_ℤ p.clock (pos 0) ≡ false
  pub allowed : AllAllowed p.sent
