-- ===== src/Display/Screen.antt =====
-- display.c, show_proc_stat: what the screen shows, and what is done for a key. The calls of curses
-- are not modelled, but for the size of the window and the key that they deliver.
pub mod Rows
pub mod Outcome
use ptop.Prelude.{
  ℕ, ◌+◌, ◌-◌, ◌/◌, Bool, true, false, Option, none, some, List, [], ◌∷◌, ◌++◌, map, ◌>>=◌, ltb,
  ◌==◌, codes, if◌then◌else◌,
}
use ptop.Prelude.Int.{ℤ, pos, negsuc, ◌-ℤ◌, ltb_ℤ, eqb_ℤ}
use ptop.Files.{Text, Libc, Run, goes_on, exits}
use ptop.Floats.{Floats}
use ptop.Records.{DeviceEnergy, ProcessEnergy, ProcessInfo}
use ptop.Database.{History, Mysql}
use ptop.Display.{Signal, nothing_sent, val2elapstr}
use ptop.Display.Print.{
  Tm, print_int, print_wide, half, convdate, convtime, title_line, header_row, table_row,
}
use ptop.Display.Keys.{Typed, Reply, react}
use ptop.Display.Table.{Shown, show_table}

-- What the terminal, the clock and the user say during one call: `selected` is what `select`
-- returns, `key` what `mvgetch` does.
pub record Terminal : Type 0 where
  pub isatty : Bool
  pub nodename : Text
  pub cols : ℕ
  pub lines : ℕ
  pub tm : Tm
  pub selected : ℤ
  pub key : ℤ
  pub typed : Typed

abbrev pub least_columns : ℕ
least_columns = 30

-- The name up to the first dot.
unfoldable pub cut_dot : Text → Text
cut_dot [] = []
cut_dot (c ∷ cs) = let rest = cut_dot cs in if c == b'.' then [] else c ∷ rest

-- What is left in the globals, the screen's lines, the signal sent, the calls of the database, and
-- what is returned, or the status for cleanstop.
pub record Screen (F : Type 0) : Type 0 where
  pub screen : Bool
  pub clock : ℤ
  pub drawn : List Text
  pub sent : Signal
  pub history : History F
  pub answer : Run ℤ

-- The line about the activity, in the middle of the window.
unfoldable pub banner : ℕ → Text
banner cols =
    print_wide (half (pos cols -ℤ pos 38)) (codes " ")
    ++ codes "** All process activity since boot **\n"

-- The key that is read, if there is one within the time.
unfoldable pub read_key : Libc → ℤ → Terminal → ℤ → Reply
read_key c interval t clock =
    let reply : Reply = record {
      clock = clock;
      help = [];
      sent = nothing_sent;
      answer = goes_on t.selected;
    } in
    if eqb_ℤ t.selected (pos 0)
    then reply
    else react c interval false (pos t.lines) (if ltb_ℤ t.selected (pos 0) then pos 0 else t.key)
        t.typed clock

module _ (fl : Floats) (c : Libc) (atof : Text → Floats.Double fl)
    (fixed : Floats.Single fl → Text) where
  open fl use {Single, of_u64}

  -- The first three lines.
  unfoldable pub heading : Terminal → List Text
  unfolding banner
  heading t =
      title_line t.cols (cut_dot t.nodename) (convdate t.tm) (convtime t.tm)
        (val2elapstr print_int (pos 2))
      ∷ banner t.cols
      ∷ header_row t.cols
      ∷ []

  unfoldable pub total_row : ℕ → DeviceEnergy Single → Text
  total_row cols pe =
      table_row cols
        (codes "Total"
          ∷ fixed (of_u64 100)
          ∷ fixed pe.ecpu
          ∷ fixed pe.edisk
          ∷ fixed pe.enet
          ∷ fixed pe.emem
          ∷ [])
        []
      ++ codes "\n"

  unfoldable pub process_row : ℕ → Shown Single → Text
  process_row cols s =
      table_row cols
        (print_int s.energy.pid
          ∷ fixed s.percent
          ∷ fixed s.energy.ecpu
          ∷ fixed s.energy.edisk
          ∷ fixed s.energy.enet
          ∷ fixed s.energy.emem
          ∷ [])
        s.energy.cmdline

  unfoldable pub table_rows : ℕ → DeviceEnergy Single → List (Shown Single) → List Text
  unfolding total_row process_row
  table_rows cols pe shown = total_row cols pe ∷ map (process_row cols) shown

  module _ (m : Mysql Single) (interval : ℤ) where
    -- `paused` is never set.
    unfoldable pub show_proc_stat :
        Terminal → List (ProcessInfo Single) → ℤ → ℤ → ℤ → History Single → Option (Screen Single)
    unfolding heading table_rows read_key
    show_proc_stat t table amount now clock h =
        let off : Screen Single = record {
          screen = false;
          clock = clock;
          drawn = [];
          sent = nothing_sent;
          history = h;
          answer = goes_on (pos 0);
        } in
        let filled = show_table fl c atof m interval now table amount h >>= λ (pe, shown, h').
        let reply = read_key c interval t clock in
        some (record off {
          screen = true;
          clock = reply.clock;
          drawn = heading t ++ table_rows t.cols pe shown;
          sent = reply.sent;
          history = h';
          answer = reply.answer;
        }) in
        if t.isatty
        then (if ltb t.cols least_columns
            then some (record off { screen = true; answer = exits 1 })
            else filled)
        else some off
