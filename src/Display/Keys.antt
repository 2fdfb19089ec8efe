-- ===== src/Display/Keys.antt =====
-- display.c: the help text, and what show_proc_stat does for a key. The bell and the messages are
-- not modelled; what the user types is a parameter, the keys one after the other.
pub mod Waiting
use ptop.Prelude.{
  ℕ, zero, suc, ◌+◌, Bool, true, false, not, ◌&&◌, Option, none, some, List, [], ◌∷◌, codes, ◌==◌,
  if◌then◌else◌,
}
use ptop.Prelude.Int.{ℤ, pos, negsuc, ◌-ℤ◌, ltb_ℤ, eqb_ℤ}
use ptop.Files.{Text, Libc, Run, goes_on, exits}
use ptop.Display.{Signal, nothing_sent, refused_pid_1, kill, kill_process}

-- The first `%c` of a format replaced.
unfoldable pub print_char : Text → ℕ → Text
print_char [] arg = []
print_char (c ∷ []) arg = c ∷ []
print_char (c ∷ d ∷ cs) arg =
    let rest = print_char (d ∷ cs) arg in if (c == b'%') && (d == b'c') then arg ∷ cs else c ∷ rest

-- The lines of the help, each with the key that it is about.
abbrev pub helptext : List (Text × ℕ)
helptext =
    (codes "General commands:\n", b' ')
    ∷ (codes "\t^L  - redraw the screen                       \n", b' ')
    ∷ (codes "\t'%c' - pause-button to freeze current sample (toggle)\n", b'z')
    ∷ (codes "\n", b' ')
    ∷ (codes "\t'%c' - kill a process (i.e. send a signal)\n", b'k')
    ∷ (codes "\n", b' ')
    ∷ (codes "\t'%c' - help-information\n", b'h')
    ∷ (codes "\t'%c' - quit this program\n", b'q')
    ∷ []

-- Whether the window is full at a line.
abbrev pub is_full : ℤ → ℕ → Bool
is_full winlines lin = not (ltb_ℤ (pos lin) (winlines -ℤ pos 2))

-- The loop over the lines: the lines shown, and the number of keys read up to the end of the help.
unfoldable pub help_lines : ℤ → (ℕ → ℕ) → List (Text × ℕ) → ℕ → ℕ → List Text × ℕ
unfolding print_char
help_lines winlines keys [] lin read = ([], suc read)
help_lines winlines keys ((format, arg) ∷ lines) lin read =
    let full = is_full winlines lin in
    let (shown, read') =
      help_lines winlines keys lines (lin + 1) (if full then suc read else read) in
    if full && (keys read == b'q')
    then (print_char format arg ∷ [], suc read)
    else (print_char format arg ∷ shown, read')

-- `lines` is the height of the terminal.
unfoldable pub showhelp : ℤ → ℤ → (ℕ → ℕ) → List Text × ℕ
unfolding help_lines
showhelp lines helpline keys = help_lines (lines -ℤ helpline) keys helptext 0 0

-- What the user does: the keys in the help, and the two answers about a signal.
pub record Typed : Type 0 where
  pub keys : ℕ → ℕ
  pub pid : Text
  pub signal : Text

-- What a key comes to: the seconds that the alarm was last set to, the help shown, the signal, and
-- what is returned, or the status for cleanstop.
pub record Reply : Type 0 where
  pub clock : ℤ
  pub help : List Text
  pub sent : Signal
  pub answer : Run ℤ

-- ERR of curses
abbrev pub err : ℤ
err = negsuc 0

-- The clock is stopped while the user reads or types, and set to 3 seconds then.
abbrev restarted : Bool → ℤ
restarted runs = if runs then pos 3 else pos 0

-- The `switch`, and the `return` behind it. Every other key, a resized window among them, changes
-- nothing here.
unfoldable pub react : Libc → ℤ → Bool → ℤ → ℤ → Typed → ℤ → Reply
unfolding showhelp
react c interval paused lines lastchar typed clock =
    let same : Reply = record {
      clock = clock;
      help = [];
      sent = nothing_sent;
      answer = goes_on (pos 1);
    } in
    if eqb_ℤ lastchar err
    then record same { answer = goes_on lastchar }
    else if eqb_ℤ lastchar (pos 0)
    then record same { answer = goes_on lastchar }
    else if eqb_ℤ lastchar (pos b'q')
    then record same { answer = exits 0 }
    else if eqb_ℤ lastchar (pos b'h')
    then record same {
      clock = restarted (not (eqb_ℤ interval (pos 0)) && not paused);
      help = (showhelp lines (pos 2) typed.keys).0;
    }
    else if eqb_ℤ lastchar (pos b'k')
    then record same {
      clock = restarted (not paused);
      sent = kill_process c.atol typed.pid typed.signal;
    }
    else same
