-- ===== src/Display/Input.antt =====
-- display.c: what the user types, and the process that a signal goes to.
use ptop.Prelude.{◌≢◌, arith, if◌then◌else◌, Bool-cases, inl, inr}
use ptop.Prelude.Int.{ℤ, pos, negsuc, eqb_ℤ}
use ptop.Files.{Text}
use ptop.Display.{Signal, nothing_sent, refused_pid_1, kill, kill_process, getnumval, int_of_long}

-- A signal goes to no pid that has a special meaning, or to init.
abbrev pub IsAllowed : Signal → Type 0
IsAllowed nothing_sent = Unit
IsAllowed refused_pid_1 = Unit
IsAllowed (kill p s) = (p ≢ pos 0) × (p ≢ negsuc 0) × (p ≢ pos 1)

decided :
    (p s : ℤ)
    → IsAllowed (
        if eqb_ℤ p (pos 0)
        then nothing_sent
        else if eqb_ℤ p (negsuc 0)
        then nothing_sent
        else if eqb_ℤ p (pos 1)
        then refused_pid_1
        else kill p s)
decided p s = elim (Bool-cases (eqb_ℤ p (pos 0))) [
  | inl zero_pid ↦ rw zero_pid tt
  | inr e0 ↦ elim (Bool-cases (eqb_ℤ p (negsuc 0))) [
    | inl every_pid ↦ rw (e0, every_pid) tt
    | inr e1 ↦ elim (Bool-cases (eqb_ℤ p (pos 1))) [
      | inl init_pid ↦ rw (e0, e1, init_pid) tt
      | inr e2 ↦ rw (e0, e1, e2) ((λ e. ground arith), (λ e. ground arith), λ e. ground arith)
    ]
  ]
]

-- Whatever the user types, no signal is sent to the pids 0, -1 and 1.
pub kill_process-IsAllowed :
    (atol : Text → ℤ) (typed_pid typed_signal : Text)
    → IsAllowed (kill_process atol typed_pid typed_signal)
unfolding kill_process
kill_process-IsAllowed atol typed_pid typed_signal =
    decided (int_of_long (getnumval atol typed_pid (pos 0)))
      (int_of_long (getnumval atol typed_signal (pos 15)))
