-- ===== src/Display/Keys/Waiting.antt =====
-- display.c: which lines the help shows and how many keys it reads, and a key leaves the clock running.
use ptop.Prelude.{
  ℕ, zero, suc, ◌+◌, ◌≤◌, ◌<◌, take, ◌≡◌, refl, ap, Bool, true, false, List, [], ◌∷◌, map, arith,
  length, ◌==◌, if◌then◌else◌, Bool-cases, inl, inr,
}
use ptop.Prelude.Int.{ℤ, pos, eqb_ℤ, ◌-ℤ◌}
use ptop.Files.{Text, Libc}
use ptop.Display.Keys.{
  print_char, helptext, is_full, help_lines, showhelp, Typed, Reply, err, react,
}
use ptop.Display.Input.{IsAllowed, kill_process-IsAllowed}

-- A line of the help as it is shown.
abbrev pub line_of : Text × ℕ → Text
line_of (format, arg) = print_char format arg

module _ (winlines : ℤ) (room : ℕ) (e : winlines -ℤ pos 2 ≡ pos room) (keys : ℕ → ℕ) (q : ℕ)
    (before : (j : ℕ) → j < q → (keys j == b'q') ≡ false) (quit : (keys q == b'q') ≡ true) where
  is_full_from : (lin : ℕ) → room ≤ lin → is_full winlines lin ≡ true
  is_full_from lin h = rw e (ground (arith, h))

  is_full_below : (lin : ℕ) → lin < room → is_full winlines lin ≡ false
  is_full_below lin h = rw e (ground (arith, h))

  -- In a full window a key is read before each line, until the 'q'.
  help_lines_full :
      (lines : List (Text × ℕ)) (lin read k : ℕ)
      → room ≤ lin
      → k < length lines
      → read + k ≡ q
      → help_lines winlines keys lines lin read ≡ (map line_of (take (suc k) lines), suc q)
  unfolding help_lines
  help_lines_full [] lin read k full short at_q = absurd (omega (arith, short))
  help_lines_full (line ∷ lines) lin read zero full short at_q =
      let same : read ≡ q = omega (arith, at_q) in rw (same, is_full_from lin full, quit) refl
  help_lines_full (line ∷ lines) lin read (suc k) full short at_q =
      rw (is_full_from lin full, before read (omega (arith, at_q)))
        (ap (λ (r : List Text × ℕ). (line_of line ∷ r.0, r.1))
          (help_lines_full lines (lin + 1) (suc read) k (omega (arith, full)) (omega (arith, short))
            (omega (arith, at_q))))

  help_lines_quit :
      (lines : List (Text × ℕ)) (lin d : ℕ)
      → lin + d ≡ room
      → d + q < length lines
      → help_lines winlines keys lines lin 0 ≡ (map line_of (take (suc (d + q)) lines), suc q)
  unfolding help_lines
  help_lines_quit lines lin zero h short =
      let none_left : 0 + q ≡ q = omega arith in
      rw none_left
        (help_lines_full lines lin 0 q (omega (arith, h)) (omega (arith, short)) (omega arith))
  help_lines_quit [] lin (suc d) h short = absurd (omega (arith, short))
  help_lines_quit (line ∷ lines) lin (suc d) h short =
      let one_more : suc d + q ≡ suc (d + q) = omega arith in
      rw (one_more, is_full_below lin (omega (arith, h)))
        (ap (λ (r : List Text × ℕ). (line_of line ∷ r.0, r.1))
          (help_lines_quit lines (lin + 1) d (omega (arith, h)) (omega (arith, short))))

-- If the window of the help has `room` lines and two more, and key number k, counted from 0, is the
-- first 'q', before all lines are shown, then the first room + k + 1 lines are shown, `room` of them
-- without a key, and the help is left with k + 1 keys read.
pub showhelp_quit :
    (lines helpline : ℤ) (room k : ℕ) (keys : ℕ → ℕ)
    → (lines -ℤ helpline) -ℤ pos 2 ≡ pos room
    → room + k < length helptext
    → ((j : ℕ) → j < k → (keys j == b'q') ≡ false)
    → (keys k == b'q') ≡ true
    → showhelp lines helpline keys ≡ (map line_of (take (suc (room + k)) helptext), suc k)
unfolding showhelp
showhelp_quit lines helpline room k keys e short before quit =
    help_lines_quit (lines -ℤ helpline) room e keys k before quit helptext 0 room (omega arith)
      short

help_lines_all :
    (winlines : ℤ) (keys : ℕ → ℕ) (lines : List (Text × ℕ)) (lin read : ℕ)
    → ((n : ℕ) → (keys n == b'q') ≡ false)
    → (help_lines winlines keys lines lin read).0
      ≡ map (λ (format, arg). print_char format arg) lines
unfolding help_lines
help_lines_all winlines keys [] lin read h = refl
help_lines_all winlines keys ((format, arg) ∷ lines) lin read h =
    elim (Bool-cases (is_full winlines lin)) [
      | inl full ↦
          rw (full, h read)
            (ap (λ shown. print_char format arg ∷ shown)
              (help_lines_all winlines keys lines (lin + 1) (suc read) h))
      | inr room ↦ rw room (
          ap (λ shown. print_char format arg ∷ shown)
            (help_lines_all winlines keys lines (lin + 1) read h))
    ]

-- If no 'q' is typed, the help shows all of its lines, in their order.
pub showhelp_all :
    (lines helpline : ℤ) (keys : ℕ → ℕ)
    → ((n : ℕ) → (keys n == b'q') ≡ false)
    → (showhelp lines helpline keys).0 ≡ map (λ (format, arg). print_char format arg) helptext
unfolding showhelp
showhelp_all lines helpline keys h = help_lines_all (lines -ℤ helpline) keys helptext 0 0 h

-- If the interval is not 0, the clock is not paused, and it is running when the key is read, then it
-- is running after the key.
pub clock-react :
    (c : Libc) (interval lines lastchar : ℤ) (typed : Typed) (clock : ℤ)
    → eqb_ℤ interval (pos 0) ≡ false
    → eqb_ℤ clock (pos 0) ≡ false
    → eqb_ℤ (react c interval false lines lastchar typed clock).clock (pos 0) ≡ false
unfolding react
clock-react c interval lines lastchar typed clock i r = ground (arith, i, r)

if_both : {A : Type 0} (P : A → Type 0) (b : Bool) (x y : A) → P x → P y → P (if b then x else y)
if_both P true x y h j = h
if_both P false x y h j = j

-- A key sends no signal to a pid with a special meaning.
pub sent-react :
    (c : Libc) (interval lines lastchar : ℤ) (typed : Typed) (clock : ℤ)
    → IsAllowed (react c interval false lines lastchar typed clock).sent
unfolding react
sent-react c interval lines lastchar typed clock =
    let P = λ (r : Reply). IsAllowed r.sent in
    if_both P (eqb_ℤ lastchar err) _ _ tt (
      if_both P (eqb_ℤ lastchar (pos 0)) _ _ tt (
        if_both P (eqb_ℤ lastchar (pos b'q')) _ _ tt (
          if_both P (eqb_ℤ lastchar (pos b'h')) _ _ tt (
            if_both P (eqb_ℤ lastchar (pos b'k')) _ _
              (kill_process-IsAllowed c.atol typed.pid typed.signal) tt))))
