-- ===== src/Display/Screen/Rows.antt =====
-- display.c, show_proc_stat: the first line and the lines of the processes fill the window.
use ptop.Prelude.{
  ℕ, zero, suc, ◌+◌, ◌-◌, ◌*◌, ◌/◌, ◌%◌, ◌≤◌, ◌≡◌, refl, [], ◌∷◌, arith, length, length-append,
  get_elem?, Returns,
}
use ptop.Prelude.Int.{ℤ, pos, negsuc}
use ptop.Files.{Text, Libc}
use ptop.Floats.{Floats}
use ptop.Display.{val2elapstr, elapsed_parts, print_parts, take_unit}
use ptop.Display.Print.{digits, print_int, convdate, convtime, seventh}
use ptop.Display.Print.Width.{IsTm, length-convtime}
use ptop.Display.Print.Lines.{length-title_line, length-table_row_fits}
use ptop.Display.Screen.{Terminal, cut_dot, heading, process_row}
use ptop.Display.Table.{Shown}

length-digits : (fuel n : ℕ) → length (digits fuel n) ≤ fuel
unfolding digits
length-digits zero n = omega arith
length-digits (suc fuel) n = ground (
  arith,
  length-append (digits fuel (n / 10)) ((b'0' + n % 10) ∷ []),
  length-digits fuel (n / 10),
)

length-print_int : (n : ℤ) → length (print_int n) ≤ 11
unfolding print_int
length-print_int (pos n) = omega (arith, length-digits 10 n)
length-print_int (negsuc n) = omega (arith, length-digits 10 (suc n))

length-two_seconds : length (val2elapstr print_int (pos 2)) ≡ 2
unfolding val2elapstr elapsed_parts print_parts take_unit print_int digits
length-two_seconds = refl

module _ (fl : Floats) (c : Libc) (atof : Text → Floats.Double fl)
    (fixed : Floats.Single fl → Text) where
  open fl use {Single}

  -- If the broken-down time is within its ranges, with a year of at most four digits, and the window
  -- has at least 37 columns beside the name of the node, the first line fills the window exactly.
  length-heading :
      (t : Terminal)
      → IsTm t.tm
      → 37 + length (cut_dot t.nodename) ≤ t.cols
      → Returns (λ line. length line ≡ t.cols) (get_elem? (heading fl c atof fixed t) 0)
  unfolding heading
  length-heading t v h =
      let texts = length-convtime t.tm v in
      length-title_line t.cols (cut_dot t.nodename) (convdate t.tm) (convtime t.tm) _ texts.1
        texts.0 (omega (arith, h, length-two_seconds))

  -- In a window of 84 columns or more, a line for a process whose name fits the last column, and
  -- whose numbers are printed with at most 12 characters each, fills the window exactly, so that the
  -- next process begins a line, though no newline is printed.
  length-process_row :
      (cols : ℕ) (s : Shown Single)
      → 84 ≤ cols
      → ((x : Single) → length (fixed x) ≤ 12)
      → length s.energy.cmdline ≤ cols - 6 * seventh cols
      → length (process_row fl c atof fixed cols s) ≡ cols
  unfolding process_row
  length-process_row cols s w f n =
      let e = s.energy in
      length-table_row_fits cols (print_int e.pid) (fixed s.percent) (fixed e.ecpu) (fixed e.edisk)
        (fixed e.enet) (fixed e.emem) e.cmdline (omega (arith, w, length-print_int e.pid))
        (omega (arith, w, f s.percent)) (omega (arith, w, f e.ecpu)) (omega (arith, w, f e.edisk))
        (omega (arith, w, f e.enet)) (omega (arith, w, f e.emem)) n
