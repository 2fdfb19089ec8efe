-- ===== src/Display/Print/Lines.antt =====
-- display.c: how wide the first line, the rows of the table and the elapsed time are.
use ptop.Prelude.{
  ℕ, suc, ◌+◌, ◌-◌, ◌*◌, ◌/◌, ◌≤◌, ◌<◌, ◌≡◌, ◌↔◌, List, [], ◌∷◌, ◌++◌, arith, length, length-append,
  replicate, length-replicate, max, codes, ◌==◌, if◌then◌else◌,
}
use ptop.Prelude.Int.{ℤ, pos, negsuc, pos_part, neg_part, ◌-ℤ◌}
use ptop.Files.{Text}
use ptop.Display.{daysecs, hoursecs, minsecs, take_unit, elapsed_parts, print_parts, val2elapstr}
use ptop.Display.Print.{
  digits, print_int, print_wide, print_left, half, lenavail, title_line, seventh, table_row,
  header_row,
}
use ptop.Display.Print.Width.{length-digits_two, length-digits_three}

abbrev pub size : ℤ → ℕ
size n = pos_part n + neg_part n

length-print_wide : (w : ℤ) → length (print_wide w []) ≡ size w
unfolding print_wide
length-print_wide (pos w) = omega (
  arith,
  length-append {A = ℕ} (replicate (w - 0) b' ') [],
  length-replicate {A = ℕ} (w - 0) b' ',
)
length-print_wide (negsuc n) = omega (arith, length-replicate {A = ℕ} (suc n - 0) b' ')

halves : (n : ℤ) → size (half n) + size (n -ℤ half n) ≡ size n
unfolding half ◌-ℤ◌
halves (pos n) = ground arith
halves (negsuc n) = ground arith

size-lenavail :
    (cols : ℕ) (node elapsed : Text)
    → 35 + length elapsed + length node ≤ cols
    → size (lenavail cols node elapsed) ≡ cols - (35 + length elapsed + length node)
unfolding ◌-ℤ◌
size-lenavail cols node elapsed h = ground arith

-- If the window is wide enough for the texts of the first line, with a date of 10 characters and a
-- time of 8, the line fills the window exactly.
pub length-title_line :
    (cols : ℕ) (node date time elapsed : Text)
    → length date ≡ 10
    → length time ≡ 8
    → 35 + length elapsed + length node ≤ cols
    → length (title_line cols node date time elapsed) ≡ cols
unfolding title_line
length-title_line cols node date time elapsed d t h =
    let avail = lenavail cols node elapsed in
    let len1 = half avail in
    let right = print_wide (avail -ℤ len1) [] in
    let end = elapsed ++ codes " elapsed" in
    omega (
      arith,
      d,
      t,
      h,
      length-append elapsed (codes " elapsed"),
      length-append right end,
      length-append time (right ++ end),
      length-append date (codes "  " ++ (time ++ (right ++ end))),
      length-append (print_wide len1 []) (date ++ (codes "  " ++ (time ++ (right ++ end)))),
      length-append node (print_wide len1 [] ++ (date ++ (codes "  " ++ (time ++ (right ++ end))))),
      length-print_wide len1,
      length-print_wide (avail -ℤ len1),
      halves avail,
      size-lenavail cols node elapsed h,
    )

pub length-print_left : (w : ℕ) (text : Text) → length (print_left w text) ≡ max w (length text)
unfolding print_left
length-print_left w text = ground (
  arith,
  length-append text (replicate (w - length text) b' '),
  length-replicate {A = ℕ} (w - length text) b' ',
)

-- The width of a row: a column is as wide as its text, if that is wider.
abbrev pub row_width : ℕ → List Text → Text → ℕ
row_width cols [] last = max (cols - 6 * seventh cols) (length last)
row_width cols (text ∷ texts) last = max (seventh cols) (length text) + row_width cols texts last

length-table_row :
    (cols : ℕ) (texts : List Text) (last : Text)
    → length (table_row cols texts last) ≡ row_width cols texts last
unfolding table_row
length-table_row cols [] last = length-print_left (cols - 6 * seventh cols) last
length-table_row cols (text ∷ texts) last = omega (
  arith,
  length-append (print_left (seventh cols) text) (table_row cols texts last),
  length-print_left (seventh cols) text,
  length-table_row cols texts last,
)

-- The line with the names of the columns fits the window if and only if that is wide enough for
-- "ALL(Percent)" in a seventh of it, which is 84 columns.
pub header_row-fits : (cols : ℕ) → (length (header_row cols) ≤ cols) ↔ (84 ≤ cols)
unfolding header_row
header_row-fits cols = (λ h. ground (arith, width, h), λ h. ground (arith, width, h))
  where
    width :
        length (header_row cols)
        ≡ max (seventh cols) 3
          + (max (seventh cols) 12
              + (max (seventh cols) 4
                  + (max (seventh cols) 5
                      + (max (seventh cols) 4
                          + (max (seventh cols) 4 + max (cols - 6 * seventh cols) 3)))))
    width =
        length-table_row cols
          (codes "PID"
            ∷ codes "ALL(Percent)"
            ∷ codes "ECPU"
            ∷ codes "EDISK"
            ∷ codes "ENET"
            ∷ codes "EMEM"
            ∷ [])
          (codes "CMD")

-- A row whose texts fit their columns fills the window.
pub length-table_row_fits :
    (cols : ℕ) (a b c d e f last : Text)
    → length a ≤ seventh cols
    → length b ≤ seventh cols
    → length c ≤ seventh cols
    → length d ≤ seventh cols
    → length e ≤ seventh cols
    → length f ≤ seventh cols
    → length last ≤ cols - 6 * seventh cols
    → length (table_row cols (a ∷ b ∷ c ∷ d ∷ e ∷ f ∷ []) last) ≡ cols
length-table_row_fits cols a b c d e f last ha hb hc hd he hf hl =
    omega
      (arith, length-table_row cols (a ∷ b ∷ c ∷ d ∷ e ∷ f ∷ []) last, ha, hb, hc, hd, he, hf, hl)

printed : List (ℤ × ℕ) → ℕ
printed parts = length (print_parts print_int parts)

printed-append : (ps qs : List (ℤ × ℕ)) → printed (ps ++ qs) ≡ printed ps + printed qs
unfolding printed print_parts
printed-append [] qs = omega arith
printed-append ((n, letter) ∷ ps) qs = omega (
  arith,
  length-append (print_int n) (letter ∷ print_parts print_int (ps ++ qs)),
  length-append (print_int n) (letter ∷ print_parts print_int ps),
  printed-append ps qs,
)

printed-one : (n letter k : ℕ) → length (digits 10 n) ≤ k → printed ((pos n, letter) ∷ []) ≤ suc k
unfolding printed print_parts print_int
printed-one n letter k h = omega (arith, h, length-append (digits 10 n) (letter ∷ []))

-- A unit takes the digits of its number and a letter, and leaves at most the unit.
printed-take_unit :
    (unit letter value k : ℕ)
    → length (digits 10 (value / unit)) ≤ k
    → printed (take_unit unit letter value).0 ≤ suc k
unfolding take_unit printed print_parts
printed-take_unit unit letter value k h = ground (arith, printed-one (value / unit) letter k h)

rest-days : (value : ℕ) → (take_unit daysecs b'd' value).1 ≤ daysecs
unfolding take_unit
rest-days value = ground arith

rest-hours : (value : ℕ) → (take_unit hoursecs b'h' value).1 ≤ hoursecs
unfolding take_unit
rest-hours value = ground arith

rest-minutes : (value : ℕ) → (take_unit minsecs b'm' value).1 ≤ minsecs
unfolding take_unit
rest-minutes value = ground arith

printed-rest :
    (value : ℕ) → value ≤ 60 → printed (if value == 0 then [] else (pos value, b's') ∷ []) ≤ 3
unfolding printed print_parts
printed-rest value h =
    ground (arith, printed-one value b's' 2 (length-digits_two 8 value (omega (arith, h))))

-- The text of less than 1000 days has at most 13 characters, as the comment of val2elapstr says.
pub length-val2elapstr :
    (value : ℕ) → value < 1000 * daysecs → length (val2elapstr print_int (pos value)) ≤ 13
unfolding val2elapstr elapsed_parts printed
length-val2elapstr value h =
    let d = take_unit daysecs b'd' value in
    let h1 = take_unit hoursecs b'h' d.1 in
    let m = take_unit minsecs b'm' h1.1 in
    let s : List (ℤ × ℕ) = if m.1 == 0 then [] else (pos m.1, b's') ∷ [] in
    omega (
      arith,
      printed-append d.0 (h1.0 ++ (m.0 ++ s)),
      printed-append h1.0 (m.0 ++ s),
      printed-append m.0 s,
      printed-take_unit daysecs b'd' value 3 (length-digits_three 7 _ (omega (arith, h))),
      printed-take_unit hoursecs b'h' d.1 2
          (length-digits_two 8 _ (omega (arith, rest-days value))),
      printed-take_unit minsecs b'm' h1.1 2 (length-digits_two 8 _ (omega (arith, rest-hours d.1))),
      printed-rest m.1 (rest-minutes h1.1),
    )
