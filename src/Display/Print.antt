-- ===== src/Display/Print.antt =====
-- display.c: the texts that it makes with sprintf, and the lines of the screen in their columns.
-- What the C library's `%d`, `%0wd`, `%*s` and `%-ws` print is defined here; what it prints for a
-- `float` is a parameter.
pub mod Width
pub mod Lines
pub mod Digits
use ptop.Prelude.{
  ℕ, zero, suc, ◌+◌, ◌-◌, ◌*◌, ◌/◌, ◌%◌, ◌==◌, Bool, true, false, ◌&&◌, Option, none, some, List,
  [], ◌∷◌, ◌++◌, length, replicate, ltb, if◌then◌else◌, codes,
}
use ptop.Prelude.Int.{ℤ, pos, negsuc, ◌+ℤ◌, ◌-ℤ◌}
use ptop.Files.{Text}

-- The digits of a number, on fuel: an `int` has 10 at most.
unfoldable pub digits : ℕ → ℕ → Text
digits zero n = []
digits (suc fuel) n =
    let front = digits fuel (n / 10) in
    if ltb n 10 then (b'0' + n) ∷ [] else front ++ ((b'0' + n % 10) ∷ [])

-- `%d`
unfoldable pub print_int : ℤ → Text
unfolding digits
print_int (pos n) = digits 10 n
print_int (negsuc n) = b'-' ∷ digits 10 (suc n)

-- `%0wd`
unfoldable pub print_zeros : ℕ → ℤ → Text
unfolding digits
print_zeros w (pos n) = replicate (w - length (digits 10 n)) b'0' ++ digits 10 n
print_zeros w (negsuc n) =
    b'-' ∷ replicate (w - 1 - length (digits 10 (suc n))) b'0' ++ digits 10 (suc n)

-- `%*s`; a negative width puts the blanks behind the text.
unfoldable pub print_wide : ℤ → Text → Text
print_wide (pos w) text = replicate (w - length text) b' ' ++ text
print_wide (negsuc n) text = text ++ replicate (suc n - length text) b' '

-- `%-ws`
unfoldable pub print_left : ℕ → Text → Text
print_left w text = text ++ replicate (w - length text) b' '

-- What `localtime` makes of a time. The fields are ints; those but the year are not negative.
pub record Tm : Type 0 where
  pub tm_sec : ℕ
  pub tm_min : ℕ
  pub tm_hour : ℕ
  pub tm_mday : ℕ
  pub tm_mon : ℕ
  pub tm_year : ℤ

unfoldable pub convtime : Tm → Text
convtime t =
    print_zeros 2 (pos t.tm_hour)
    ++ (b':' ∷ print_zeros 2 (pos t.tm_min) ++ (b':' ∷ print_zeros 2 (pos t.tm_sec)))

unfoldable pub convdate : Tm → Text
convdate t =
    print_zeros 4 (t.tm_year +ℤ pos 1900)
    ++ (b'/' ∷ print_zeros 2 (pos (t.tm_mon + 1)) ++ (b'/' ∷ print_zeros 2 (pos t.tm_mday)))

-- `n / 2` on ints
unfoldable pub half : ℤ → ℤ
half (pos n) = pos (n / 2)
half (negsuc n) = pos 0 -ℤ pos (suc n / 2)

-- The columns of the first line that are left for blanks.
abbrev pub lenavail : ℕ → Text → Text → ℤ
lenavail cols node elapsed = pos cols -ℤ pos (35 + length elapsed + length node)

-- The first line, from the width of the window, the name of the node, the date, the time and the
-- text that val2elapstr leaves.
unfoldable pub title_line : ℕ → Text → Text → Text → Text → Text
unfolding half print_wide
title_line cols node date time elapsed =
    let len1 = half (lenavail cols node elapsed) in
    codes "pTop - "
    ++ (node
        ++ (print_wide len1 []
            ++ (date
                ++ (codes "  "
                    ++ (time
                        ++ (print_wide (lenavail cols node elapsed -ℤ len1) []
                            ++ (elapsed ++ codes " elapsed")))))))

-- The widths of the columns: six of a seventh, and what is left.
abbrev pub seventh : ℕ → ℕ
seventh cols = cols / 7

-- The six columns and the last one.
unfoldable pub table_row : ℕ → List Text → Text → Text
table_row cols [] last = print_left (cols - 6 * seventh cols) last
table_row cols (text ∷ texts) last = print_left (seventh cols) text ++ table_row cols texts last

-- The line with the names of the columns.
unfoldable pub header_row : ℕ → Text
unfolding table_row print_left
header_row cols =
    table_row cols
      (codes "PID"
        ∷ codes "ALL(Percent)"
        ∷ codes "ECPU"
        ∷ codes "EDISK"
        ∷ codes "ENET"
        ∷ codes "EMEM"
        ∷ [])
      (codes "CMD")

-- The time, and what `localtime` makes of it.
unfoldable pub get_localtime : (ℤ → Tm) → ℤ → ℤ × Tm
get_localtime localtime timer = (timer, localtime timer)

-- `!strcmp(e, K_ISO)`
abbrev is_iso : Text → Bool
is_iso (a ∷ b ∷ c ∷ []) = (a == b'I') && (b == b'S') && (c == b'O')
is_iso _ = false

-- The line printed before the first cycle, and what is returned: 1 for the format "%Y-%m-%d". `e` is
-- the environment's S_TIME_FORMAT, `strftime` what the C library makes of a format.
unfoldable pub print_gal_header :
    (Text → Tm → Text) → Option Text → Tm → Text → Text → Text → Text → ℤ → ℤ × Text
unfolding print_int
print_gal_header strftime e rectime sysname release nodename machine cpu_nr =
    let iso : Bool = elim e [ none ↦ false | some format ↦ is_iso format ] in
    let cur_date = strftime (if iso then codes "%Y-%m-%d" else codes "%x") rectime in
    (
      if iso then pos 1 else pos 0,
      sysname
          ++ (codes " "
              ++ (release
                  ++ (codes " ("
                      ++ (nodename
                          ++ (codes ") \t"
                              ++ (cur_date
                                  ++ (codes " \t_"
                                      ++ (machine
                                          ++ (codes "_\t("
                                              ++ (print_int cpu_nr ++ codes " CPU)\n")))))))))),
    )
