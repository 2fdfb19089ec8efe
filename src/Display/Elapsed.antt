-- ===== src/Display/Elapsed.antt =====
-- display.c, val2elapstr: the parts of the text add up to the value.
use ptop.Prelude.{ℕ, ◌+◌, ◌*◌, ◌≡◌, List, [], ◌∷◌, ◌++◌, arith, ◌==◌, if◌then◌else◌}
use ptop.Prelude.Int.{ℤ, pos, pos_part}
use ptop.Display.{daysecs, hoursecs, minsecs, take_unit, elapsed_parts}

-- The seconds that a letter stands for.
abbrev pub unit_of : ℕ → ℕ
unit_of letter =
    if letter == b'd'
    then daysecs
    else if letter == b'h'
    then hoursecs
    else if letter == b'm'
    then minsecs
    else 1

abbrev pub seconds : List (ℤ × ℕ) → ℕ
seconds [] = 0
seconds ((n, letter) ∷ parts) = pos_part n * unit_of letter + seconds parts

seconds-append : (ps qs : List (ℤ × ℕ)) → seconds (ps ++ qs) ≡ seconds ps + seconds qs
seconds-append [] qs = omega arith
seconds-append ((n, letter) ∷ ps) qs = omega (arith, seconds-append ps qs)

seconds-days :
    (value : ℕ)
    → seconds (take_unit daysecs b'd' value).0 + (take_unit daysecs b'd' value).1 ≡ value
unfolding take_unit
seconds-days value = ground arith

seconds-hours :
    (value : ℕ)
    → seconds (take_unit hoursecs b'h' value).0 + (take_unit hoursecs b'h' value).1 ≡ value
unfolding take_unit
seconds-hours value = ground arith

seconds-minutes :
    (value : ℕ)
    → seconds (take_unit minsecs b'm' value).0 + (take_unit minsecs b'm' value).1 ≡ value
unfolding take_unit
seconds-minutes value = ground arith

seconds-rest : (value : ℕ) → seconds (if value == 0 then [] else (pos value, b's') ∷ []) ≡ value
seconds-rest value = ground arith

-- The numbers of the text, each times the seconds that its letter stands for, add up to the value.
pub seconds-elapsed_parts : (value : ℕ) → seconds (elapsed_parts (pos value)) ≡ value
unfolding elapsed_parts
seconds-elapsed_parts value =
    let d = take_unit daysecs b'd' value in
    let h = take_unit hoursecs b'h' d.1 in
    let m = take_unit minsecs b'm' h.1 in
    omega (
      arith,
      seconds-append d.0 _,
      seconds-append h.0 _,
      seconds-append m.0 _,
      seconds-days value,
      seconds-hours d.1,
      seconds-minutes h.1,
      seconds-rest m.1,
    )
