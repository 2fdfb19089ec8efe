-- ===== src/Display.antt =====
-- display.c: the elapsed time that the first line shows, the numbers that the user types, and the
-- signal that is sent for them. The terminal and its library are not modelled.
pub mod Input
pub mod Table
pub mod Elapsed
pub mod Print
pub mod Keys
pub mod Screen
use ptop.Prelude.{
  ℕ, zero, suc, ◌+◌, ◌*◌, ◌-◌, ◌/◌, ◌%◌, ◌^◌, Bool, true, false, ◌&&◌, Option, none, some, List, [],
  ◌∷◌, ◌++◌, ◌==◌, ltb, if◌then◌else◌,
}
use ptop.Prelude.Int.{ℤ, pos, negsuc, eqb_ℤ, int_of_u32}
use ptop.Common.{u32_of_int}
use ptop.Files.{Text, File, Libc, is_digit}

-- DAYSECS, HOURSECS and MINSECS
abbrev pub daysecs : ℕ
daysecs = 24 * 60 * 60

abbrev pub hoursecs : ℕ
hoursecs = 60 * 60

abbrev pub minsecs : ℕ
minsecs = 60

-- One unit of the text, if the value is over it: the number before the letter, and the rest.
unfoldable pub take_unit : ℕ → ℕ → ℕ → List (ℤ × ℕ) × ℕ
take_unit unit letter value =
    if ltb unit value then ((pos (value / unit), letter) ∷ [], value % unit) else ([], value)

-- The numbers of val2elapstr, each with the letter behind it.
unfoldable pub elapsed_parts : ℤ → List (ℤ × ℕ)
unfolding take_unit
elapsed_parts (negsuc n) = (negsuc n, b's') ∷ []
elapsed_parts (pos value) =
    let (days, v1) = take_unit daysecs b'd' value in
    let (hours, v2) = take_unit hoursecs b'h' v1 in
    let (minutes, v3) = take_unit minsecs b'm' v2 in
    days ++ (hours ++ (minutes ++ (if v3 == 0 then [] else (pos v3, b's') ∷ [])))

-- The text, from what "%d" prints.
unfoldable pub print_parts : (ℤ → Text) → List (ℤ × ℕ) → Text
print_parts decimal [] = []
print_parts decimal ((n, letter) ∷ parts) = decimal n ++ (letter ∷ print_parts decimal parts)

unfoldable pub val2elapstr : (ℤ → Text) → ℤ → Text
unfolding elapsed_parts print_parts
val2elapstr decimal value = print_parts decimal (elapsed_parts value)

unfoldable pub numeric : Text → Bool
numeric [] = true
numeric (c ∷ cs) = is_digit c && numeric cs

-- What was typed, up to 15 bytes of it, decides over the value.
unfoldable pub getnumval : (Text → ℤ) → Text → ℤ → ℤ
unfolding numeric
getnumval atol [] valuenow = valuenow
getnumval atol (c ∷ cs) valuenow = if numeric (c ∷ cs) then atol (c ∷ cs) else valuenow

-- A `long` stored in an `int`.
abbrev pub int_of_long : ℤ → ℤ
int_of_long n = int_of_u32 (u32_of_int n)

-- What the key for a signal comes to: nothing, a message, or the call of `kill`.
pub data Signal : Type 0 where
  nothing_sent refused_pid_1 : Signal
  kill : ℤ → ℤ → Signal

-- The case of MKILLPROC, from the two answers of the user.
unfoldable pub kill_process : (Text → ℤ) → Text → Text → Signal
unfolding getnumval
kill_process atol typed_pid typed_signal =
    let killpid = int_of_long (getnumval atol typed_pid (pos 0)) in
    if eqb_ℤ killpid (pos 0)
    then nothing_sent
    else if eqb_ℤ killpid (negsuc 0)
    then nothing_sent
    else if eqb_ℤ killpid (pos 1)
    then refused_pid_1
    else kill killpid (int_of_long (getnumval atol typed_signal (pos 15)))

-- Whether the file of the first process has a second line.
unfoldable pub check_kernelpatch_status : File → Bool
check_kernelpatch_status none = false
check_kernelpatch_status (some []) = false
check_kernelpatch_status (some (line ∷ [])) = false
check_kernelpatch_status (some (line ∷ second ∷ _)) = true
