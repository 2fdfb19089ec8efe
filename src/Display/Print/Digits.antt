-- ===== src/Display/Print/Digits.antt =====
-- display.c: the texts of numbers are the numbers; ten digits are enough for an int.
use native.Mathlib.Nat.{pow-suc}
use ptop.Prelude.{ℕ, zero, suc, ◌+◌, ◌-◌, ◌*◌, ◌/◌, ◌%◌, ◌^◌, ◌<◌, ◌≡◌, refl, [], ◌∷◌, ◌++◌, arith}
use ptop.Files.{Text}
use ptop.Display.Print.{digits}

-- The number that digits stand for, behind those read already.
abbrev pub number_of : ℕ → Text → ℕ
number_of n [] = n
number_of n (c ∷ cs) = number_of (n * 10 + (c - b'0')) cs

number_of-append : (n : ℕ) (cs ds : Text) → number_of n (cs ++ ds) ≡ number_of (number_of n cs) ds
number_of-append n [] ds = refl
number_of-append n (c ∷ cs) ds = number_of-append (n * 10 + (c - b'0')) cs ds

-- With as many units of fuel as the number has digits, or more, the digits are those of the number.
pub number_of-digits : (fuel n : ℕ) → n < 10 ^ fuel → number_of 0 (digits fuel n) ≡ n
unfolding digits
number_of-digits zero n h = omega arith
number_of-digits (suc fuel) n h =
    let ten : 10 ^ suc fuel ≡ 10 * 10 ^ fuel = rw pow-suc (omega arith) in
    ground (
      arith,
      number_of-append 0 (digits fuel (n / 10)) ((b'0' + n % 10) ∷ []),
      number_of-digits fuel (n / 10) (omega (arith, h, ten)),
    )
