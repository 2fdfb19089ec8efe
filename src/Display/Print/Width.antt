-- ===== src/Display/Print/Width.antt =====
-- display.c: the texts fit the buffers that they are printed into, and the lines fill the window.
use ptop.Prelude.{
  ℕ, suc, ◌+◌, ◌-◌, ◌/◌, ◌%◌, ◌≤◌, ◌<◌, ◌≡◌, [], ◌∷◌, ◌++◌, arith, length, length-append, replicate,
  length-replicate,
}
use ptop.Prelude.Int.{pos, ◌+ℤ◌}
use ptop.Display.Print.{Tm, digits, print_zeros, convtime, convdate}

-- One digit, and one more for ten times as much.
length-digits_one : (fuel n : ℕ) → n < 10 → length (digits (suc fuel) n) ≤ 1
unfolding digits
length-digits_one fuel n h = ground arith

length-digits_step :
    (fuel k n : ℕ) → length (digits fuel (n / 10)) ≤ k → length (digits (suc fuel) n) ≤ suc k
unfolding digits
length-digits_step fuel k n h =
    ground (arith, length-append (digits fuel (n / 10)) ((b'0' + n % 10) ∷ []))

pub length-digits_two : (fuel n : ℕ) → n < 100 → length (digits (suc (suc fuel)) n) ≤ 2
length-digits_two fuel n h =
    length-digits_step (suc fuel) 1 n (length-digits_one fuel (n / 10) (omega (arith, h)))

pub length-digits_three : (fuel n : ℕ) → n < 1000 → length (digits (suc (suc (suc fuel))) n) ≤ 3
length-digits_three fuel n h =
    length-digits_step (suc (suc fuel)) 2 n (length-digits_two fuel (n / 10) (omega (arith, h)))

length-digits_four : (fuel n : ℕ) → n < 10000 → length (digits (suc (suc (suc (suc fuel)))) n) ≤ 4
length-digits_four fuel n h =
    length-digits_step (suc (suc (suc fuel))) 3 n
      (length-digits_three fuel (n / 10) (omega (arith, h)))

length-print_zeros : (w n : ℕ) → length (digits 10 n) ≤ w → length (print_zeros w (pos n)) ≡ w
unfolding print_zeros
length-print_zeros w n h = omega (
  arith,
  h,
  length-append (replicate (w - length (digits 10 n)) b'0') (digits 10 n),
  length-replicate {A = ℕ} (w - length (digits 10 n)) b'0',
)

two_digits : (n : ℕ) → n < 100 → length (print_zeros 2 (pos n)) ≡ 2
two_digits n h = length-print_zeros 2 n (length-digits_two 8 n h)

-- The ranges that the C library documents for a broken-down time, and a year of four digits.
pub record IsTm (t : Tm) : Type 0 where
  pub sec : t.tm_sec ≤ 60
  pub min : t.tm_min ≤ 59
  pub hour : t.tm_hour ≤ 23
  pub mday : t.tm_mday ≤ 31
  pub mon : t.tm_mon ≤ 11
  pub year : ℕ
  pub is_year : t.tm_year +ℤ pos 1900 ≡ pos year
  pub four_digits : year < 10000

-- For a time within its ranges, and a year of at most four digits, the text of convtime has 8
-- characters and that of convdate 10: with the final zero they fit the 9 and the 11 bytes that the
-- comments ask for.
pub length-convtime : (t : Tm) → IsTm t → (length (convtime t) ≡ 8) × (length (convdate t) ≡ 10)
unfolding convtime convdate
length-convtime t v = (
  omega (
    arith,
    length-append (print_zeros 2 (pos t.tm_hour))
        (b':' ∷ print_zeros 2 (pos t.tm_min) ++ (b':' ∷ print_zeros 2 (pos t.tm_sec))),
    length-append (print_zeros 2 (pos t.tm_min)) (b':' ∷ print_zeros 2 (pos t.tm_sec)),
    two_digits t.tm_hour (omega (arith, v.hour)),
    two_digits t.tm_min (omega (arith, v.min)),
    two_digits t.tm_sec (omega (arith, v.sec)),
  ),
  omega (
    arith,
    length-append (print_zeros 4 (t.tm_year +ℤ pos 1900))
        (b'/' ∷ print_zeros 2 (pos (t.tm_mon + 1)) ++ (b'/' ∷ print_zeros 2 (pos t.tm_mday))),
    length-append (print_zeros 2 (pos (t.tm_mon + 1))) (b'/' ∷ print_zeros 2 (pos t.tm_mday)),
    four,
    two_digits (t.tm_mon + 1) (omega (arith, v.mon)),
    two_digits t.tm_mday (omega (arith, v.mday)),
  ),
)
  where
    four : length (print_zeros 4 (t.tm_year +ℤ pos 1900)) ≡ 4
    four = rw v.is_year (length-print_zeros 4 v.year (length-digits_four 6 v.year v.four_digits))
