-- ===== src/Common/PageShift.antt =====
-- common.c, get_kb_shift: the shift is the binary logarithm of the page size in kB.
use native.Mathlib.Nat.{pow-suc}
use ptop.Prelude.{ℕ, zero, suc, ◌*◌, ◌/◌, ◌^◌, ◌≤◌, ◌<◌, arith, ltb, Bool-cases, inl, inr}
use ptop.Prelude.Int.{pos}
use ptop.Common.{shift_count, get_kb_shift}

shift_count-bounds :
    (fuel size : ℕ)
    → 1 ≤ size
    → size < 2 ^ fuel
    → (2 ^ shift_count fuel size ≤ size) × (size < 2 * 2 ^ shift_count fuel size)
unfolding shift_count
shift_count-bounds zero size h j = (omega (arith, h), omega (arith, j))
shift_count-bounds (suc fuel) size h j = elim (Bool-cases (ltb 1 size)) [
  | inr one ↦ rw one (omega (arith, h), ground arith)
  | inl more ↦
      let half = shift_count-bounds fuel (size / 2) (ground arith) (halved j) in
      rw (more, pow-suc) (omega (arith, half.0), omega (arith, half.1))
]
  where
    halved : size < 2 ^ suc fuel → size / 2 < 2 ^ fuel
    halved k = let k' : size < 2 ^ fuel * 2 = rw (← pow-suc) k in omega (arith, k')

-- For a page of 1 kB or more, less than 2^63 bytes, the shift is the k with
-- 2^k <= size in kB < 2^(k+1): the loop ends within its fuel.
pub get_kb_shift-bounds :
    (size : ℕ)
    → 1024 ≤ size
    → size < 2 ^ 63
    → (2 ^ get_kb_shift (pos size) ≤ size / 1024) × (size / 1024 < 2 * 2 ^ get_kb_shift (pos size))
unfolding get_kb_shift
get_kb_shift-bounds size h j =
    shift_count-bounds 63 (size / 1024) (omega (arith, h)) (omega (arith, j))
