-- ===== src/Common/Counter.antt =====
-- common.c: what `subcount` and `u64_subcount` return, with and without a wrapped counter.
use ptop.Prelude.{ℕ, ◌+◌, ◌-◌, ◌%◌, ◌<◌, ◌≡◌, ◌≢◌, arith}
use ptop.Common.{u32_mod, u64_mod, max_u32_val, max_u64_val, subcount, u64_subcount}

-- The increase of a 32-bit counter modulo 2^32.
abbrev pub increase32 : ℕ → ℕ → ℕ
increase32 newval oldval = (newval + u32_mod - oldval) % u32_mod

abbrev increase64 : ℕ → ℕ → ℕ
increase64 newval oldval = (newval + u64_mod - oldval) % u64_mod

-- A 32-bit counter that did not wrap: the function returns what was added.
pub subcount_forward : (n k : ℕ) → n + k < u32_mod → subcount (n + k) n ≡ k
unfolding subcount
subcount_forward n k h = ground arith

-- A 32-bit counter that wrapped: what the function returns is off from the true increase by
-- MAXU32VAL, modulo 2^32.
pub subcount_wrapped :
    (new old : ℕ)
    → new < old
    → old < u32_mod
    → subcount new old ≡ (increase32 new old + max_u32_val) % u32_mod
unfolding subcount
subcount_wrapped new old h k = ground arith

-- It is never the true increase then.
pub subcount-ne-increase :
    (new old : ℕ) → new < old → old < u32_mod → subcount new old ≢ increase32 new old
unfolding subcount
subcount-ne-increase new old h k = ground arith

-- A 64-bit counter that wrapped: what the function returns is off from the true increase by
-- MAXU64VAL, modulo 2^64.
u64_subcount_wrapped :
    (new old : ℕ)
    → new < old
    → old < u64_mod
    → u64_subcount new old ≡ (increase64 new old + max_u64_val) % u64_mod
unfolding u64_subcount
u64_subcount_wrapped new old h k = ground arith
