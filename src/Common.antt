-- ===== src/Common.antt =====
-- common.c: the counter differences, the page shift, and the sizes that the kernel is asked for.
pub mod Counter
pub mod PageShift
use ptop.Prelude.{
  Bool, true, false, ◌&&◌, ◌*◌, ◌==◌, Option, none, some, List, [], ◌∷◌, ℕ, zero, suc, ◌+◌, ◌-◌,
  ◌/◌, ◌%◌, ◌^◌, ltb, leb, if◌then◌else◌,
}
use ptop.Prelude.Int.{ℤ, pos, negsuc}

abbrev pub u32_mod : ℕ
u32_mod = 2 ^ 32

abbrev pub u64_mod : ℕ
u64_mod = 2 ^ 64

-- A `long` stored in a `u32`.
abbrev pub u32_of_int : ℤ → ℕ
u32_of_int (pos n) = n % u32_mod
u32_of_int (negsuc n) = u32_mod - 1 - n % u32_mod

-- A `long` stored in a `u64`.
abbrev pub u64_of_int : ℤ → ℕ
u64_of_int (pos n) = n % u64_mod
u64_of_int (negsuc n) = u64_mod - 1 - n % u64_mod

-- MAXU32VAL and MAXU64VAL of common.h
abbrev pub max_u32_val : ℕ
max_u32_val = 0x11111111

abbrev pub max_u64_val : ℕ
max_u64_val = 0x1111111111111111

-- u32 arithmetic wraps: `(MAXU32VAL - oldval) + newval`
unfoldable pub subcount : ℕ → ℕ → ℕ
subcount newval oldval =
    if leb oldval newval
    then newval - oldval
    else ((max_u32_val + u32_mod - oldval) % u32_mod + newval) % u32_mod

unfoldable pub u64_subcount : ℕ → ℕ → ℕ
u64_subcount newval oldval =
    if leb oldval newval
    then newval - oldval
    else ((max_u64_val + u64_mod - oldval) % u64_mod + newval) % u64_mod

-- The loop of `get_kb_shift` on a size in kB, on fuel: a `long` has 63 bits.
unfoldable pub shift_count : ℕ → ℕ → ℕ
shift_count zero size = 0
shift_count (suc fuel) size =
    let rest = shift_count fuel (size / 2) in if ltb 1 size then suc rest else 0

-- `size` is what `sysconf` says of the page size; a shift of -1 leaves -1.
unfoldable pub get_kb_shift : ℤ → ℕ
unfolding shift_count
get_kb_shift (pos size) = shift_count 63 (size / 1024)
get_kb_shift (negsuc n) = 0

-- `hz`, from what `sysconf` says.
unfoldable pub get_hz : ℤ → ℕ
get_hz ticks = u32_of_int ticks

-- `ws_row`, if `ioctl` says it, and a day's worth of rows if not.
unfoldable pub get_win_height : Option ℕ → ℕ
get_win_height none = 3600 * 24
get_win_height (some ws_row) = if ltb 2 ws_row then ws_row - 2 else 3600 * 24

-- "." and ".."
abbrev is_dots : List ℕ → Bool
is_dots (a ∷ []) = a == b'.'
is_dots (a ∷ b ∷ []) = (a == b'.') && (b == b'.')
is_dots [] = false
is_dots (_ ∷ _ ∷ _ ∷ _) = false

-- The entries of a device's directory, each with whether its stat file can be read.
unfoldable pub part_entries : List (List ℕ × Bool) → ℕ
part_entries [] = 0
part_entries ((name, readable) ∷ entries) =
    let rest = part_entries entries in
    if is_dots name then rest else if readable then suc rest else rest

unfoldable pub get_dev_part_nr : Option (List (List ℕ × Bool)) → ℕ
unfolding part_entries
get_dev_part_nr none = 0
get_dev_part_nr (some entries) = part_entries entries
