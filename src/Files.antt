-- ===== src/Files.antt =====
-- The files under /proc and /sys that the program reads, and the C library that reads them. A text
-- is a list of bytes. An open file is the list of what `fgets` delivers, chunk by chunk, for the
-- buffer at hand; a file that cannot be opened is `none`. What `sscanf` and its kin convert is a
-- parameter.
use ptop.Prelude.{
  ℕ, zero, suc, Bool, true, false, ◌&&◌, Option, none, some, List, [], ◌∷◌, ◌==◌, leb,
}
use ptop.Prelude.Int.{ℤ}

abbrev pub Text : Type 0
Text = List ℕ

abbrev pub File : Type 0
File = Option (List Text)

-- `sscanf(text, "%u…%u")` and its kin: the numbers converted, in order, up to the first that is not
-- one. Of the memory that the program writes past, `usable n` is the number of bytes that
-- `malloc(n)` really gives, and `spare` the number of bytes that the compiler leaves unused behind
-- the variable that systemEnergy clears.
pub record Libc : Type 0 where
  pub scan_numbers : Text → List ℕ
  pub scan_word : Text → Option Text
  pub scan_int : Text → Option ℤ
  pub atoi : Text → ℤ
  pub atol : Text → ℤ
  pub usable : ℕ → ℕ
  pub spare : ℕ

-- A run of the program goes on, or has called `exit` with a status.
pub data Run {ℓ} (A : Type ℓ) : Type ℓ where
  goes_on : A → Run A
  exits : ℕ → Run A

-- What holds of the value, if the program goes on.
abbrev pub OnRun {ℓ} : {A : Type ℓ} → (A → Type 0) → Run A → Type 0
OnRun P (exits n) = Unit
OnRun P (goes_on a) = P a

-- `!strncmp(text, prefix, strlen(prefix))`
unfoldable pub starts_with : Text → Text → Bool
starts_with [] text = true
starts_with (c ∷ cs) [] = false
starts_with (c ∷ cs) (d ∷ ds) = (c == d) && starts_with cs ds

-- What a field holds after `sscanf`: the number of its place, or what it held.
abbrev pub assigned : List ℕ → ℕ → ℕ → ℕ
assigned [] i old = old
assigned (n ∷ ns) zero old = n
assigned (n ∷ ns) (suc i) old = assigned ns i old

abbrev pub assigned_int : Option ℤ → ℤ → ℤ
assigned_int none old = old
assigned_int (some n) old = n

abbrev pub assigned_text : Option Text → Text → Text
assigned_text none old = old
assigned_text (some t) old = t

-- isdigit
abbrev pub is_digit : ℕ → Bool
is_digit c = leb b'0' c && leb c b'9'
