-- ===== src/MStats/RoundTrip.antt =====
-- m_stats.c, read_smaps: what is read of /proc/<pid>/smaps is the sums over the mappings, in a file
-- with the lines whose numbers are read.
use ptop.Prelude.{
  ℕ, ◌+◌, ◌%◌, ◌^◌, ◌<◌, ◌≡◌, refl, ◌∙◌, ap, arith, false, some, List, [], ◌∷◌, ◌++◌, codes, ◌==◌,
}
use ptop.Common.{u32_mod}
use ptop.Files.{Text, Libc, goes_on, starts_with}
use ptop.MStats.{StatSmaps, zero_smaps, smaps_line, smaps_lines, read_smaps}

-- One mapping: the line of its addresses, and its numbers.
pub record Mapping : Type 0 where
  pub addresses : Text
  pub numbers : StatSmaps

-- The lines of one mapping whose numbers are read, behind the line of its addresses, and of several.
abbrev pub print_numbers : (ℕ → Text) → StatSmaps → List Text
print_numbers number s =
    (codes "Size:" ++ number s.size)
    ∷ (codes "Rss:" ++ number s.rss)
    ∷ (codes "Pss:" ++ number s.pss)
    ∷ (codes "Shared_Clean:" ++ number s.shared_clean)
    ∷ (codes "Shared_Dirty:" ++ number s.shared_dirty)
    ∷ (codes "Private_Clean:" ++ number s.private_clean)
    ∷ (codes "Private_Dirty:" ++ number s.private_dirty)
    ∷ (codes "Referenced:" ++ number s.referenced)
    ∷ (codes "Swap:" ++ number s.swap)
    ∷ []

abbrev pub print_mapping : (ℕ → Text) → Mapping → List Text
print_mapping number m = m.addresses ∷ print_numbers number m.numbers

abbrev pub print_smaps : (ℕ → Text) → List Mapping → List Text
print_smaps number [] = []
print_smaps number (m ∷ ms) = print_mapping number m ++ print_smaps number ms

-- The line of the addresses begins with no letter that a key begins with.
abbrev pub IsAddress : Text → Type 0
IsAddress [] = Unit
IsAddress (d ∷ ds) = ((b'S' == d) ≡ false) × ((b'R' == d) ≡ false) × ((b'P' == d) ≡ false)

-- The numbers that an int holds.
abbrev pub int_bound : ℕ
int_bound = 2 ^ 31

pub record IsInt (s : StatSmaps) : Type 0 where
  pub size : s.size < int_bound
  pub rss : s.rss < int_bound
  pub pss : s.pss < int_bound
  pub shared_clean : s.shared_clean < int_bound
  pub shared_dirty : s.shared_dirty < int_bound
  pub private_clean : s.private_clean < int_bound
  pub private_dirty : s.private_dirty < int_bound
  pub referenced : s.referenced < int_bound
  pub swap : s.swap < int_bound

abbrev pub AllAddressed : List Mapping → Type 0
AllAddressed [] = Unit
AllAddressed (m ∷ ms) = (IsAddress m.addresses × IsInt m.numbers) × AllAddressed ms

-- The sums of the numbers, and what 32 bits keep of them.
abbrev pub plus : StatSmaps → StatSmaps → StatSmaps
plus s t = record {
  size = s.size + t.size;
  rss = s.rss + t.rss;
  pss = s.pss + t.pss;
  shared_clean = s.shared_clean + t.shared_clean;
  shared_dirty = s.shared_dirty + t.shared_dirty;
  private_clean = s.private_clean + t.private_clean;
  private_dirty = s.private_dirty + t.private_dirty;
  referenced = s.referenced + t.referenced;
  swap = s.swap + t.swap;
}

abbrev pub total : List Mapping → StatSmaps → StatSmaps
total [] s = s
total (m ∷ ms) s = total ms (plus s m.numbers)

abbrev pub low_bits : StatSmaps → StatSmaps
low_bits s = record {
  size = s.size % u32_mod;
  rss = s.rss % u32_mod;
  pss = s.pss % u32_mod;
  shared_clean = s.shared_clean % u32_mod;
  shared_dirty = s.shared_dirty % u32_mod;
  private_clean = s.private_clean % u32_mod;
  private_dirty = s.private_dirty % u32_mod;
  referenced = s.referenced % u32_mod;
  swap = s.swap % u32_mod;
}

mod-plus : (a n : ℕ) → (a % u32_mod + n) % u32_mod ≡ (a + n) % u32_mod
mod-plus a n = omega arith

module _ (c : Libc) (number : ℕ → Text)
    (scan : (n : ℕ) → n < int_bound → c.scan_numbers (number n) ≡ n ∷ []) where
  smaps_line-address :
      (line : Text) (s : StatSmaps × StatSmaps) → IsAddress line → smaps_line c line s ≡ s
  unfolding smaps_line starts_with
  smaps_line-address [] s h = refl
  smaps_line-address (d ∷ ds) s (a, b, e) = rw (a, b, e) refl

  smaps_lines-numbers :
      (lines : List Text) (n scanned s : StatSmaps)
      → IsInt n
      → smaps_lines c (print_numbers number n ++ lines) (scanned, low_bits s)
        ≡ smaps_lines c lines (n, low_bits (plus s n))
  unfolding smaps_lines smaps_line starts_with
  smaps_lines-numbers lines n scanned s i =
      simp
        (
          scan n.size i.size,
          scan n.rss i.rss,
          scan n.pss i.pss,
          scan n.shared_clean i.shared_clean,
          scan n.shared_dirty i.shared_dirty,
          scan n.private_clean i.private_clean,
          scan n.private_dirty i.private_dirty,
          scan n.referenced i.referenced,
          scan n.swap i.swap,
          mod-plus,
        )
        refl

  smaps_lines-mapping :
      (m : Mapping) (lines : List Text) (scanned s : StatSmaps)
      → IsAddress m.addresses
      → IsInt m.numbers
      → smaps_lines c (print_mapping number m ++ lines) (scanned, low_bits s)
        ≡ smaps_lines c lines (m.numbers, low_bits (plus s m.numbers))
  unfolding smaps_lines
  smaps_lines-mapping m lines scanned s h i =
      ap (smaps_lines c (print_numbers number m.numbers ++ lines))
        (smaps_line-address m.addresses (scanned, low_bits s) h)
      ∙ smaps_lines-numbers lines m.numbers scanned s i

  smaps_lines-print_smaps :
      (ms : List Mapping) (scanned s : StatSmaps)
      → AllAddressed ms
      → (smaps_lines c (print_smaps number ms) (scanned, low_bits s)).1 ≡ low_bits (total ms s)
  unfolding smaps_lines
  smaps_lines-print_smaps [] scanned s h = refl
  smaps_lines-print_smaps (m ∷ ms) scanned s h =
      ap (λ (r : StatSmaps × StatSmaps). r.1)
        (smaps_lines-mapping m (print_smaps number ms) scanned s h.0.0 h.0.1)
      ∙ smaps_lines-print_smaps ms m.numbers (plus s m.numbers) h.1

  -- If `%d` converts a printed number below 2^31 to that number, `read_smaps` reads, of a file that
  -- has the line of the addresses and the nine lines of Size to Swap for each mapping, with numbers
  -- below 2^31 and an address that does not begin with S, R or P, the sums of the numbers, each up
  -- to what 32 bits keep of it, whatever the uninitialised variable held.
  pub read_smaps-print_smaps :
      (scanned : StatSmaps) (ms : List Mapping)
      → AllAddressed ms
      → read_smaps c scanned (some (print_smaps number ms))
        ≡ goes_on (low_bits (total ms zero_smaps))
  unfolding read_smaps
  read_smaps-print_smaps scanned ms h = ap goes_on (smaps_lines-print_smaps ms scanned zero_smaps h)
