-- ===== src/MStats.antt =====
-- m_stats.c: the memory of a process, and the memory and network of the system.
pub mod RoundTrip
use ptop.Prelude.{
  ℕ, suc, ◌+◌, ◌%◌, Option, none, some, List, [], ◌∷◌, if◌then◌else◌, drop, take, length, ◌==◌, ◌-◌,
  codes, ltb, ◌>>=◌, Bool, true, false,
}
use ptop.Common.{u32_mod}
use ptop.Files.{Text, File, Libc, Run, goes_on, exits, starts_with, assigned, assigned_text}
use ptop.Perf.{Kernel, Counters, read_cpu_counter}
use ptop.Records.{SysInfo}

-- struct stat_smaps
pub record StatSmaps : Type 0 where
  pub size : ℕ
  pub rss : ℕ
  pub pss : ℕ
  pub shared_clean : ℕ
  pub shared_dirty : ℕ
  pub private_clean : ℕ
  pub private_dirty : ℕ
  pub referenced : ℕ
  pub swap : ℕ

abbrev pub zero_smaps : StatSmaps
zero_smaps = record {
  size = 0;
  rss = 0;
  pss = 0;
  shared_clean = 0;
  shared_dirty = 0;
  private_clean = 0;
  private_dirty = 0;
  referenced = 0;
  swap = 0;
}

abbrev add32 : ℕ → ℕ → ℕ
add32 a b = (a + b) % u32_mod

module _ (c : Libc) where
  -- One line of the file: `scanned` is `stmaps`, which keeps what it held where nothing is
  -- converted, and `stats` the sums.
  unfoldable pub smaps_line : Text → StatSmaps × StatSmaps → StatSmaps × StatSmaps
  smaps_line line (scanned, stats) =
      let value = λ (skip old : ℕ). assigned (c.scan_numbers (drop skip line)) 0 old in
      if starts_with (codes "Size:") line
      then (let n = value 5 scanned.size in
          (record scanned { size = n }, record stats { size = add32 stats.size n }))
      else if starts_with (codes "Rss:") line
      then (let n = value 4 scanned.rss in
          (record scanned { rss = n }, record stats { rss = add32 stats.rss n }))
      else if starts_with (codes "Pss:") line
      then (let n = value 4 scanned.pss in
          (record scanned { pss = n }, record stats { pss = add32 stats.pss n }))
      else if starts_with (codes "Shared_Clean:") line
      then (let n = value 13 scanned.shared_clean in
          (
            record scanned { shared_clean = n },
            record stats { shared_clean = add32 stats.shared_clean n },
          ))
      else if starts_with (codes "Shared_Dirty:") line
      then (let n = value 13 scanned.shared_dirty in
          (
            record scanned { shared_dirty = n },
            record stats { shared_dirty = add32 stats.shared_dirty n },
          ))
      else if starts_with (codes "Private_Clean:") line
      then (let n = value 14 scanned.private_clean in
          (
            record scanned { private_clean = n },
            record stats { private_clean = add32 stats.private_clean n },
          ))
      else if starts_with (codes "Private_Dirty:") line
      then (let n = value 14 scanned.private_dirty in
          (
            record scanned { private_dirty = n },
            record stats { private_dirty = add32 stats.private_dirty n },
          ))
      else if starts_with (codes "Referenced:") line
      then (let n = value 11 scanned.referenced in
          (
            record scanned { referenced = n },
            record stats { referenced = add32 stats.referenced n },
          ))
      else if starts_with (codes "Swap:") line
      then (let n = value 5 scanned.swap in
          (record scanned { swap = n }, record stats { swap = add32 stats.swap n }))
      else (scanned, stats)

  unfoldable pub smaps_lines : List Text → StatSmaps × StatSmaps → StatSmaps × StatSmaps
  unfolding smaps_line
  smaps_lines [] s = s
  smaps_lines (line ∷ lines) s = smaps_lines lines (smaps_line line s)

  -- `scanned` is what the uninitialised `stmaps` holds. A file that cannot be opened ends the
  -- program.
  unfoldable pub read_smaps : StatSmaps → File → Run StatSmaps
  unfolding smaps_lines
  read_smaps scanned none = exits 2
  read_smaps scanned (some lines) = goes_on (smaps_lines lines (scanned, zero_smaps)).1

  -- The loop of `total_active_memory`, which stops at the first line that fits.
  unfoldable pub active_line : List Text → ℕ → ℕ
  active_line [] active = active
  active_line (line ∷ lines) active =
      if starts_with (codes "Active:") line
      then assigned (c.scan_numbers (drop 7 line)) 0 active
      else active_line lines active

  -- `active` is what the uninitialised variable holds.
  unfoldable pub total_active_memory : ℕ → File → Run ℕ
  unfolding active_line
  total_active_memory active none = exits 2
  total_active_memory active (some lines) = goes_on (active_line lines active)

-- A fault where `read_cpu_counter` faults.
unfoldable pub stat_sysmem_stats : {F : Type 0} → Kernel → Counters → SysInfo F → Option (SysInfo F)
unfolding read_cpu_counter
stat_sysmem_stats k cs info = elim (read_cpu_counter k cs) [
  | none ↦ none
  | some n ↦ some (record info { memaccess = n })
]

-- The number of blanks that a line begins with.
unfoldable pub leading_blanks : Text → ℕ
leading_blanks [] = 0
leading_blanks (c ∷ cs) = if c == b' ' then suc (leading_blanks cs) else 0

module _ (c : Libc) where
  -- A word and its final zero fit `char wireless[10]`.
  abbrev pub fits_wireless : Option Text → Bool
  fits_wireless none = true
  fits_wireless (some word) = ltb (length word) 10

  -- The first interface whose name begins with "eth", if there is one, from what `%s` scans of each
  -- line: `wireless` keeps what it held if a line has no word. A longer word is written past its
  -- end, which is a fault.
  unfoldable pub wireless_name : List Text → Text → Option (Option Text)
  wireless_name [] wireless = some none
  wireless_name (line ∷ lines) wireless =
      let word = assigned_text (c.scan_word line) wireless in
      let rest = wireless_name lines word in
      if fits_wireless (c.scan_word line)
      then (if starts_with (codes "eth") word then some (some word) else rest)
      else none

  -- The first line of NET_DEV whose name agrees with `wireless` but for its last byte: the numbers
  -- behind the name are the bytes received and, the ninth, the bytes sent.
  unfoldable pub device_lines : {F : Type 0} → Text → List Text → Text → SysInfo F → SysInfo F
  device_lines wireless [] name info = info
  device_lines wireless (line ∷ lines) name info =
      let len = length wireless in
      let word = take len (assigned_text (c.scan_word line) name) in
      let rest = device_lines wireless lines word info in
      let ns = c.scan_numbers (drop (len + leading_blanks line) line) in
      if starts_with (take (len - 1) wireless) word
      then record info {
        totalnetrcv = assigned ns 0 info.totalnetrcv;
        totalnetsnd = assigned ns 8 info.totalnetsnd;
      }
      else rest

  -- What NET_DEV adds, if there is such an interface and the file.
  unfoldable pub network_of : {F : Type 0} → Text → Option Text → File → SysInfo F → SysInfo F
  unfolding device_lines
  network_of garbage none dev info = info
  network_of garbage (some wireless) none info = info
  network_of garbage (some wireless) (some devices) info =
      device_lines wireless devices garbage info

  -- Both totals are cleared first. `garbage` is what the uninitialised names hold.
  unfoldable pub stat_sysnet_stats :
      {F : Type 0} → Text → File → File → SysInfo F → Option (SysInfo F)
  unfolding wireless_name network_of
  stat_sysnet_stats garbage none dev info = some (record info { totalnetrcv = 0; totalnetsnd = 0 })
  stat_sysnet_stats garbage (some lines) dev info = wireless_name lines garbage >>= λ wireless.
      some (network_of garbage wireless dev (record info { totalnetrcv = 0; totalnetsnd = 0 }))
