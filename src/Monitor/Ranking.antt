-- ===== src/Monitor/Ranking.antt =====
-- ptop.c, add_higher_process_info: the table of the processes with the highest cpu share.
pub mod Order
use ptop.Prelude.{
  ℕ, zero, suc, ◌+◌, Bool, true, false, not, ◌&&◌, Option, none, some, List, ◌==◌, leb, get_elem?,
  set, if◌then◌else◌, ◌>>=◌,
}
use ptop.Floats.{Floats}
use ptop.Records.{ProcessInfo}

abbrev pub show_num : ℕ
show_num = 40

module _ (fl : Floats) where
  open fl use {Single, lt}

  -- The `for` loop with i + 1 entries to look at: the value of i + 1 after it, and the table. A read
  -- outside the array is a fault.
  pub shift :
      ProcessInfo Single → ℕ → List (ProcessInfo Single) → Option (ℕ × List (ProcessInfo Single))
  shift pi zero table = some (zero, table)
  shift pi (suc i) table = get_elem? table i >>= λ q.
      let rest = shift pi i (set table (i + 1) q) in
      if lt q.cpu pi.cpu && not (i == 39) then rest else some (suc i, table)

  -- `length` is the number of entries that the table holds.
  pub add_higher_process_info :
      ProcessInfo Single → ℕ → List (ProcessInfo Single) → Option (List (ProcessInfo Single))
  unfolding shift
  add_higher_process_info pi length table =
      shift pi length table >>= λ (n, t). if leb n 39 then some (set t n pi) else some t
