-- ===== src/Examples/Samples.antt =====
-- The theorems on the samples of processes, at two samples of one process.
use mathlib.Core.List.{Perm}
use ptop.Prelude.{ℕ, ◌%◌, ◌+◌, ◌-◌, ◌≡◌, ◌↔◌, refl, true, some, List, [], ◌∷◌, arith, Returns}
use ptop.Prelude.Int.{pos, negsuc}
use ptop.Common.{u64_mod, u64_subcount}
use ptop.Files.{OnRun}
use ptop.Records.{ProcessInfo}
use ptop.AvlTree.{null, node}
use ptop.MStats.{zero_smaps}
use ptop.Monitor.Activity.{is_active, SameCounters, is_active_iff}
use ptop.Monitor.Ranking.{add_higher_process_info}
use ptop.Monitor.Ranking.Order.{
  rev_append, IsRanked, add_higher_process_info-IsRanked, add_higher_process_info_full,
}
use ptop.Monitor.Sample.{Globals, write_stat, clamp_times, process_record, percent, sub64}
use ptop.Monitor.Sample.Shares.{cpu-process_record, utime-process_record}
use ptop.Monitor.Sample.Table.{IsTable}
use ptop.Monitor.Sample.Descriptors.{TreeBalanced, count-write_stat}
use ptop.Monitor.Sample.Inserted.{Inserted, write_stat-Inserted}
use ptop.Monitor.Collect.{read_process_stats}
use ptop.Monitor.Collect.Pass.{Kept, AllPresent, read_process_stats-Kept}
use ptop.Examples.{
  two-IsAllocated, running, gone, rows, fl, ltb_asymm, accepting, libc, kernel, earlier, later,
  busy, idle, two, two-IsAvl, row_of, zero_sys,
}

read_process_stats-Kept_example :
    Returns
      (OnRun (λ r.
        Kept libc kernel zero_smaps 0 2 true two r.1
        × AllPresent libc kernel zero_smaps 0 2 true
            ((b'9' ∷ [], running) ∷ (b'x' ∷ [], gone) ∷ (b'5' ∷ [], gone) ∷ [])
            r.1))
      (read_process_stats libc kernel zero_smaps 0 2 true
        (some [])
        (some ((b'9' ∷ [], running) ∷ (b'x' ∷ [], gone) ∷ (b'5' ∷ [], gone) ∷ []))
        zero_sys
        two)
read_process_stats-Kept_example =
    read_process_stats-Kept libc kernel zero_smaps 0 2 true (some [])
      ((b'9' ∷ [], running) ∷ (b'x' ∷ [], gone) ∷ (b'5' ∷ [], gone) ∷ []) zero_sys two two-IsAvl
      two-IsAllocated

abbrev start : Globals ℕ
start = record { sys = zero_sys; pst_list = rows 41; idx = 0; closed = []; history = [] }

start-IsTable : IsTable fl start
start-IsTable = record {
  ranked = [];
  free = row_of 0;
  rest = rows 40;
  holds = refl;
  filled = refl;
  size = refl;
  order = tt;
}

write_stat-Inserted_example :
    Returns
      (Inserted fl accepting 100 0 true true (pos 100) 50 two start)
      (write_stat fl accepting 100 0 true true (pos 100) 50 two start)
write_stat-Inserted_example =
    write_stat-Inserted fl accepting 100 0 true true (pos 100) 50 ltb_asymm null busy (pos 1)
      (node null idle (pos 0) null) start two-IsAllocated start-IsTable

count-write_stat_example :
    Returns
      (TreeBalanced fl accepting 100 0 true true (pos 100) 50 (pos 4) two start)
      (write_stat fl accepting 100 0 true true (pos 100) 50 two start)
count-write_stat_example =
    count-write_stat fl accepting 100 0 true true (pos 100) 50 (pos 4) ltb_asymm null busy (pos 1)
      (node null idle (pos 0) null) start two-IsAllocated start-IsTable

add_higher_process_info-IsRanked_example :
    (ps : List (ProcessInfo ℕ)) × (add_higher_process_info fl
        (row_of 7)
        2
        (rev_append (row_of 3 ∷ row_of 9 ∷ []) (row_of 0 ∷ []))
      ≡ some (rev_append ps []))
    × IsRanked fl ps
    × Perm ps (row_of 7 ∷ row_of 3 ∷ row_of 9 ∷ [])
add_higher_process_info-IsRanked_example =
    add_higher_process_info-IsRanked fl ltb_asymm (row_of 7) (row_of 3 ∷ row_of 9 ∷ []) (row_of 0)
      [] (omega arith) (refl, tt)

add_higher_process_info_full_example :
    add_higher_process_info fl (row_of 7) 40 (rev_append (rows 40) (row_of 0 ∷ []))
    ≡ some (rev_append (rows 40) (row_of 0 ∷ []))
add_higher_process_info_full_example =
    add_higher_process_info_full fl (row_of 7) (row_of 0) (row_of 0) (rows 39) [] refl

cpu-process_record_example :
    (process_record fl 100 0 (pos 100) 50 (clamp_times later earlier) earlier).cpu
    ≡ percent fl (((30 - 10) + (2 - 4)) % u64_mod) 50
cpu-process_record_example =
    cpu-process_record fl 100 0 (pos 100) 50 later earlier (omega arith) (omega arith)

utime-process_record_example :
    (process_record fl 100 0
      (pos 100)
      50
      (record later { utime = 30 })
      (record earlier { utime = 10 })).utime
    ≡ percent fl (sub64 0 (u64_subcount 0 0)) 50
utime-process_record_example = utime-process_record fl 100 0 (pos 100) 50 later earlier 30 10

is_active_iff_example :
    ((is_active earlier (some later) ≡ negsuc 0) ↔ SameCounters later earlier)
    × ((is_active earlier (some later) ≡ pos 1) ↔ (¬ SameCounters later earlier))
is_active_iff_example = is_active_iff earlier later λ e. absurd (omega (arith, e))
