-- ===== src/Examples/Storage.antt =====
-- The theorems on the database at one that accepts everything, and at one that cannot be reached.
use mathlib.Core.List.Perm
use ptop.Prelude.{ℕ, List, map, ◌≡◌, refl, ◌↔◌, [], ◌∷◌}
use ptop.Prelude.Int.{pos, ◌-ℤ◌}
use ptop.Database.{
  Mysql, History, Row, query, use_result, insert_ps, statement, select_net, select_disk,
  select_memory, freeup_all, freeup_ps, freeup_sys_info,
}
use ptop.Database.Status.{IsOdd, freeup_all_status}
use ptop.Energy.{
  ntwk_energy, disk_energy_of, memory_energy, zero_energy, ntwk_row, disk_row, memory_row,
}
use ptop.Energy.Stored.{
  Texts, Answers, Sums, matching, matching_with, net_columns, disk_columns, memory_columns,
  energies-insert_ps,
}
use ptop.Database.Retention.{Accepts, info_rows}
use ptop.Examples.{fl, libc, accepting, unreachable, no_calls, row_of}

freeup_all_status_example :
    let (r, h1) = freeup_ps unreachable (pos 60) 10 no_calls in
    let (r', _) = freeup_sys_info unreachable (pos 60) 10 h1 in
    ((freeup_all unreachable (pos 60) (pos 60) 10 no_calls).0 ≡ pos 1) ↔ (IsOdd r × IsOdd r')
freeup_all_status_example = freeup_all_status unreachable (pos 60) (pos 60) 10 no_calls

-- It answers every statement with one row of seven numbers.
abbrev answering : Mysql ℕ
answering =
    let n = b'8' ∷ [] in record accepting { rows = λ h. (n ∷ n ∷ n ∷ n ∷ n ∷ n ∷ n ∷ []) ∷ [] }

-- It writes every number as one digit.
abbrev digits : Texts ℕ
digits = record {
  netsnd = λ p. b'1' ∷ [];
  netrcv = λ p. b'2' ∷ [];
  read = λ p. b'3' ∷ [];
  written = λ p. b'4' ∷ [];
  ratio = λ p. b'5' ∷ [];
  accesses = λ p. b'6' ∷ [];
}

-- It answers with the rows that were inserted.
abbrev stored_rows : History ℕ → List Row
stored_rows (use_result ∷ query (select_net pid from to) r ∷ h) =
    map (net_columns digits) (matching pid from to (info_rows h))
stored_rows (use_result ∷ query (select_disk pid from to) r ∷ h) =
    map (disk_columns digits) (matching pid from to (info_rows h))
stored_rows (use_result ∷ query (select_memory pid from to) r ∷ h) =
    map (memory_columns digits) (matching pid from to (info_rows h))
stored_rows _ = []

abbrev storing : Mysql ℕ
storing = record accepting { rows = stored_rows }

storing-Accepts : Accepts storing
unfolding statement
storing-Accepts q h = refl

storing-Answers : Answers digits storing
storing-Answers = record {
  net = λ pid from to h. (matching pid from to (info_rows h), Perm.refl _, refl);
  disk = λ pid from to h. (matching pid from to (info_rows h), Perm.refl _, refl);
  memory = λ pid from to h. (matching pid from to (info_rows h), Perm.refl _, refl);
}

energies-insert_ps_example :
    let h = (insert_ps storing (row_of 3) no_calls).1 in
    let rows = matching_with (pos 5) (pos 100 -ℤ pos 60) (pos 100) (row_of 9) (info_rows h) in
    let h' = (insert_ps storing (row_of 9) h).1 in
    let zero = zero_energy fl libc (λ t. 3) storing in
    Sums
      (ntwk_row fl libc (λ t. 3))
      (net_columns digits)
      zero
      rows
      (ntwk_energy fl libc (λ t. 3) storing (pos 5) (pos 60) (pos 100) h')
    × Sums
        (disk_row fl libc (λ t. 3))
        (disk_columns digits)
        zero
        rows
        (disk_energy_of fl libc (λ t. 3) storing (pos 5) (pos 60) (pos 100) h')
    × Sums
        (memory_row fl libc (λ t. 3))
        (memory_columns digits)
        zero
        rows
        (memory_energy fl libc (λ t. 3) storing (pos 5) (pos 60) (pos 3) (pos 100) h')
energies-insert_ps_example =
    energies-insert_ps fl libc (λ t. 3) digits storing (pos 5) (pos 60) (pos 3) (pos 100) (row_of 9)
      (insert_ps storing (row_of 3) no_calls).1 storing-Accepts storing-Answers
