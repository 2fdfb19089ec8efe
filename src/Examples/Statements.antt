-- ===== src/Examples/Statements.antt =====
-- The texts of statements, and the theorem on their lengths at one that stores a row.
use ptop.Prelude.{ℕ, ◌<◌, ◌≡◌, refl, ◌++◌, arith, length, codes}
use ptop.Prelude.Int.{pos, negsuc}
use ptop.Files.{Text}
use ptop.Database.{process_info, insert_info, delete_before, select_net}
use ptop.Database.Text.{print_query, buffer_size}
use ptop.Database.Text.Widths.{print_query-Fits}
use ptop.Examples.{row_of}

abbrev zero_float : ℕ → ℕ → Text
zero_float w n = codes "     0.00"

delete_text :
    print_query zero_float (delete_before process_info (negsuc 59))
    ≡ codes "DELETE FROM process_info where time < -60"
unfolding print_query
delete_text = refl

select_text :
    print_query zero_float (select_net (pos 5) (pos 40) (pos 100))
    ≡ codes "SELECT netsnd, netrcv FROM process_info WHERE pid=5 and time>(40) and time <=100"
unfolding print_query
select_text = refl

insert_text :
    print_query zero_float
      (insert_info (record (row_of 3) { cmdline = codes "init"; vsz = 4294967295 }))
    ≡ codes "INSERT INTO process_info(pid, time, read_bytes, write_bytes,"
      ++ codes " cancelled_write_bytes,total_vsz, total_rsz, mem, utime, sti"
      ++ codes "me, gtime, cpu, cswch, nvswch, minflt, majflt, netsnd, netrc"
      ++ codes "v, ratio, cpu_accesses,cmdline) VALUES(5, 100,      0.00,   "
      ++ codes "   0.00,      0.00, 4294967295, 0,      0.00,      0.00,    "
      ++ codes "  0.00,      0.00,      0.00,      0.00,      0.00,      0.0"
      ++ codes "0,      0.00,      0.00,      0.00,     0.00,0, 'init')"
unfolding print_query
insert_text = refl

print_query-Fits_example :
    length (print_query zero_float (insert_info (row_of 9))) < buffer_size (insert_info (row_of 9))
print_query-Fits_example =
    print_query-Fits zero_float (λ w n h. omega arith) (insert_info (row_of 9))
      (record {
        vsz = omega arith;
        rss = omega arith;
        pid = omega arith;
        time = omega arith;
        cpu_accesses = omega arith;
        cmdline = omega arith;
      })
