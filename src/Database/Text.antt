-- ===== src/Database/Text.antt =====
-- database.c and energy.c: the texts of the statements, as `sprintf` makes them. What it prints for
-- a `float` is a parameter.
pub mod Widths
use ptop.Prelude.{ℕ, zero, suc, ◌-◌, ◌^◌, List, [], ◌∷◌, ◌++◌, ltb, if◌then◌else◌, codes}
use ptop.Prelude.Int.{ℤ, pos, negsuc}
use ptop.Common.{u32_mod}
use ptop.Files.{Text}
use ptop.Display.Print.{digits}
use ptop.Database.{
  Table, device_energy, process_energy, process_info, sys_info, Query, insert_device,
  insert_process, insert_info, insert_sys, delete_before, select_cpu, select_net, select_disk,
  select_memory, select_system,
}

-- `%u`, `%llu`: a value of 64 bits has 20 digits at most.
unfoldable pub print_unsigned : ℕ → Text
unfolding digits
print_unsigned n = digits 20 n

-- `%d`, `%ld`
unfoldable pub print_signed : ℤ → Text
unfolding print_unsigned
print_signed (pos n) = print_unsigned n
print_signed (negsuc n) = b'-' ∷ print_unsigned (suc n)

-- What `%d` takes of an unsigned value.
unfoldable pub int_of_u32 : ℕ → ℤ
int_of_u32 n = if ltb n (2 ^ 31) then pos n else negsuc (u32_mod - 1 - n)

-- The texts between the conversions, and what the conversions print.
unfoldable pub sprintf : List Text → List Text → Text
sprintf [] values = []
sprintf (part ∷ parts) [] = part ++ sprintf parts []
sprintf (part ∷ parts) (value ∷ values) = part ++ (value ++ sprintf parts values)

unfoldable pub table_name : Table → Text
table_name device_energy = codes "device_energy"
table_name process_energy = codes "process_energy"
table_name process_info = codes "process_info"
table_name sys_info = codes "sys_info"

-- The separators of so many values, and the end.
abbrev pub commas : ℕ → Text → List Text
commas zero end = end ∷ []
commas (suc n) end = codes ", " ∷ commas n end

-- What the statement has between its conversions: the formats of the functions of database.c, and of
-- the five of energy.c for the SELECTs.
unfoldable pub query_parts : {F : Type 0} → Query F → List Text
query_parts (insert_device e) =
    codes "INSERT INTO device_energy(time, ecpu, emem, enet, edisk) VALUES(" ∷ commas 4 (codes ")")
query_parts (insert_process e) =
    codes "INSERT INTO process_energy(pid,time, ecpu, emem, enet, edisk) VALUES("
    ∷ codes ","
    ∷ commas 4 (codes ")")
query_parts (insert_info p) =
    (codes "INSERT INTO process_info(pid, time, read_bytes, write_bytes, cancelled_write_bytes,"
      ++ (codes "total_vsz, total_rsz, mem, utime, stime, gtime, cpu, cswch, nvswch, minflt, "
          ++ codes "majflt, netsnd, netrcv, ratio, cpu_accesses,cmdline) VALUES("))
    ∷ (commas 17 (codes ",") ++ (codes "," ∷ codes ", '" ∷ codes "')" ∷ []))
query_parts (insert_sys s) =
    (codes "INSERT INTO sys_info(time, netsend, netrcv, diskread, diskwrite,cpupower,memaccess, "
      ++ codes "itv,runtime, apnum)VALUES(")
    ∷ commas 9 (codes ")")
query_parts (delete_before table time) = codes "DELETE FROM " ∷ codes " where time < " ∷ []
query_parts (select_cpu pid from to) =
    (codes "SELECT p.cpu, s.cpupower, s.itv, s.runtime, s.apnum FROM process_info p, sys_info s "
      ++ codes "WHERE p.time = s.time and p.pid=")
    ∷ codes " and p.time>("
    ∷ codes ") and p.time <="
    ∷ []
query_parts (select_net pid from to) =
    codes "SELECT netsnd, netrcv FROM process_info WHERE pid="
    ∷ codes " and time>("
    ∷ codes ") and time <="
    ∷ []
query_parts (select_disk pid from to) =
    (codes "SELECT read_bytes, write_bytes - cancelled_write_bytes FROM process_info "
      ++ codes "WHERE pid=")
    ∷ codes " and time>("
    ∷ codes ") and time<= "
    ∷ []
query_parts (select_memory pid from to) =
    (codes "SELECT ratio, read_bytes,write_bytes - cancelled_write_bytes, cpu_accesses "
      ++ codes "FROM process_info WHERE pid=")
    ∷ codes " and time>("
    ∷ codes ") and time <="
    ∷ []
query_parts (select_system from to) =
    (codes "SELECT s.netsend, s.netrcv, s.diskread, s.diskwrite, s.cpupower, s.memaccess, s.itv "
      ++ codes "FROM sys_info s WHERE s.time>(")
    ∷ codes ") and s.time <="
    ∷ codes " "
    ∷ []

-- What its conversions print; `print_float w` is `%w.2f`.
unfoldable pub query_values : {F : Type 0} → (ℕ → F → Text) → Query F → List Text
unfolding print_unsigned print_signed int_of_u32 table_name
query_values print_float (insert_device e) =
    print_signed e.time
    ∷ print_float 9 e.ecpu
    ∷ print_float 9 e.emem
    ∷ print_float 9 e.enet
    ∷ print_float 9 e.edisk
    ∷ []
query_values print_float (insert_process e) =
    print_signed e.pid
    ∷ print_signed e.time
    ∷ print_float 9 e.ecpu
    ∷ print_float 9 e.emem
    ∷ print_float 9 e.enet
    ∷ print_float 9 e.edisk
    ∷ []
query_values print_float (insert_info p) =
    print_signed (int_of_u32 p.pid)
    ∷ print_unsigned p.time
    ∷ print_float 9 p.read_bytes
    ∷ print_float 9 p.write_bytes
    ∷ print_float 9 p.cancelled_write_bytes
    ∷ print_unsigned p.vsz
    ∷ print_unsigned p.rss
    ∷ print_float 6 p.mem
    ∷ print_float 7 p.utime
    ∷ print_float 7 p.stime
    ∷ print_float 7 p.gtime
    ∷ print_float 7 p.cpu
    ∷ print_float 9 p.cswch
    ∷ print_float 9 p.nvcswch
    ∷ print_float 9 p.minflt
    ∷ print_float 9 p.majflt
    ∷ print_float 9 p.netsnd
    ∷ print_float 9 p.netrcv
    ∷ print_float 9 p.ratio
    ∷ print_unsigned p.cpu_accesses
    ∷ p.cmdline
    ∷ []
query_values print_float (insert_sys s) =
    print_unsigned s.time
    ∷ print_unsigned s.totalnetsnd
    ∷ print_unsigned s.totalnetrcv
    ∷ print_unsigned s.totaldiskread
    ∷ print_unsigned s.totaldiskwrite
    ∷ print_float 9 s.cpupower
    ∷ print_unsigned s.memaccess
    ∷ print_unsigned s.itv
    ∷ print_unsigned s.runtime
    ∷ print_signed s.active_process_num
    ∷ []
query_values print_float (delete_before table time) = table_name table ∷ print_signed time ∷ []
query_values print_float (select_cpu pid from to) =
    print_signed pid ∷ print_signed from ∷ print_signed to ∷ []
query_values print_float (select_net pid from to) =
    print_signed pid ∷ print_signed from ∷ print_signed to ∷ []
query_values print_float (select_disk pid from to) =
    print_signed pid ∷ print_signed from ∷ print_signed to ∷ []
query_values print_float (select_memory pid from to) =
    print_signed pid ∷ print_signed from ∷ print_signed to ∷ []
query_values print_float (select_system from to) = print_signed from ∷ print_signed to ∷ []

-- `char query[1024]` of database.c, and `char query[500]` of the five functions of energy.c.
abbrev pub buffer_size : {F : Type 0} → Query F → ℕ
buffer_size (select_cpu _ _ _) = 500
buffer_size (select_net _ _ _) = 500
buffer_size (select_disk _ _ _) = 500
buffer_size (select_memory _ _ _) = 500
buffer_size (select_system _ _) = 500
buffer_size _ = 1024

unfoldable pub print_query : {F : Type 0} → (ℕ → F → Text) → Query F → Text
unfolding sprintf query_parts query_values
print_query print_float q = sprintf (query_parts q) (query_values print_float q)
