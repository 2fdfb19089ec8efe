-- ===== src/Database/Text/Widths.antt =====
-- database.c and energy.c: the statements fit the buffers that they are printed into.
use ptop.Prelude.{
  ℕ, zero, suc, ◌+◌, ◌/◌, ◌%◌, ◌^◌, ◌≤◌, ◌<◌, List, [], ◌∷◌, ◌++◌, arith, length, length-append,
  ltb, inl, inr, Bool-cases, ◌-◌,
}
use ptop.Prelude.Int.{ℤ, pos, negsuc}
use ptop.Common.{u32_mod}
use ptop.Files.{Text}
use ptop.Display.Print.{digits}
use ptop.Database.{
  Table, device_energy, process_energy, process_info, sys_info, Query, insert_device,
  insert_process, insert_info, insert_sys, delete_before, select_cpu, select_net, select_disk,
  select_memory, select_system,
}
use ptop.Monitor.Sample.Widths.{FitsQuery}
use ptop.Database.Text.{
  buffer_size, print_unsigned, print_signed, int_of_u32, sprintf, table_name, query_parts,
  query_values, print_query,
}

length-digits : (fuel : ℕ) (n : ℕ) → length (digits fuel n) ≤ fuel
unfolding digits
length-digits zero n = omega arith
length-digits (suc fuel) n = ground (
  arith,
  length-digits fuel (n / 10),
  length-append (digits fuel (n / 10)) ((b'0' + n % 10) ∷ []),
)

-- As many digits as the power of ten that the number is below.
length-digits_under : (k fuel n : ℕ) → n < 10 ^ suc k → length (digits fuel n) ≤ suc k
unfolding digits
length-digits_under k zero n h = omega arith
length-digits_under zero (suc fuel) n h = ground (arith, h)
length-digits_under (suc k) (suc fuel) n h = ground (
  arith,
  length-digits_under k fuel (n / 10) (omega (arith, h)),
  length-append (digits fuel (n / 10)) ((b'0' + n % 10) ∷ []),
)

-- Each text has at most that many characters.
data AllWithin : List Text → List ℕ → Type 0 where
  ends : AllWithin [] []
  ◌and◌ :
      {t : Text} {ts : List Text} {b : ℕ} {bs : List ℕ}
      → length t ≤ b
      → AllWithin ts bs
      → AllWithin (t ∷ ts) (b ∷ bs)

infixr 5 ◌and◌
abbrev total : List ℕ → ℕ
total [] = 0
total (b ∷ bs) = b + total bs

abbrev lengths : List Text → List ℕ
lengths [] = []
lengths (t ∷ ts) = length t ∷ lengths ts

length-sprintf :
    (parts values : List Text) (bounds : List ℕ)
    → AllWithin values bounds
    → length (sprintf parts values) ≤ total (lengths parts) + total bounds
unfolding sprintf
length-sprintf [] values bounds w = omega arith
length-sprintf (part ∷ parts) _ _ ends =
    omega (arith, length-append part (sprintf parts []), length-sprintf parts [] [] ends)
length-sprintf (part ∷ parts) (value ∷ values) (b ∷ bounds) (h and w) = omega (
  arith,
  length-append part (value ++ sprintf parts values),
  length-append value (sprintf parts values),
  h,
  length-sprintf parts values bounds w,
)

length-print_unsigned : (n : ℕ) → length (print_unsigned n) ≤ 20
unfolding print_unsigned
length-print_unsigned n = length-digits 20 n

length-print_u32 : (n : ℕ) → n < u32_mod → length (print_unsigned n) ≤ 10
unfolding print_unsigned
length-print_u32 n h = length-digits_under 9 20 n (omega (arith, h))

length-print_signed : (z : ℤ) → length (print_signed z) ≤ 21
unfolding print_signed
length-print_signed (pos n) = omega (arith, length-print_unsigned n)
length-print_signed (negsuc n) = omega (arith, length-print_unsigned (suc n))

length-print_int : (n : ℕ) → n < u32_mod → length (print_signed (int_of_u32 n)) ≤ 11
unfolding print_unsigned print_signed int_of_u32
length-print_int n h = elim (Bool-cases (ltb n (2 ^ 31))) [
  | inl yes_it ↦ rw yes_it (omega (arith, length-digits_under 9 20 n (omega (arith, h))))
  | inr no_it ↦
      rw no_it (omega (arith, length-digits_under 9 20 (suc (u32_mod - 1 - n)) (omega arith)))
]

length-table_name : (t : Table) → length (table_name t) ≤ 14
unfolding table_name
length-table_name device_energy = omega arith
length-table_name process_energy = omega arith
length-table_name process_info = omega arith
length-table_name sys_info = omega arith

-- The most characters that the values of a statement have.
abbrev bounds : {F : Type 0} → Query F → List ℕ
bounds (insert_device e) = 21 ∷ 43 ∷ 43 ∷ 43 ∷ 43 ∷ []
bounds (insert_process e) = 21 ∷ 21 ∷ 43 ∷ 43 ∷ 43 ∷ 43 ∷ []
bounds (insert_info p) =
    11 ∷ 10 ∷ 43 ∷ 43 ∷ 43 ∷ 10 ∷ 10 ∷ 43 ∷ 43 ∷ 43 ∷ 43 ∷ 43 ∷ 43 ∷ 43 ∷ 43 ∷ 43 ∷ 43 ∷ 43 ∷ 43
    ∷ 20 ∷ 15 ∷ []
bounds (insert_sys s) = 20 ∷ 20 ∷ 20 ∷ 20 ∷ 20 ∷ 43 ∷ 20 ∷ 20 ∷ 20 ∷ 21 ∷ []
bounds (delete_before t z) = 14 ∷ 21 ∷ []
bounds (select_cpu _ _ _) = 21 ∷ 21 ∷ 21 ∷ []
bounds (select_net _ _ _) = 21 ∷ 21 ∷ 21 ∷ []
bounds (select_disk _ _ _) = 21 ∷ 21 ∷ 21 ∷ []
bounds (select_memory _ _ _) = 21 ∷ 21 ∷ 21 ∷ []
bounds (select_system _ _) = 21 ∷ 21 ∷ []

room :
    {F : Type 0} (q : Query F) → total (lengths (query_parts q)) + total (bounds q) < buffer_size q
unfolding query_parts
room (insert_device e) = omega arith
room (insert_process e) = omega arith
room (insert_info p) = omega arith
room (insert_sys s) = omega arith
room (delete_before t z) = omega arith
room (select_cpu _ _ _) = omega arith
room (select_net _ _ _) = omega arith
room (select_disk _ _ _) = omega arith
room (select_memory _ _ _) = omega arith
room (select_system _ _) = omega arith

spans :
    (pid from to : ℤ)
    → AllWithin (print_signed pid ∷ print_signed from ∷ print_signed to ∷ []) (21 ∷ 21 ∷ 21 ∷ [])
spans pid from to =
    length-print_signed pid and length-print_signed from and length-print_signed to and ends

module _ {F : Type 0} (print_float : ℕ → F → Text)
    (float_width : (w : ℕ) (f : F) → w ≤ 43 → length (print_float w f) ≤ 43) where
  six : (f : F) → length (print_float 6 f) ≤ 43
  six f = float_width 6 f (omega arith)

  seven : (f : F) → length (print_float 7 f) ≤ 43
  seven f = float_width 7 f (omega arith)

  wide : (f : F) → length (print_float 9 f) ≤ 43
  wide f = float_width 9 f (omega arith)

  query_values-AllWithin :
      (q : Query F) → FitsQuery q → AllWithin (query_values print_float q) (bounds q)
  unfolding query_values
  query_values-AllWithin (insert_device e) h =
      length-print_signed e.time
      and wide e.ecpu
      and wide e.emem
      and wide e.enet
      and wide e.edisk
      and ends
  query_values-AllWithin (insert_process e) h =
      length-print_signed e.pid
      and length-print_signed e.time
      and wide e.ecpu
      and wide e.emem
      and wide e.enet
      and wide e.edisk
      and ends
  query_values-AllWithin (insert_info p) h =
      length-print_int p.pid h.pid
      and length-print_u32 p.time h.time
      and wide p.read_bytes
      and wide p.write_bytes
      and wide p.cancelled_write_bytes
      and length-print_u32 p.vsz h.vsz
      and length-print_u32 p.rss h.rss
      and six p.mem
      and seven p.utime
      and seven p.stime
      and seven p.gtime
      and seven p.cpu
      and wide p.cswch
      and wide p.nvcswch
      and wide p.minflt
      and wide p.majflt
      and wide p.netsnd
      and wide p.netrcv
      and wide p.ratio
      and length-print_unsigned p.cpu_accesses
      and (omega (arith, h.cmdline))
      and ends
  query_values-AllWithin (insert_sys s) h =
      length-print_unsigned s.time
      and length-print_unsigned s.totalnetsnd
      and length-print_unsigned s.totalnetrcv
      and length-print_unsigned s.totaldiskread
      and length-print_unsigned s.totaldiskwrite
      and wide s.cpupower
      and length-print_unsigned s.memaccess
      and length-print_unsigned s.itv
      and length-print_unsigned s.runtime
      and length-print_signed s.active_process_num
      and ends
  query_values-AllWithin (delete_before t z) h =
      length-table_name t and length-print_signed z and ends
  query_values-AllWithin (select_cpu pid from to) h = spans pid from to
  query_values-AllWithin (select_net pid from to) h = spans pid from to
  query_values-AllWithin (select_disk pid from to) h = spans pid from to
  query_values-AllWithin (select_memory pid from to) h = spans pid from to
  query_values-AllWithin (select_system from to) h =
      length-print_signed from and length-print_signed to and ends

  -- A statement is shorter than the buffer that it is printed into (1024 bytes for the INSERTs and
  -- DELETEs, 500 for the SELECTs), so that there is room for the final zero, if the row that it
  -- inserts into process_info, when it does that, holds values of the C types of its fields.
  -- (`%w.2f` is taken to print at most 43 characters for a float, if w is no more.)
  pub print_query-Fits :
      (q : Query F) → FitsQuery q → length (print_query print_float q) < buffer_size q
  unfolding print_query
  print_query-Fits q h = omega (
    arith,
    room q,
    length-sprintf (query_parts q) (query_values print_float q) (bounds q)
        (query_values-AllWithin q h),
  )
