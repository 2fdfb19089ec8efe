-- ===== src/Lib.antt =====
-- A model of pTop, which measures how much energy each process of a Linux machine uses. Once in an
-- interval it samples every process and the system from /proc and /sys, compares the sample with the
-- one before, writes the differences to a MySQL database, and shows the processes with the highest
-- cpu share with the energy that they used, added up from the rows of the database.
--
-- The parts, with the files of the repository that they stand for:
--   Common     src/common.c, src/common.h: counter differences, the page shift, sizes of the system
--   Records    src/common.h, src/database.h: what is read of a process, the rows of the tables
--   AvlTree    src/avltree.c: the tree with a node for each process; Elements reads it as a list,
--              Balance and Insertion follow the heights, Contract is what a caller relies on, Shape is
--              about writes into nodes, Nodes about what holds of every node, Closing about the
--              descriptors
--   Database   src/database.c: the statements, as calls of the MySQL client; Session is the order that
--              the calls keep, Retention the rows that the statements leave, Text the texts of the
--              statements, also of those of src/energy.c
--   Perf       src/eperf.c: the performance counters and their array
--   Files      the files of /proc and what the C library converts
--   MStats     src/m_stats.c: memory of a process, memory and network of the system
--   PidStats   src/pid_stats.c: the files of one process; Widths has the sizes of their fields
--   CpuStats   src/cpu_stats.c: times, frequencies and number of the processors
--   Monitor    src/ptop.c: Activity (is_active), Ranking (add_higher_process_info), Collect
--              (read_pid_stats, read_process_stats; Slots follows a sample into its slot), Sample
--              (write_stat; Step is its walk as a relation, Inserted its statements), Cycle (read_system_stats,
--              write_system_stats, write_process_stats, system_init, system_clean), Loop (the body of
--              main_loop up to the screen; Stored is about the rows that it inserts, Stale about
--              processes that have ended, Widths about the sizes of what it keeps), Run (main_loop and
--              main)
--   Energy     src/energy.c: energies added up from the rows of a query; Stored joins it to the rows
--              that Database inserts
--   Display    src/display.c: the elapsed time, the numbers typed and the signal sent, the texts and
--              the lines in their columns (Print), the table of energies (Table; its Dump is test of
--              src/ptop.c), the help and the keys (Keys), and show_proc_stat (Screen)
--   Examples   the theorems at concrete inputs
--
-- A cycle goes through them in this order: Collect samples each process into the slot `curr` of its
-- node, with PidStats and Perf, and makes nodes with AvlTree; Cycle samples the system with CpuStats
-- and MStats; Sample walks over the tree, compares the two slots of each node with Common and
-- Activity, inserts a row through Database, and ranks the process; Run shows the screen in every
-- third cycle, deletes old rows in every thirty-first, and waits for the alarm.
--
-- State is passed explicitly: the tree, the arrays, and the calls made of the database so far. A read
-- through a null pointer, or an access outside an array, is a fault, `none`; a call of `exit` is the
-- result `exits`. In three places the program writes past a variable: the name of an interface into
-- wireless[10], the name of a process into what malloc(strlen) gives, and the memset of systemEnergy.
-- These are faults too, unless the bytes behind are there and not in use (Files.Libc has their numbers,
-- usable and spare). A `pause` after the alarm was stopped never ends, and is `none` too. A u32 or u64 is a
-- natural number with its wrap-around written out. `malloc` is taken to succeed. What is not under
-- src/ is a parameter: float and double (Floats), the MySQL client and server (Database.Mysql), the
-- kernel's counters (Perf.Kernel), sscanf, atoi, atol and atof (Files.Libc). What an uninitialised
-- variable holds is a parameter too. The walks are structural recursions on the tree, the lines of a
-- file or the rows of a result. On fuel run the loop of get_kb_shift, on 63, the bits of a long, and
-- the digits of a printed number, on 10, which an int has at most, or 20, for 64 bits;
-- Common/PageShift and Display/Print/Digits show that they are enough.
--
-- main_loop goes through a list of inputs, one for each cycle: whether /proc can be opened, the files, the
-- kernel's counters, the terminal, the clock and what the user types.
--
-- Not modelled: the calls of curses in src/display.c and what main in src/ptop.c prints, init_nls and
-- debug in src/common.c, which are compiled only for other languages and for debugging, and
-- src/perf_event.h, a header of the Linux kernel.
pub mod Prelude
pub mod Common
pub mod Floats
pub mod Records
pub mod AvlTree
pub mod Database
pub mod Monitor
pub mod Perf
pub mod Files
pub mod MStats
pub mod PidStats
pub mod CpuStats
pub mod Energy
pub mod Display
pub mod Examples
