-- ===== src/Display/Table/Balance.antt =====
-- display.c, show_proc_stat: the lines of the screen are all there, and the connections are closed.
use ptop.Prelude.{
  ℕ, zero, suc, ◌+◌, ◌≤◌, ◌<◌, ◌≡◌, refl, ap, List, [], ◌∷◌, arith, length, get_elem?, Returns,
  Returns-bind, lt→ltb,
}
use ptop.Prelude.Int.{ℤ, pos, int_of_u32}
use ptop.Files.{Text, Libc}
use ptop.Floats.{Floats}
use ptop.Records.{ProcessInfo}
use ptop.Database.{History, Mysql, insert_device_energy, insert_process_energy}
use ptop.Database.Handles.{Outstanding}
use ptop.Database.Session.{Keeps, Outstanding-Keeps, statement-Keeps}
use ptop.Monitor.Ranking.{show_num}
use ptop.Energy.{
  cpu_energy, ntwk_energy, disk_energy_of, memory_energy, clear_device, system_energy,
}
use ptop.Energy.Outcome.{HasColumns, energies-Keeps}
use ptop.Display.Table.{
  show_process, show_processes, show_table, shown_amount, etotalsys, process_energy_of, copied,
}

-- `malloc` gives a byte more than the length of a name.
abbrev pub IsCopied : {F : Type 0} → Libc → ProcessInfo F → Type 0
IsCopied c p = length p.cmdline < c.usable (length p.cmdline)

abbrev pub AllCopied : {F : Type 0} → Libc → List (ProcessInfo F) → Type 0
AllCopied c [] = Unit
AllCopied c (p ∷ ps) = IsCopied c p × AllCopied c ps

get_elem?-AllCopied :
    {F : Type 0} (c : Libc) (ps : List (ProcessInfo F)) (i : ℕ)
    → i < length ps
    → AllCopied c ps
    → Returns (IsCopied c) (get_elem? ps i)
get_elem?-AllCopied c [] i h v = absurd (omega (arith, h))
get_elem?-AllCopied c (p ∷ ps) zero h v = v.0
get_elem?-AllCopied c (p ∷ ps) (suc i) h v = get_elem?-AllCopied c ps i (omega (arith, h)) v.1

-- What the program writes past is not in use: `malloc` gives a byte more than each name of the
-- table has, and the compiler leaves 16 bytes behind the variable that systemEnergy clears.
pub record IsRoomy {F : Type 0} (c : Libc) (table : List (ProcessInfo F)) : Type 0 where
  pub names : AllCopied c table
  pub behind : 16 ≤ c.spare

module _ (fl : Floats) (c : Libc) (atof : Text → Floats.Double fl) where
  open fl use {Single}

  module _ (m : Mysql Single) (interval now : ℤ) (columns : HasColumns m)
      (P : History Single → Type 0) (keeps : Keeps P) where
    show_process-Keeps :
        (total : Single) (p : ProcessInfo Single) (h : History Single)
        → IsCopied c p
        → P h
        → Returns (λ r. P r.1) (show_process fl c atof m interval now total p h)
    unfolding show_process process_energy_of copied insert_process_energy
    show_process-Keeps total p h room o =
        let pid = int_of_u32 p.pid in
        let energies = λ (h : History Single) (o : P h).
          energies-Keeps fl c atof m P pid interval interval now h columns keeps o in
        Returns-bind (λ r. P r.1) _ (cpu_energy fl c atof m pid interval now h) _ (energies h o).0
          λ r1 o1.
            Returns-bind (λ r. P r.1) _ (disk_energy_of fl c atof m pid interval now r1.1) _
              (energies r1.1 o1).2
              λ r2 o2.
                Returns-bind (λ r. P r.1) _ (ntwk_energy fl c atof m pid interval now r2.1) _
                  (energies r2.1 o2).1
                  λ r3 o3.
                    Returns-bind (λ r. P r.1) _
                      (memory_energy fl c atof m pid interval interval now r3.1) _
                      (energies r3.1 o3).3
                      λ r4 o4.
                        rw (lt→ltb (length p.cmdline) (c.usable (length p.cmdline)) room)
                          (statement-Keeps m P _ r4.1 keeps o4)

    show_processes-Keeps :
        (total : Single) (table : List (ProcessInfo Single)) (left j : ℕ) (h : History Single)
        → j + left ≤ length table
        → AllCopied c table
        → P h
        → Returns
            (λ r. (length r.0 ≡ left) × P r.1)
            (show_processes fl c atof m interval now total table left j h)
    unfolding show_processes
    show_processes-Keeps total table zero j h k room o = (refl, o)
    show_processes-Keeps total table (suc left) j h k room o =
        Returns-bind (IsCopied c) _ (get_elem? table j) _
          (get_elem?-AllCopied c table j (omega (arith, k)) room)
          λ p fits.
            Returns-bind (λ r. P r.1) _ (show_process fl c atof m interval now total p h) _
              (show_process-Keeps total p h fits o)
              λ r o1.
                Returns-bind (λ r. (length r.0 ≡ left) × P r.1) _
                  (show_processes fl c atof m interval now total table left (j + 1) r.1) _
                  (show_processes-Keeps total table left (j + 1) r.1 (omega (arith, k)) room o1)
                  λ r2 o2. (ap suc o2.0, o2.1)

    pub shown_amount-bound : (amount : ℤ) → shown_amount fl c atof m interval now amount ≤ show_num
    unfolding shown_amount
    shown_amount-bound amount = ground arith

    -- The lines of the screen are all there, and what is kept of the calls is kept.
    pub show_table-Keeps :
        (table : List (ProcessInfo Single)) (amount : ℤ) (h : History Single)
        → show_num ≤ length table
        → IsRoomy c table
        → P h
        → Returns
            (λ r. (length r.1 ≡ shown_amount fl c atof m interval now amount) × P r.2)
            (show_table fl c atof m interval now table amount h)
    unfolding show_table clear_device insert_device_energy
    show_table-Keeps table amount h k room o = rw (lt→ltb 15 c.spare room.behind) (
        Returns-bind (λ r. P r.1) _ (system_energy fl c atof m interval now h) _
          (energies-Keeps fl c atof m P (pos 0) interval interval now h columns keeps o).4
          λ r o1.
            Returns-bind (λ s. (length s.0 ≡ shown_amount fl c atof m interval now amount) × P s.1)
              _
              (show_processes fl c atof m interval now (etotalsys fl c atof r.0) table
                (shown_amount fl c atof m interval now amount) 0 (insert_device_energy m r.0 r.1).1)
              _
              (show_processes-Keeps (etotalsys fl c atof r.0) table
                (shown_amount fl c atof m interval now amount) 0 (insert_device_energy m r.0 r.1).1
                (omega (arith, k, shown_amount-bound amount)) room.names
                (statement-Keeps m P _ r.1 keeps o1))
              λ s o2. o2)

  module _ (m : Mysql Single) (interval now : ℤ) (n : ℕ) (columns : HasColumns m) where
    -- When the rows that the database answers have the columns asked for, and the table of
    -- processes has 40 places or more, and nothing that is written past is in use, the screen is
    -- filled without a fault, whatever the amount: there is a line for each process of the amount,
    -- up to 40, and every handle made on the way is closed, unless it was refused a connection.
    pub show_table-Outstanding :
        (table : List (ProcessInfo Single)) (amount : ℤ) (h : History Single)
        → show_num ≤ length table
        → IsRoomy c table
        → Outstanding n h
        → Returns
            (λ r. (length r.1 ≡ shown_amount fl c atof m interval now amount) × Outstanding n r.2)
            (show_table fl c atof m interval now table amount h)
    show_table-Outstanding =
        show_table-Keeps m interval now columns (Outstanding n) (Outstanding-Keeps n)
