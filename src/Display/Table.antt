-- ===== src/Display/Table.antt =====
-- display.c, show_proc_stat: the energies that the screen shows, of the system and of the ranked
-- processes, and the rows that are written for them.
pub mod Balance
pub mod Dump
use ptop.Prelude.{
  ℕ, zero, suc, ◌+◌, Bool, Option, none, some, List, [], ◌∷◌, ◌>>=◌, get_elem?, length, ltb,
  if◌then◌else◌,
}
use ptop.Prelude.Int.{ℤ, pos, pos_part, int_of_u32}
use ptop.Files.{Text, Libc}
use ptop.Floats.{Floats}
use ptop.Records.{DeviceEnergy, ProcessEnergy, ProcessInfo}
use ptop.Database.{History, Mysql, insert_device_energy, insert_process_energy}
use ptop.Monitor.Ranking.{show_num}
use ptop.Energy.{
  cpu_energy, ntwk_energy, disk_energy_of, memory_energy, clear_device, system_energy,
}

-- What one line of the screen says of a process: the share of the system's energy, and the energies.
pub record Shown (F : Type 0) : Type 0 where
  pub percent : F
  pub energy : ProcessEnergy F

module _ (fl : Floats) (c : Libc) (atof : Text → Floats.Double fl) where
  open fl use {Single, of_u64, add, mul, div, lt}

  -- `etotalsys` and `eall` leave the network out.
  unfoldable pub etotalsys : DeviceEnergy Single → Single
  etotalsys pe = add (add pe.ecpu pe.edisk) pe.emem

  unfoldable pub energy_percent : Single → Single → Single
  energy_percent total eall =
      if lt (of_u64 0) total then mul (div eall total) (of_u64 100) else of_u64 0

  -- `interval` is the span of time, `now` its end.
  module _ (m : Mysql Single) (interval now : ℤ) where
    -- The `strcpy` of a name and its final zero into what `malloc(strlen)` gives: a fault, if that
    -- is not a byte more than was asked for.
    unfoldable pub copied : Text → Option Text
    copied name = if ltb (length name) (c.usable (length name)) then some name else none

    -- persists_process_energy, up to the insertion
    unfoldable pub process_energy_of :
        ProcessInfo Single → Single → Single → Single → Single → Option (ProcessEnergy Single)
    unfolding copied
    process_energy_of p ecpu emem enet edisk = copied p.cmdline >>= λ name. some (record {
      pid = int_of_u32 p.pid;
      time = now;
      ecpu = ecpu;
      emem = emem;
      enet = enet;
      edisk = edisk;
      cmdline = name;
    })

    -- The body of the loop over the processes.
    unfoldable pub show_process :
        Single → ProcessInfo Single → History Single → Option (Shown Single × History Single)
    unfolding energy_percent process_energy_of
    show_process total p h =
        let pid = int_of_u32 p.pid in
        cpu_energy fl c atof m pid interval now h >>= λ (ecpu, h1).
        disk_energy_of fl c atof m pid interval now h1 >>= λ (edisk, h2).
        ntwk_energy fl c atof m pid interval now h2 >>= λ (enet, h3).
        memory_energy fl c atof m pid interval interval now h3 >>= λ (emem, h4).
        process_energy_of p ecpu emem enet edisk >>= λ e. some (
          record { percent = energy_percent total (add (add ecpu edisk) emem); energy = e },
          (insert_process_energy m e h4).1,
        )

    -- The loop, with the processes left and the index. A read outside the table is a fault.
    unfoldable pub show_processes :
        Single
        → List (ProcessInfo Single)
        → ℕ
        → ℕ
        → History Single
        → Option (List (Shown Single) × History Single)
    show_processes total table zero j h = some ([], h)
    show_processes total table (suc left) j h = get_elem? table j >>= λ p.
        show_process total p h >>= λ (line, h1).
        show_processes total table left (j + 1) h1 >>= λ (lines, h2). some (line ∷ lines, h2)

    -- `amount > SHOW_NUM ? SHOW_NUM : amount`; a negative amount shows no process.
    unfoldable pub shown_amount : ℤ → ℕ
    shown_amount amount = if ltb show_num (pos_part amount) then show_num else pos_part amount

    -- The lines of the system and of the processes.
    unfoldable pub show_table :
        List (ProcessInfo Single)
        → ℤ
        → History Single
        → Option (DeviceEnergy Single × List (Shown Single) × History Single)
    unfolding show_processes shown_amount etotalsys
    show_table table amount h = clear_device fl c atof m >>= λ _.
        system_energy fl c atof m interval now h >>= λ (pe, h1).
        show_processes (etotalsys pe) table (shown_amount amount) 0 (insert_device_energy m pe h1).1
        >>= λ (lines, h2). some (pe, lines, h2)
