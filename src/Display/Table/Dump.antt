-- ===== src/Display/Table/Dump.antt =====
-- ptop.c, test: the energies of the system and of the ranked processes, printed and not written. The
-- total has the network here.
use ptop.Prelude.{ℕ, zero, suc, ◌+◌, Option, some, List, [], ◌∷◌, ◌>>=◌, get_elem?}
use ptop.Prelude.Int.{ℤ, int_of_u32}
use ptop.Files.{Text, Libc}
use ptop.Floats.{Floats}
use ptop.Records.{DeviceEnergy, ProcessInfo}
use ptop.Database.{History, Mysql}
use ptop.Energy.{cpu_energy, ntwk_energy, disk_energy_of, memory_energy, system_energy}
use ptop.Display.Table.{Shown, energy_percent, shown_amount}

module _ (fl : Floats) (c : Libc) (atof : Text → Floats.Double fl) where
  open fl use {Single, add}

  -- `etotalsys` of test
  unfoldable pub total_with_net : DeviceEnergy Single → Single
  total_with_net pe = add (add (add pe.ecpu pe.edisk) pe.emem) pe.enet

  module _ (m : Mysql Single) (interval now : ℤ) where
    unfoldable pub dump_process :
        Single → ProcessInfo Single → History Single → Option (Shown Single × History Single)
    dump_process total p h =
        let pid = int_of_u32 p.pid in
        cpu_energy fl c atof m pid interval now h >>= λ (ecpu, h1).
        disk_energy_of fl c atof m pid interval now h1 >>= λ (edisk, h2).
        ntwk_energy fl c atof m pid interval now h2 >>= λ (enet, h3).
        memory_energy fl c atof m pid interval interval now h3 >>= λ (emem, h4). some (
          record {
            percent = energy_percent fl c atof total (add (add ecpu edisk) emem);
            energy = record {
              pid = pid;
              time = now;
              ecpu = ecpu;
              emem = emem;
              enet = enet;
              edisk = edisk;
              cmdline = p.cmdline;
            };
          },
          h4,
        )

    unfoldable pub dump_processes :
        Single
        → List (ProcessInfo Single)
        → ℕ
        → ℕ
        → History Single
        → Option (List (Shown Single) × History Single)
    dump_processes total table zero j h = some ([], h)
    dump_processes total table (suc left) j h = get_elem? table j >>= λ p.
        dump_process total p h >>= λ (line, h1).
        dump_processes total table left (j + 1) h1 >>= λ (lines, h2). some (line ∷ lines, h2)

    unfoldable pub test :
        List (ProcessInfo Single)
        → ℤ
        → History Single
        → Option (DeviceEnergy Single × List (Shown Single) × History Single)
    unfolding dump_processes total_with_net
    test table amount h = system_energy fl c atof m interval now h >>= λ (pe, h1).
        dump_processes (total_with_net pe) table (shown_amount fl c atof m interval now amount) 0 h1
        >>= λ (lines, h2). some (pe, lines, h2)
