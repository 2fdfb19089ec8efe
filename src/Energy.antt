-- ===== src/Energy.antt =====
-- energy.c: the energy that a process, or the whole system, used in a span of time, from the rows
-- that the tables hold for it. A field that a row does not have is a fault, `none`, since the
-- program reads through a null pointer there.
pub mod Outcome
pub mod Stored
use ptop.Prelude.{
  ℕ, ◌+◌, ◌*◌, ◌/◌, Bool, true, false, Option, none, some, List, [], ◌∷◌, if◌then◌else◌, ◌>>=◌,
  get_elem?, ltb,
}
use ptop.Prelude.Int.{ℤ, pos, negsuc, ◌-ℤ◌, eqb_ℤ}
use ptop.Common.{u64_mod, u32_of_int, u64_of_int}
use ptop.Files.{Text, File, Libc}
use ptop.Floats.{Floats}
use ptop.Records.{DeviceEnergy}
use ptop.Database.{
  Query, History, Row, Mysql, close, use_result, free_result, create_conn, real_query, select_cpu,
  select_net, select_disk, select_memory, select_system,
}

-- The loop over the rows of a result.
unfoldable pub fold_rows : {S : Type 0} → (Row → S → Option S) → List Row → S → Option S
fold_rows step [] s = some s
fold_rows step (row ∷ rows) s = step row s >>= λ s'. fold_rows step rows s'

-- The body that the five functions share: connect, ask, add up the rows, free and close. Without a
-- connection or a result the answer is what the sums start from.
unfoldable pub selected :
    {F S : Type 0}
    → Mysql F
    → Query F
    → (Row → S → Option S)
    → S
    → History F
    → Option (S × History F)
unfolding create_conn real_query
selected m q step start h =
    let (ok, h1) = create_conn m h in
    let (result, h2) = real_query m q h1 in
    let sums = fold_rows step (m.rows (use_result ∷ h2)) start >>= λ s.
    some (s, close ∷ free_result ∷ use_result ∷ h2) in
    if ok
    then (if eqb_ℤ result (pos 0) then sums else some (start, close ∷ h2))
    else some (start, h1)

-- `e` is what the uninitialised variable holds. Without the file, -1 is returned as an unsigned
-- long.
unfoldable pub get_e_battery : Libc → ℕ → File → ℕ
get_e_battery c e none = u64_of_int (negsuc 0)
get_e_battery c e (some []) = e
get_e_battery c e (some (line ∷ lines)) = elim (c.scan_int line) [
  | none ↦ e
  | some n ↦ u64_of_int n
]

module _ (fl : Floats) (c : Libc) (atof : Text → Floats.Double fl) where
  open fl use {
    Single, Double, of_u64, add, mul, div, widen, narrow, of_u64_double, of_int_double, decimal,
    add_double, mul_double, div_double,
  }

  -- MEMORY_POWER, L2CACHE_MISS_LATENCY, and the energies of one KB
  abbrev memory_power : Double
  memory_power = decimal 2016 3

  abbrev l2cache_miss_latency : Double
  l2cache_miss_latency = decimal 5980 2

  abbrev edisk_r_per_kb : Double
  edisk_r_per_kb = mul_double (decimal 2 5) (decimal 278 2)

  abbrev edisk_w_per_kb : Double
  edisk_w_per_kb = mul_double (decimal 2 5) (decimal 219 2)

  abbrev enet_snd_per_kb : Double
  enet_snd_per_kb = div_double (decimal 18 1) (mul_double (of_u64_double 1024) (decimal 12330 3))

  abbrev enet_rcv_per_kb : Double
  enet_rcv_per_kb = div_double (decimal 14 1) (mul_double (of_u64_double 1024) (decimal 5665 3))

  -- `float += double`
  unfoldable pub add_to : Single → Double → Single
  add_to total d = narrow (add_double (widen total) d)

  -- The energy of so many accesses to the memory.
  unfoldable pub access_energy : Double → Double
  access_energy n =
      div_double (mul_double (mul_double n l2cache_miss_latency) memory_power)
        (of_u64_double 1000000000)

  unfoldable pub cpu_row : Row → Single → Option Single
  cpu_row row total = get_elem? row 0 >>= λ cpu. get_elem? row 1 >>= λ power.
      get_elem? row 2 >>= λ itv. get_elem? row 3 >>= λ runtime. get_elem? row 4 >>= λ apnum.
      let run_percent =
        div (mul (of_u64 (u32_of_int (c.atoi runtime))) (of_u64 1))
          (of_u64 (u32_of_int (c.atoi itv))) in
      some (
        add total
          (div (mul (mul (narrow (atof cpu)) (narrow (atof power))) run_percent) (of_u64 100)))

  unfoldable pub ntwk_row : Row → Single → Option Single
  ntwk_row row total = get_elem? row 0 >>= λ netsnd. get_elem? row 1 >>= λ netrcv.
      let kb = of_u64_double 1024 in
      let part =
        λ (t : Text) (e : Double). div_double (mul_double (widen (narrow (atof t))) e) kb in
      some (add_to total (add_double (part netsnd enet_snd_per_kb) (part netrcv enet_rcv_per_kb)))

  -- The bytes read and written, in whole KB, at the energies of the disk.
  unfoldable pub disk_energy : ℕ → ℕ → Double
  disk_energy r w =
      add_double (mul_double (of_u64_double (r / 1024)) edisk_r_per_kb)
        (mul_double (of_u64_double (w / 1024)) edisk_w_per_kb)

  unfoldable pub disk_row : Row → Single → Option Single
  unfolding disk_energy
  disk_row row total = get_elem? row 0 >>= λ r. get_elem? row 1 >>= λ w.
      some (add_to total (disk_energy (u64_of_int (c.atol r)) (u64_of_int (c.atol w))))

  -- `ratio` is converted and never used.
  unfoldable pub memory_row : Row → Single → Option Single
  unfolding access_energy
  memory_row row total = get_elem? row 0 >>= λ ratio. get_elem? row 1 >>= λ r.
      get_elem? row 2 >>= λ w. get_elem? row 3 >>= λ cpu_accesses.
      let lines = λ (t : Text). div (narrow (atof t)) (of_u64 128) in
      some (
        add_to total (
          add_double (access_energy (widen (add (lines r) (lines w))))
            (access_energy (of_int_double (c.atol cpu_accesses)))))

  -- `pe` after one row; `itv` is converted and never used.
  unfoldable pub system_row : Row → DeviceEnergy Single → Option (DeviceEnergy Single)
  unfolding access_energy disk_energy
  system_row row pe = get_elem? row 0 >>= λ snd. get_elem? row 1 >>= λ rcv.
      get_elem? row 2 >>= λ rd. get_elem? row 3 >>= λ wr. get_elem? row 4 >>= λ power.
      get_elem? row 5 >>= λ memaccess. get_elem? row 6 >>= λ itv.
      let u64 = λ (t : Text). u64_of_int (c.atol t) in
      let kb = of_u64_double 1024 in
      let net = λ (t : Text) (e : Double). div_double (mul_double (of_u64_double (u64 t)) e) kb in
      some (record pe {
        ecpu = add pe.ecpu (narrow (atof power));
        emem = add pe.emem (
            narrow (
              add_double (access_energy (of_u64_double (u64 rd / 128 + u64 wr / 128)))
                (access_energy (of_u64_double (u64 memaccess)))));
        edisk = add pe.edisk (narrow (disk_energy (u64 rd) (u64 wr)));
        enet =
            add pe.enet (narrow (add_double (net snd enet_snd_per_kb) (net rcv enet_rcv_per_kb)));
      })

  module _ (m : Mysql Single) where
    -- `return 0`, or the 0.0 that a sum starts from
    abbrev pub zero_energy : Single
    zero_energy = of_u64 0

    -- What the `memset` of `clear_device` leaves of `pe`.
    abbrev pub zero_device : DeviceEnergy Single
    zero_device = record {
      time = pos 0;
      ecpu = of_u64 0;
      emem = of_u64 0;
      enet = of_u64 0;
      edisk = of_u64 0;
    }

    unfoldable pub cpu_energy : ℤ → ℤ → ℤ → History Single → Option (Single × History Single)
    cpu_energy pid length now = selected m (select_cpu pid (now -ℤ length) now) cpu_row zero_energy

    -- The display's share is a stub.
    unfoldable pub dsply_energy : ℤ → ℤ → ℤ → Single
    dsply_energy pid length now = zero_energy

    unfoldable pub ntwk_energy : ℤ → ℤ → ℤ → History Single → Option (Single × History Single)
    ntwk_energy pid length now =
        selected m (select_net pid (now -ℤ length) now) ntwk_row zero_energy

    unfoldable pub disk_energy_of : ℤ → ℤ → ℤ → History Single → Option (Single × History Single)
    disk_energy_of pid length now =
        selected m (select_disk pid (now -ℤ length) now) disk_row zero_energy

    unfoldable pub memory_energy : ℤ → ℤ → ℤ → ℤ → History Single → Option (Single × History Single)
    memory_energy pid length interval now =
        selected m (select_memory pid (now -ℤ length) now) memory_row zero_energy

    -- The first lines of systemEnergy. The `memset` clears the 40 bytes of a struct process_energy,
    -- where the variable has 24: 16 bytes behind it are written too, a fault where they are in use.
    unfoldable pub clear_device : Option (DeviceEnergy Single)
    clear_device = if ltb 15 c.spare then some zero_device else none

    -- systemEnergy behind its `memset`.
    unfoldable pub system_energy :
        ℤ → ℤ → History Single → Option (DeviceEnergy Single × History Single)
    system_energy length now = selected m (select_system (now -ℤ length) now) system_row zero_device
