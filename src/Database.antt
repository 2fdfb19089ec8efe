-- ===== src/Database.antt =====
-- database.c: one connection for each statement. The MySQL client and server are a parameter: what
-- they answer may depend in any way on the calls made so far, which are the state. A statement
-- stands for the text that `sprintf` makes of its values (Text); the clock's readings are arguments.
pub mod Handles
pub mod Retention
pub mod Text
pub mod Status
pub mod Session
use ptop.Prelude.{ℕ, zero, suc, ◌+◌, ◌%◌, Bool, true, false, List, [], ◌∷◌, ◌==◌, if◌then◌else◌}
use ptop.Prelude.Int.{ℤ, pos, negsuc, pos_part, neg_part, ◌-ℤ◌, eqb_ℤ}
use ptop.Records.{DeviceEnergy, ProcessEnergy, ProcessInfo, SysInfo}

pub data Table : Type 0 where
  device_energy process_energy process_info sys_info : Table

-- The statements that the program sends, over the type of `float`. A `select` names its process
-- and the times that its rows lie between.
pub data Query (F : Type 0) : Type 0 where
  insert_device : DeviceEnergy F → Query F
  insert_process : ProcessEnergy F → Query F
  insert_info : ProcessInfo F → Query F
  insert_sys : SysInfo F → Query F
  delete_before : Table → ℤ → Query F
  select_cpu select_net select_disk select_memory : ℤ → ℤ → ℤ → Query F
  select_system : ℤ → ℤ → Query F

-- The calls of the client library, with what they answered.
pub data Call (F : Type 0) : Type 0 where
  init : Call F
  connect : Bool → Call F
  query : Query F → ℤ → Call F
  use_result free_result close : Call F

-- The calls made so far, the last one first.
abbrev pub History : Type 0 → Type 0
History F = List (Call F)

-- A fetched row is a list of texts.
abbrev pub Row : Type 0
Row = List (List ℕ)

-- MySQL: whether it connects, what a statement returns, and the rows of a result.
pub record Mysql (F : Type 0) : Type 0 where
  pub connects : History F → Bool
  pub answer : History F → Query F → ℤ
  pub rows : History F → List Row

-- `1 & r` of two's complement integers
unfoldable pub low_bit : ℤ → ℤ
low_bit r = pos ((pos_part r + neg_part r) % 2)

-- `result &= r`, where `result` is 0 or 1
unfoldable pub and_flag : ℤ → ℤ → ℤ
unfolding low_bit
and_flag result r = if eqb_ℤ result (pos 0) then pos 0 else low_bit r

module _ {F : Type 0} (m : Mysql F) where
  unfoldable pub create_conn : History F → Bool × History F
  create_conn h = let ok = m.connects (init ∷ h) in (ok, connect ok ∷ init ∷ h)

  -- mysql_real_query
  unfoldable pub real_query : Query F → History F → ℤ × History F
  real_query q h = (m.answer h q, query q (m.answer h q) ∷ h)

  -- The body that the functions for a single statement share.
  unfoldable pub statement : Query F → History F → ℤ × History F
  unfolding create_conn real_query
  statement q h =
      let (ok, h1) = create_conn h in
      let (result, h2) = real_query q h1 in if ok then (result, close ∷ h2) else (pos 1, h1)

  unfoldable pub insert_device_energy : DeviceEnergy F → History F → ℤ × History F
  insert_device_energy de = statement (insert_device de)

  unfoldable pub insert_process_energy : ProcessEnergy F → History F → ℤ × History F
  insert_process_energy pe = statement (insert_process pe)

  unfoldable pub insert_ps : ProcessInfo F → History F → ℤ × History F
  insert_ps pst = statement (insert_info pst)

  unfoldable pub insert_sys_info : SysInfo F → History F → ℤ × History F
  insert_sys_info st = statement (insert_sys st)

  unfoldable pub freeup_device_energy : ℤ → ℕ → History F → ℤ × History F
  freeup_device_energy now interval = statement (delete_before device_energy (now -ℤ pos interval))

  unfoldable pub freeup_process_energy : ℤ → ℕ → History F → ℤ × History F
  freeup_process_energy now interval =
      statement (delete_before process_energy (now -ℤ pos interval))

  unfoldable pub freeup_ps : ℤ → ℕ → History F → ℤ × History F
  freeup_ps now interval = statement (delete_before process_info (now -ℤ pos interval))

  unfoldable pub freeup_sys_info : ℤ → ℕ → History F → ℤ × History F
  freeup_sys_info now interval = statement (delete_before sys_info (now -ℤ pos interval))

  -- The clock is read twice.
  unfoldable pub freeup_all : ℤ → ℤ → ℕ → History F → ℤ × History F
  unfolding and_flag
  freeup_all now now' interval h =
      let (r, h1) = freeup_ps now interval h in
      let (r', h2) = freeup_sys_info now' interval h1 in (and_flag (and_flag (pos 1) r) r', h2)

  unfoldable pub init_stat_data : ℤ → ℤ → History F → ℤ × History F
  init_stat_data now now' h =
      let (ok, h1) = create_conn h in
      let (_, h2) = freeup_all now now' 0 h1 in if ok then (pos 1, close ∷ h2) else (pos 1, h1)

  unfoldable pub clean_stat_data : ℤ → ℤ → History F → History F
  clean_stat_data now now' h = (freeup_all now now' 0 h).1
