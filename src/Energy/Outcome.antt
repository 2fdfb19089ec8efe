-- ===== src/Energy/Outcome.antt =====
-- energy.c: the five functions return on every answer of the database that has the columns asked
-- for, and close what they open; without an answer the energy is 0.
use ptop.Prelude.{
  ℕ, ◌≤◌, ◌<◌, true, Option, List, [], ◌∷◌, arith, length, get_elem?, get_elem?-within, Bool-cases,
  inl, inr, ◌>>=◌, Returns, Returns-bind,
}
use ptop.Prelude.Int.{ℤ, pos, eqb_ℤ}
use ptop.Files.{Text, Libc}
use ptop.Floats.{Floats}
use ptop.Records.{DeviceEnergy}
use ptop.Database.{
  Query, History, Row, Mysql, init, connect, query, use_result, insert_device, insert_process,
  insert_info, insert_sys, delete_before, select_cpu, select_net, select_disk, select_memory,
  select_system, create_conn, real_query,
}
use ptop.Database.Session.{Keeps}
use ptop.Energy.{
  fold_rows, selected, cpu_row, ntwk_row, disk_row, memory_row, system_row, cpu_energy, ntwk_energy,
  disk_energy_of, memory_energy, system_energy,
}

-- The number of columns that a statement asks for.
abbrev pub columns : {F : Type 0} → Query F → ℕ
columns (select_cpu _ _ _) = 5
columns (select_net _ _ _) = 2
columns (select_disk _ _ _) = 2
columns (select_memory _ _ _) = 4
columns (select_system _ _) = 7
columns (insert_device _) = 0
columns (insert_process _) = 0
columns (insert_info _) = 0
columns (insert_sys _) = 0
columns (delete_before _ _) = 0

abbrev pub AllWide : ℕ → List Row → Type 0
AllWide n [] = Unit
AllWide n (row ∷ rows) = (n ≤ length row) × AllWide n rows

-- The rows that answer a statement have its columns.
abbrev pub HasColumns : {F : Type 0} → Mysql F → Type 0
HasColumns {F} m =
    (h : History F) (q : Query F) (r : ℤ)
    → AllWide (columns q) (m.rows (use_result ∷ query q r ∷ h))

field :
    {A B : Type 0} (Q : B → Type 0) (xs : List A) (i : ℕ) (f : A → Option B)
    → i < length xs
    → ((a : A) → Returns Q (f a))
    → Returns Q (get_elem? xs i >>= f)
field Q xs i f h k =
    Returns-bind (λ _. Unit) Q (get_elem? xs i) f (get_elem?-within xs i h) λ a _. k a

fold_rows-Returns :
    {S : Type 0} (n : ℕ) (step : Row → S → Option S) (rows : List Row) (s : S)
    → ((row : Row) (s : S) → n ≤ length row → Returns (λ _. Unit) (step row s))
    → AllWide n rows
    → Returns (λ _. Unit) (fold_rows step rows s)
unfolding fold_rows
fold_rows-Returns n step [] s k w = tt
fold_rows-Returns n step (row ∷ rows) s k w =
    Returns-bind (λ _. Unit) _ (step row s) _ (k row s w.0)
      λ s' _. fold_rows-Returns n step rows s' k w.1

module _ {F S : Type 0} (m : Mysql F) (q : Query F) (step : Row → S → Option S) (start : S) where
  selected-Keeps :
      (P : History F → Type 0) (h : History F)
      → HasColumns m
      → ((row : Row) (s : S) → columns q ≤ length row → Returns (λ _. Unit) (step row s))
      → Keeps P
      → P h
      → Returns (λ r. P r.1) (selected m q step start h)
  unfolding selected create_conn real_query
  selected-Keeps P h w k keeps p = elim (Bool-cases (m.connects (init ∷ h))) [
    | inr off ↦ rw off (keeps.refused h p)
    | inl ok ↦ rw ok (elim (Bool-cases (eqb_ℤ (m.answer (connect true ∷ init ∷ h) q) (pos 0))) [
      | inr refused ↦ rw refused (keeps.asked h q _ p)
      | inl answered ↦ rw answered (
          Returns-bind (λ _. Unit) _ (fold_rows step _ start) _
            (fold_rows-Returns (columns q) step _ start k (w _ q _))
            λ s _. keeps.answered h q _ answered p)
    ])
  ]

module _ (fl : Floats) (c : Libc) (atof : Text → Floats.Double fl) where
  open fl use {Single}

  cpu_row-Returns :
      (row : Row) (s : Single) → 5 ≤ length row → Returns (λ _. Unit) (cpu_row fl c atof row s)
  unfolding cpu_row
  cpu_row-Returns row s h = field _ row 0 _ (omega (arith, h)) λ _.
      field _ row 1 _ (omega (arith, h)) λ _.
        field _ row 2 _ (omega (arith, h))
          λ _. field _ row 3 _ (omega (arith, h)) λ _. field _ row 4 _ (omega (arith, h)) λ _. tt

  ntwk_row-Returns :
      (row : Row) (s : Single) → 2 ≤ length row → Returns (λ _. Unit) (ntwk_row fl c atof row s)
  unfolding ntwk_row
  ntwk_row-Returns row s h =
      field _ row 0 _ (omega (arith, h)) λ _. field _ row 1 _ (omega (arith, h)) λ _. tt

  disk_row-Returns :
      (row : Row) (s : Single) → 2 ≤ length row → Returns (λ _. Unit) (disk_row fl c atof row s)
  unfolding disk_row
  disk_row-Returns row s h =
      field _ row 0 _ (omega (arith, h)) λ _. field _ row 1 _ (omega (arith, h)) λ _. tt

  memory_row-Returns :
      (row : Row) (s : Single) → 4 ≤ length row → Returns (λ _. Unit) (memory_row fl c atof row s)
  unfolding memory_row
  memory_row-Returns row s h = field _ row 0 _ (omega (arith, h)) λ _.
      field _ row 1 _ (omega (arith, h))
        λ _. field _ row 2 _ (omega (arith, h)) λ _. field _ row 3 _ (omega (arith, h)) λ _. tt

  system_row-Returns :
      (row : Row) (pe : DeviceEnergy Single)
      → 7 ≤ length row
      → Returns (λ _. Unit) (system_row fl c atof row pe)
  unfolding system_row
  system_row-Returns row pe h = field _ row 0 _ (omega (arith, h)) λ _.
      field _ row 1 _ (omega (arith, h)) λ _. field _ row 2 _ (omega (arith, h)) λ _.
        field _ row 3 _ (omega (arith, h)) λ _.
          field _ row 4 _ (omega (arith, h))
            λ _. field _ row 5 _ (omega (arith, h)) λ _. field _ row 6 _ (omega (arith, h)) λ _. tt

  module _ (m : Mysql Single) where
    -- The five functions keep what a refusal, a statement and a result that is read keep.
    pub energies-Keeps :
        (P : History Single → Type 0) (pid length interval now : ℤ) (h : History Single)
        → HasColumns m
        → Keeps P
        → P h
        → Returns (λ r. P r.1) (cpu_energy fl c atof m pid length now h)
          × Returns (λ r. P r.1) (ntwk_energy fl c atof m pid length now h)
          × Returns (λ r. P r.1) (disk_energy_of fl c atof m pid length now h)
          × Returns (λ r. P r.1) (memory_energy fl c atof m pid length interval now h)
          × Returns (λ r. P r.1) (system_energy fl c atof m length now h)
    unfolding cpu_energy ntwk_energy disk_energy_of memory_energy system_energy
    energies-Keeps P pid length interval now h w k p = (
      selected-Keeps m (select_cpu _ _ _) _ _ P h w cpu_row-Returns k p,
      selected-Keeps m (select_net _ _ _) _ _ P h w ntwk_row-Returns k p,
      selected-Keeps m (select_disk _ _ _) _ _ P h w disk_row-Returns k p,
      selected-Keeps m (select_memory _ _ _) _ _ P h w memory_row-Returns k p,
      selected-Keeps m (select_system _ _) _ _ P h w system_row-Returns k p,
    )
