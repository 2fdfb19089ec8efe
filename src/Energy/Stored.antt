-- ===== src/Energy/Stored.antt =====
-- energy.c and database.c: the energies of a process as sums over the rows that are stored for it.
use mathlib.Core.List.{Perm}
use ptop.Prelude.{
  arith, ◌≡◌, refl, ap, Bool, true, not, ◌&&◌, Option, some, List, [], ◌∷◌, ◌++◌, map,
  if◌then◌else◌, Bool-cases, inl, inr, Returns,
}
use ptop.Prelude.Int.{ℤ, pos, pos_part, ◌-ℤ◌, ltb_ℤ, eqb_ℤ}
use ptop.Files.{Text, Libc}
use ptop.Floats.{Floats}
use ptop.Records.{ProcessInfo}
use ptop.Database.{
  History, Mysql, Query, Row, init, connect, query, use_result, insert_ps, create_conn, real_query,
  statement, select_net, select_disk, select_memory,
}
use ptop.Database.Retention.{Accepts, info_rows, info_rows-insert_ps}
use ptop.Energy.{
  fold_rows, selected, ntwk_row, disk_row, memory_row, zero_energy, ntwk_energy, disk_energy_of,
  memory_energy,
}

-- `pid=%d and time>(%ld) and time<=%ld`
abbrev pub matches : {F : Type 0} → ℤ → ℤ → ℤ → ProcessInfo F → Bool
matches pid from to p =
    eqb_ℤ (pos p.pid) pid && (ltb_ℤ from (pos p.time) && not (ltb_ℤ to (pos p.time)))

abbrev pub matching : {F : Type 0} → ℤ → ℤ → ℤ → List (ProcessInfo F) → List (ProcessInfo F)
matching pid from to [] = []
matching pid from to (p ∷ ps) =
    if matches pid from to p then p ∷ matching pid from to ps else matching pid from to ps

-- The texts in which the server answers with the values of a row: `written` is the difference of the
-- bytes written and cancelled.
pub record Texts (F : Type 0) : Type 0 where
  pub netsnd : ProcessInfo F → Text
  pub netrcv : ProcessInfo F → Text
  pub read : ProcessInfo F → Text
  pub written : ProcessInfo F → Text
  pub ratio : ProcessInfo F → Text
  pub accesses : ProcessInfo F → Text

-- The rows are those of the records, in some order.
abbrev pub AnyOrder :
    {F : Type 0} → (ProcessInfo F → Row) → List (ProcessInfo F) → List Row → Type 0
AnyOrder {F} cols ps rows = (qs : List (ProcessInfo F)) × Perm qs ps × (rows ≡ map cols qs)

module _ {F : Type 0} (t : Texts F) where
  abbrev pub net_columns : ProcessInfo F → Row
  net_columns p = t.netsnd p ∷ t.netrcv p ∷ []

  abbrev pub disk_columns : ProcessInfo F → Row
  disk_columns p = t.read p ∷ t.written p ∷ []

  abbrev pub memory_columns : ProcessInfo F → Row
  memory_columns p = t.ratio p ∷ t.read p ∷ t.written p ∷ t.accesses p ∷ []

  -- The server answers an accepted SELECT from process_info with the rows that match, in some order.
  pub record Answers (m : Mysql F) : Type 0 where
    pub net :
        (pid from to : ℤ) (h : History F)
        → AnyOrder net_columns
            (matching pid from to (info_rows h))
            (m.rows (use_result ∷ query (select_net pid from to) (pos 0) ∷ h))
    pub disk :
        (pid from to : ℤ) (h : History F)
        → AnyOrder disk_columns
            (matching pid from to (info_rows h))
            (m.rows (use_result ∷ query (select_disk pid from to) (pos 0) ∷ h))
    pub memory :
        (pid from to : ℤ) (h : History F)
        → AnyOrder memory_columns
            (matching pid from to (info_rows h))
            (m.rows (use_result ∷ query (select_memory pid from to) (pos 0) ∷ h))

-- The rows of the list that match, and a further one, if it matches.
abbrev pub matching_with :
    {F : Type 0} → ℤ → ℤ → ℤ → ProcessInfo F → List (ProcessInfo F) → List (ProcessInfo F)
matching_with pid from to p ps =
    if matches pid from to p then matching pid from to ps ++ (p ∷ []) else matching pid from to ps

matching-append :
    {F : Type 0} (pid from to : ℤ) (ps : List (ProcessInfo F)) (p : ProcessInfo F)
    → matching pid from to (ps ++ (p ∷ [])) ≡ (
        if matches pid from to p
        then matching pid from to ps ++ (p ∷ [])
        else matching pid from to ps)
matching-append pid from to [] p = elim (Bool-cases (matches pid from to p)) [
  | inl yes_it ↦ rw yes_it refl
  | inr no_it ↦ rw no_it refl
]
matching-append pid from to (q ∷ ps) p =
    let ih = matching-append pid from to ps p in
    elim (Bool-cases (matches pid from to p)) [
      | inl yes_it ↦ elim (Bool-cases (matches pid from to q)) [
        | inl a ↦ rw (yes_it, a) (ap (λ l. q ∷ l) (rw yes_it at ih))
        | inr b ↦ rw (yes_it, b) (rw yes_it at ih)
      ]
      | inr no_it ↦ elim (Bool-cases (matches pid from to q)) [
        | inl a ↦ rw (no_it, a) (ap (λ l. q ∷ l) (rw no_it at ih))
        | inr b ↦ rw (no_it, b) (rw no_it at ih)
      ]
    ]

-- The result is what the loop makes of the records, in some order.
abbrev pub Sums :
    {F S T : Type 0}
    → (Row → S → Option S)
    → (ProcessInfo F → Row)
    → S
    → List (ProcessInfo F)
    → Option (S × T)
    → Type 0
Sums {F} step cols start ps =
    Returns λ r.
      (qs : List (ProcessInfo F)) × Perm qs ps × (fold_rows step (map cols qs) start ≡ some r.0)

-- The rows of a list, one after the other, when the step never fails on their columns.
module _ {F S : Type 0} (cols : ProcessInfo F → Row) (step : Row → S → Option S)
    (total : ProcessInfo F → S → S)
    (steps : (p : ProcessInfo F) (s : S) → step (cols p) s ≡ some (total p s)) where
  abbrev totals : List (ProcessInfo F) → S → S
  totals [] s = s
  totals (p ∷ ps) s = totals ps (total p s)

  fold_rows-totals :
      (ps : List (ProcessInfo F)) (s : S) → fold_rows step (map cols ps) s ≡ some (totals ps s)
  unfolding fold_rows
  fold_rows-totals [] s = refl
  fold_rows-totals (p ∷ ps) s = rw (steps p s) (fold_rows-totals ps (total p s))

module _ {F : Type 0} (m : Mysql F) (accepts : Accepts m) where
  accepted-connects : (q : Query F) (h : History F) → m.connects (init ∷ h) ≡ true
  unfolding statement create_conn real_query
  accepted-connects q h = elim (Bool-cases (m.connects (init ∷ h))) [
    | inl ok ↦ ok
    | inr off ↦ absurd (omega (arith, ap pos_part (rw off at (accepts q h))))
  ]

  accepted-answer : (q : Query F) (h : History F) → m.answer (connect true ∷ init ∷ h) q ≡ pos 0
  unfolding statement create_conn real_query
  accepted-answer q h = rw (accepted-connects q h) at (accepts q h)

  module _ {S : Type 0} (q : Query F) (cols : ProcessInfo F → Row) (step : Row → S → Option S)
      (start : S) (total : ProcessInfo F → S → S)
      (steps : (p : ProcessInfo F) (s : S) → step (cols p) s ≡ some (total p s)) (pid from to : ℤ)
      (answers : (h : History F)
        → AnyOrder cols
            (matching pid from to (info_rows h))
            (m.rows (use_result ∷ query q (pos 0) ∷ connect true ∷ init ∷ h))) where
    selected-Sums :
        (h : History F)
        → Sums step cols start (matching pid from to (info_rows h)) (selected m q step start h)
    unfolding selected create_conn real_query
    selected-Sums h =
        let (ps, perm, rows) = answers h in
        let sum = fold_rows-totals cols step total steps ps start in
        rw (accepted-connects q h, accepted-answer q h, rows, sum) (ps, perm, sum)

    selected-insert_ps :
        (p : ProcessInfo F) (h : History F)
        → Sums step cols start
            (matching_with pid from to p (info_rows h))
            (selected m q step start (insert_ps m p h).1)
    selected-insert_ps p h =
        rw (info_rows-insert_ps m accepts p h, matching-append pid from to (info_rows h) p) at
          (selected-Sums (insert_ps m p h).1)

module _ (fl : Floats) (c : Libc) (atof : Text → Floats.Double fl)
    (t : Texts (Floats.Single fl)) where
  open fl use {Single}

  -- If the database accepts every statement and answers a SELECT with the rows that are stored and
  -- match, in whatever order, then the energies of the network, the disk and the memory that are
  -- asked for after a record was stored are there, and each is what the loop makes, from 0, of the
  -- rows that matched before and, if the record is of the process and from the span of time that is
  -- asked for, of its row, in some order.
  pub energies-insert_ps :
      (m : Mysql Single) (pid length interval now : ℤ) (p : ProcessInfo Single) (h : History Single)
      → Accepts m
      → Answers t m
      → let rows = matching_with pid (now -ℤ length) now p (info_rows h) in
        let h' = (insert_ps m p h).1 in
        let zero = zero_energy fl c atof m in
        Sums
          (ntwk_row fl c atof)
          (net_columns t)
          zero
          rows
          (ntwk_energy fl c atof m pid length now h')
        × Sums
            (disk_row fl c atof)
            (disk_columns t)
            zero
            rows
            (disk_energy_of fl c atof m pid length now h')
        × Sums
            (memory_row fl c atof)
            (memory_columns t)
            zero
            rows
            (memory_energy fl c atof m pid length interval now h')
  unfolding ntwk_energy disk_energy_of memory_energy ntwk_row disk_row memory_row info_rows
  energies-insert_ps m pid length interval now p h accepts answers = (
    selected-insert_ps m accepts _ (net_columns t) _ _ _ (λ q s. refl) pid (now -ℤ length) now
        (λ h. answers.net pid (now -ℤ length) now (connect true ∷ init ∷ h)) p h,
    selected-insert_ps m accepts _ (disk_columns t) _ _ _ (λ q s. refl) pid (now -ℤ length) now
        (λ h. answers.disk pid (now -ℤ length) now (connect true ∷ init ∷ h)) p h,
    selected-insert_ps m accepts _ (memory_columns t) _ _ _ (λ q s. refl) pid (now -ℤ length) now
        (λ h. answers.memory pid (now -ℤ length) now (connect true ∷ init ∷ h)) p h,
  )
