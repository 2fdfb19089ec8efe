-- ===== src/Database/Retention.antt =====
-- database.c with conf/db_schema.sql: the rows that a table holds after the statements that the
-- server accepted, and what the deletions leave of them.
use ptop.Prelude.{
  ℕ, zero, suc, ◌≡◌, refl, ap, true, false, List, [], ◌∷◌, ◌++◌, arith, if◌then◌else◌, Bool-cases,
  ◌⊎◌, inl, inr,
}
use ptop.Prelude.Int.{ℤ, pos, negsuc, pos_part, ◌-ℤ◌, ltb_ℤ}
use ptop.Records.{ProcessInfo}
use ptop.Database.{
  process_info, sys_info, connect, Query, freeup_all, freeup_sys_info, insert_info, delete_before,
  History, Mysql, init, query, statement, insert_ps, freeup_ps,
}

module _ {F : Type 0} where
  -- The rows of process_info that are not older than a time, in their order.
  abbrev pub keep_since : ℤ → List (ProcessInfo F) → List (ProcessInfo F)
  keep_since t [] = []
  keep_since t (p ∷ ps) = if ltb_ℤ (pos p.time) t then keep_since t ps else p ∷ keep_since t ps

  -- What an accepted statement does to the rows of process_info.
  abbrev pub on_info : Query F → List (ProcessInfo F) → List (ProcessInfo F)
  on_info (insert_info p) ps = ps ++ (p ∷ [])
  on_info (delete_before process_info t) ps = keep_since t ps
  on_info _ ps = ps

  -- The rows of process_info after some calls. A status of 0 means that the statement took effect.
  unfoldable pub info_rows : History F → List (ProcessInfo F)
  info_rows [] = []
  info_rows (query q (pos zero) ∷ h) = on_info q (info_rows h)
  info_rows (_ ∷ h) = info_rows h

  abbrev pub AllSince : ℤ → List (ProcessInfo F) → Type 0
  AllSince t [] = Unit
  AllSince t (p ∷ ps) = (ltb_ℤ (pos p.time) t ≡ false) × AllSince t ps

  -- The database accepts every statement.
  abbrev pub Accepts : Mysql F → Type 0
  Accepts m = (q : Query F) (h : History F) → (statement m q h).0 ≡ pos 0

  keep_since-AllSince : (t : ℤ) (ps : List (ProcessInfo F)) → AllSince t (keep_since t ps)
  keep_since-AllSince t [] = tt
  keep_since-AllSince t (p ∷ ps) = elim (Bool-cases (ltb_ℤ (pos p.time) t)) [
    | inl old ↦ rw old (keep_since-AllSince t ps)
    | inr recent ↦ rw recent (recent, keep_since-AllSince t ps)
  ]

  info_rows-query :
      (q : Query F) (r : ℤ) (h : History F)
      → on_info q (info_rows h) ≡ info_rows h
      → info_rows (query q r ∷ h) ≡ info_rows h
  unfolding info_rows
  info_rows-query q (pos zero) h e = e
  info_rows-query q (pos (suc n)) h e = refl
  info_rows-query q (negsuc n) h e = refl

  module _ (m : Mysql F) where
    info_rows-statement :
        (q : Query F) (h : History F)
        → (statement m q h).0 ≡ pos 0
        → info_rows (statement m q h).1 ≡ on_info q (info_rows h)
    unfolding statement info_rows
    info_rows-statement q h e = elim (Bool-cases (m.connects (init ∷ h))) [
      | inl ok ↦ rw ok (rw (rw ok at e))
      | inr off ↦ absurd (omega (arith, ap pos_part (rw off at e)))
    ]

    -- When the deletion is accepted, the rows left are those of before, in their order, that are not
    -- older than the interval, and none is older.
    pub freeup_ps-AllSince :
        (now : ℤ) (interval : ℕ) (h : History F)
        → (freeup_ps m now interval h).0 ≡ pos 0
        → (info_rows (freeup_ps m now interval h).1
            ≡ keep_since (now -ℤ pos interval) (info_rows h))
          × AllSince (now -ℤ pos interval) (info_rows (freeup_ps m now interval h).1)
    unfolding freeup_ps
    freeup_ps-AllSince now interval h e =
        let rows = info_rows-statement (delete_before process_info (now -ℤ pos interval)) h e in
        (rows, rw rows (keep_since-AllSince (now -ℤ pos interval) (info_rows h)))

    -- A statement that does nothing to process_info leaves its rows, accepted or not.
    pub info_rows-unrelated :
        (q : Query F) (h : History F)
        → ((ps : List (ProcessInfo F)) → on_info q ps ≡ ps)
        → info_rows (statement m q h).1 ≡ info_rows h
    unfolding statement info_rows
    info_rows-unrelated q h e = elim (Bool-cases (m.connects (init ∷ h))) [
      | inl ok ↦ rw ok (info_rows-query q _ (connect true ∷ init ∷ h) (e (info_rows h)))
      | inr off ↦ rw off refl
    ]

    -- When the deletion from process_info is accepted, then after the deletions of `freeup_all`,
    -- accepted or not, the rows left are those of before, in their order, that are not older than
    -- the interval, and none is older.
    pub freeup_all-AllSince :
        (now now' : ℤ) (interval : ℕ) (h : History F)
        → (freeup_ps m now interval h).0 ≡ pos 0
        → (info_rows (freeup_all m now now' interval h).1
            ≡ keep_since (now -ℤ pos interval) (info_rows h))
          × AllSince (now -ℤ pos interval) (info_rows (freeup_all m now now' interval h).1)
    unfolding freeup_all freeup_sys_info
    freeup_all-AllSince now now' interval h e =
        let (rows, recent) = freeup_ps-AllSince now interval h e in
        rw
          (info_rows-unrelated (delete_before sys_info (now' -ℤ pos interval))
            (freeup_ps m now interval h).1 (λ ps. refl))
          (rows, recent)

    -- Where statements are accepted an insertion appends the record.
    pub info_rows-insert_ps :
        (accepts : Accepts m) (p : ProcessInfo F) (h : History F)
        → info_rows (insert_ps m p h).1 ≡ info_rows h ++ (p ∷ [])
    unfolding insert_ps
    info_rows-insert_ps accepts p h =
        info_rows-statement (insert_info p) h (accepts (insert_info p) h)

    info_rows-query_cases :
        (q : Query F) (r : ℤ) (h : History F)
        → (info_rows (query q r ∷ h) ≡ info_rows h)
          ⊎ (info_rows (query q r ∷ h) ≡ on_info q (info_rows h))
    unfolding info_rows
    info_rows-query_cases q (pos zero) h = inr refl
    info_rows-query_cases q (pos (suc n)) h = inl refl
    info_rows-query_cases q (negsuc n) h = inl refl

    -- Accepted or not, an insertion appends the record or changes nothing.
    pub info_rows-insert_cases :
        (p : ProcessInfo F) (h : History F)
        → (info_rows (insert_ps m p h).1 ≡ info_rows h)
          ⊎ (info_rows (insert_ps m p h).1 ≡ info_rows h ++ (p ∷ []))
    unfolding insert_ps statement info_rows
    info_rows-insert_cases p h = elim (Bool-cases (m.connects (init ∷ h))) [
      | inl ok ↦ rw ok (info_rows-query_cases (insert_info p) _ (connect true ∷ init ∷ h))
      | inr off ↦ rw off (inl refl)
    ]
