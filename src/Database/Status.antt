-- ===== src/Database/Status.antt =====
-- database.c: what the functions return, against the comments above them.
use ptop.Prelude.{ℕ, ◌+◌, ◌%◌, ◌≡◌, ◌↔◌, inl, inr, ◌∷◌, arith, Bool-cases}
use ptop.Prelude.Int.{ℤ, pos, pos_part, neg_part}
use ptop.Database.{
  History, Mysql, init, freeup_all, init_stat_data, freeup_ps, freeup_sys_info, create_conn,
  low_bit, and_flag,
}

abbrev pub IsOdd : ℤ → Type 0
IsOdd r = (pos_part r + neg_part r) % 2 ≡ 1

and_flags : (r r' : ℤ) → (and_flag (and_flag (pos 1) r) r' ≡ pos 1) ↔ (IsOdd r × IsOdd r')
unfolding and_flag low_bit
and_flags r r' = ground arith

module _ {F : Type 0} (m : Mysql F) where
  -- `freeup_all` returns 1 exactly when both deletions returned an odd status.
  pub freeup_all_status :
      (now now' : ℤ) (interval : ℕ) (h : History F)
      → let (r, h1) = freeup_ps m now interval h in
        let (r', _) = freeup_sys_info m now' interval h1 in
        ((freeup_all m now now' interval h).0 ≡ pos 1) ↔ (IsOdd r × IsOdd r')
  unfolding freeup_all
  freeup_all_status now now' interval h =
      let (r, h1) = freeup_ps m now interval h in and_flags r (freeup_sys_info m now' interval h1).0

  -- `init_stat_data` returns 1 whatever the database answers: it never reports a failure.
  pub init_stat_data_status :
      (now now' : ℤ) (h : History F) → (init_stat_data m now now' h).0 ≡ pos 1
  unfolding init_stat_data create_conn
  init_stat_data_status now now' h = elim (Bool-cases (m.connects (init ∷ h))) [
    | inl ok ↦ rw ok
    | inr off ↦ rw off
  ]
