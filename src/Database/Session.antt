-- ===== src/Database/Session.antt =====
-- database.c and energy.c: the order in which the client library is called. A statement is sent on
-- an open connection only, a result is read only after a statement that succeeded, and is freed,
-- and a connection is closed once.
use ptop.Prelude.{ℕ, suc, ◌≡◌, true, false, [], ◌∷◌, arith, Bool-cases, inl, inr}
use ptop.Prelude.Int.{ℤ, pos, eqb_ℤ}
use ptop.Database.{
  History, Mysql, Query, init, connect, query, use_result, free_result, close, statement,
  create_conn, freeup_all, freeup_ps, freeup_sys_info, init_stat_data,
}
use ptop.Database.Handles.{Outstanding}

-- The calls made so far, in such an order, with the number of connections that are open.
pub data Session {F : Type 0} : ℕ → History F → Type 0 where
  no_call : Session 0 []
  refusal : {n : ℕ} {h : History F} → Session n h → Session n (connect false ∷ init ∷ h)
  opening : {n : ℕ} {h : History F} → Session n h → Session (suc n) (connect true ∷ init ∷ h)
  asking :
      {n : ℕ} {h : History F} {q : Query F} {r : ℤ}
      → Session (suc n) h
      → Session (suc n) (query q r ∷ h)
  reading :
      {n : ℕ} {h : History F} {q : Query F} {r : ℤ}
      → eqb_ℤ r (pos 0) ≡ true
      → Session (suc n) (query q r ∷ h)
      → Session (suc n) (free_result ∷ use_result ∷ query q r ∷ h)
  closing : {n : ℕ} {h : History F} → Session (suc n) h → Session n (close ∷ h)

-- In such an order every handle has been closed, but for those that are open and those that were
-- refused a connection.
pub Session-Outstanding : {F : Type 0} {n : ℕ} {h : History F} → Session n h → Outstanding n h
Session-Outstanding no_call = omega arith
Session-Outstanding (refusal s) = omega (arith, Session-Outstanding s)
Session-Outstanding (opening s) = omega (arith, Session-Outstanding s)
Session-Outstanding (asking s) = omega (arith, Session-Outstanding s)
Session-Outstanding (reading e s) = omega (arith, Session-Outstanding s)
Session-Outstanding (closing s) = omega (arith, Session-Outstanding s)

-- What the three courses of a connection keep: a refusal, a statement, and a statement whose result
-- is read.
pub record Keeps {F : Type 0} (P : History F → Type 0) : Type 0 where
  pub refused : (h : History F) → P h → P (connect false ∷ init ∷ h)
  pub asked :
      (h : History F) (q : Query F) (r : ℤ) → P h → P (close ∷ query q r ∷ connect true ∷ init ∷ h)
  pub answered :
      (h : History F) (q : Query F) (r : ℤ)
      → eqb_ℤ r (pos 0) ≡ true
      → P h
      → P (close ∷ free_result ∷ use_result ∷ query q r ∷ connect true ∷ init ∷ h)

pub Outstanding-Keeps : {F : Type 0} (n : ℕ) → Keeps {F = F} (Outstanding n)
Outstanding-Keeps n = record {
  refused = λ h o. omega (arith, o);
  asked = λ h q r o. omega (arith, o);
  answered = λ h q r e o. omega (arith, o);
}

pub Session-Keeps : {F : Type 0} (n : ℕ) → Keeps {F = F} (Session n)
Session-Keeps n = record {
  refused = λ h s. refusal s;
  asked = λ h q r s. closing (asking (opening s));
  answered = λ h q r e s. closing (reading e (asking (opening s)));
}

module _ {F : Type 0} (m : Mysql F) where
  pub statement-Keeps :
      (P : History F → Type 0) (q : Query F) (h : History F) → Keeps P → P h → P (statement m q h).1
  unfolding statement
  statement-Keeps P q h k p = elim (Bool-cases (m.connects (init ∷ h))) [
    | inl ok ↦ rw ok (k.asked h q _ p)
    | inr off ↦ rw off (k.refused h p)
  ]

  pub freeup_all-Keeps :
      (P : History F → Type 0) (now now' : ℤ) (interval : ℕ) (h : History F)
      → Keeps P
      → P h
      → P (freeup_all m now now' interval h).1
  unfolding freeup_all freeup_ps freeup_sys_info
  freeup_all-Keeps P now now' interval h k p = statement-Keeps P _ _ k (statement-Keeps P _ h k p)

  -- `init_stat_data` holds a connection of its own while it deletes.
  pub init_stat_data-Session :
      (now now' : ℤ) (n : ℕ) (h : History F)
      → Session n h
      → Session n (init_stat_data m now now' h).1
  unfolding init_stat_data create_conn
  init_stat_data-Session now now' n h s = elim (Bool-cases (m.connects (init ∷ h))) [
    | inl ok ↦ rw ok (
        closing (
          freeup_all-Keeps (Session (suc n)) now now' 0 (connect true ∷ init ∷ h)
            (Session-Keeps (suc n)) (opening s)))
    | inr off ↦ rw off (refusal s)
  ]
