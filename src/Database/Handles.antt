-- ===== src/Database/Handles.antt =====
-- database.c: the connection handles that are made and closed.
use ptop.Prelude.{ℕ, suc, ◌+◌, ◌≡◌, false, [], ◌∷◌, arith}
use ptop.Records.{ProcessInfo}
use ptop.Database.{History, Mysql, init, connect, close, statement, insert_ps}

module _ {F : Type 0} where
  -- How many handles a call makes, fails to connect, and closes.
  abbrev pub made : History F → ℕ
  made [] = 0
  made (init ∷ h) = suc (made h)
  made (_ ∷ h) = made h

  abbrev pub refused : History F → ℕ
  refused [] = 0
  refused (connect false ∷ h) = suc (refused h)
  refused (_ ∷ h) = refused h

  abbrev pub closed : History F → ℕ
  closed [] = 0
  closed (close ∷ h) = suc (closed h)
  closed (_ ∷ h) = closed h

  -- Beside n, every handle has been closed, but for those that were refused a connection.
  abbrev pub Outstanding : ℕ → History F → Type 0
  Outstanding n h = made h ≡ closed h + refused h + n

  module _ (m : Mysql F) where
    -- An insertion makes one handle.
    pub made-insert_ps :
        (p : ProcessInfo F) (h : History F) → made (insert_ps m p h).1 ≡ suc (made h)
    unfolding insert_ps statement
    made-insert_ps p h = ground arith
