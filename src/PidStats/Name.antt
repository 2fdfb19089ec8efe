-- ===== src/PidStats/Name.antt =====
-- pid_stats.c, read_proc_pid_stat: the name of a process as it is stored.
use ptop.Prelude.{
  ℕ, zero, suc, ◌+◌, ◌≤◌, ◌<◌, ◌≡◌, refl, ap, List, [], ◌∷◌, ◌++◌, arith, length, take,
}
use ptop.Files.{Text}
use ptop.PidStats.{max_comm_len, cut_paren, stored_comm}

cut_paren-append : (name : Text) → cut_paren (name ++ (b')' ∷ [])) ≡ name
unfolding cut_paren
cut_paren-append [] = refl
cut_paren-append (c ∷ []) = refl
cut_paren-append (c ∷ d ∷ cs) = ap (λ r. c ∷ r) (cut_paren-append (d ∷ cs))

take-short {ℓ} : {A : Type ℓ} (n : ℕ) (xs : List A) → length xs ≤ n → take n xs ≡ xs
take-short zero [] h = refl
take-short zero (x ∷ xs) h = absurd (omega arith)
take-short (suc n) [] h = refl
take-short (suc n) (x ∷ xs) h = ap (λ r. x ∷ r) (take-short n xs (omega arith))

-- If the word that `%16s` scans is a name of fourteen bytes or fewer with the ')' that stands
-- behind it in the file, which holds of a name without a blank, then the name is stored as it is:
-- the ')' is cut off, and nothing else.
pub stored_comm_short : (name : Text) → length name < 15 → stored_comm (name ++ (b')' ∷ [])) ≡ name
unfolding stored_comm
stored_comm_short name h =
    rw (take-short 15 (name ++ (b')' ∷ [])) (omega (arith, length_snoc name (b')'))))
      (cut_paren-append name)
  where
    length_snoc : (xs : Text) (x : ℕ) → length (xs ++ (x ∷ [])) ≡ length xs + 1
    length_snoc [] x = omega arith
    length_snoc (y ∷ xs) x = omega (arith, length_snoc xs x)

length-cut_paren : (name : Text) → length (cut_paren name) ≤ length name
unfolding cut_paren
length-cut_paren [] = omega arith
length-cut_paren (c ∷ []) = ground arith
length-cut_paren (c ∷ d ∷ cs) = omega (arith, length-cut_paren (d ∷ cs))

length-take : (n : ℕ) (xs : Text) → length (take n xs) ≤ n
length-take zero xs = omega arith
length-take (suc n) [] = omega arith
length-take (suc n) (x ∷ xs) = omega (arith, length-take n xs)

-- Whatever is scanned, the stored name and its final zero fit the sixteen bytes of the field.
pub length-stored_comm : (comm : Text) → length (stored_comm comm) < max_comm_len
unfolding stored_comm
length-stored_comm comm = omega (arith, length-cut_paren (take 15 comm), length-take 15 comm)
