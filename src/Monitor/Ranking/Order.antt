-- ===== src/Monitor/Ranking/Order.antt =====
-- ptop.c, add_higher_process_info: the table stays sorted while it has room, and a full table is
-- never changed.
use mathlib.Core.List.{Perm}
use mathlib.Core.List.Perm
use ptop.Prelude.{
  ℕ, suc, ◌+◌, ◌<◌, ◌≡◌, refl, true, false, Option, some, List, [], ◌∷◌, arith, ◌==◌, leb,
  get_elem?, set, length, if◌then◌else◌, ◌>>=◌, Bool-cases, inl, inr,
}
use ptop.Floats.{Floats}
use ptop.Records.{ProcessInfo}
use ptop.Monitor.Ranking.{show_num, shift, add_higher_process_info}

-- A table seen from an index: the entries before it, the last first, and those from it on.
abbrev pub rev_append {ℓ} : {A : Type ℓ} → List A → List A → List A
rev_append [] ys = ys
rev_append (x ∷ xs) ys = rev_append xs (x ∷ ys)

get_elem?-rev_append {ℓ} :
    {A : Type ℓ} (xs zs : List A) (k : ℕ)
    → get_elem? (rev_append xs zs) (length xs + k) ≡ get_elem? zs k
get_elem?-rev_append [] zs k = let e : 0 + k ≡ k = omega arith in rw e
get_elem?-rev_append (x ∷ xs) zs k =
    let e : suc (length xs) + k ≡ length xs + suc k = omega arith in
    rw e (get_elem?-rev_append xs (x ∷ zs) (suc k))

set-rev_append {ℓ} :
    {A : Type ℓ} (xs zs : List A) (k : ℕ) (v : A)
    → set (rev_append xs zs) (length xs + k) v ≡ rev_append xs (set zs k v)
set-rev_append [] zs k v = let e : 0 + k ≡ k = omega arith in rw e
set-rev_append (x ∷ xs) zs k v =
    let e : suc (length xs) + k ≡ length xs + suc k = omega arith in
    rw e (set-rev_append xs (x ∷ zs) (suc k) v)

read_here {ℓ} :
    {A : Type ℓ} (xs : List A) (y : A) (zs : List A)
    → get_elem? (rev_append xs (y ∷ zs)) (length xs) ≡ some y
read_here xs y zs =
    let e : length xs + 0 ≡ length xs = omega arith in rw e at (get_elem?-rev_append xs (y ∷ zs) 0)

module _ (fl : Floats) where
  open fl use {Single, lt}

  -- Insertion into entries listed last first: behind those with a smaller cpu share.
  pub place : ProcessInfo Single → List (ProcessInfo Single) → List (ProcessInfo Single)
  place p [] = p ∷ []
  place p (q ∷ qs) = if lt q.cpu p.cpu then q ∷ place p qs else p ∷ q ∷ qs

  -- Listed last first, no entry has a larger share than the one behind it.
  abbrev pub IsRanked : List (ProcessInfo Single) → Type 0
  IsRanked [] = Unit
  IsRanked (q ∷ []) = Unit
  IsRanked (q ∷ r ∷ qs) = (lt r.cpu q.cpu ≡ false) × IsRanked (r ∷ qs)

  -- The table after the loop and the write behind it, for a table with room.
  finish : ProcessInfo Single → ℕ × List (ProcessInfo Single) → Option (List (ProcessInfo Single))
  finish pi (n, t) = if leb n 39 then some (set t n pi) else some t

  shift-place :
      (p : ProcessInfo Single) (qs : List (ProcessInfo Single)) (y : ProcessInfo Single)
      (zs : List (ProcessInfo Single))
      → length qs < show_num
      → (shift fl p (length qs) (rev_append qs (y ∷ zs)) >>= finish p)
        ≡ some (rev_append (place p qs) zs)
  unfolding shift place finish
  shift-place p [] y zs h = refl
  shift-place p (q ∷ qs) y zs h =
      let here = read_here qs q (y ∷ zs) in
      let room : (length qs == 39) ≡ false = ground arith in
      elim (Bool-cases (lt q.cpu p.cpu)) [
        | inl smaller ↦
            rw (here, smaller, room, set-rev_append qs (q ∷ y ∷ zs) 1 q)
              (shift-place p qs q (q ∷ zs) (omega arith))
        | inr stop ↦
            let fits : leb (suc (length qs)) 39 ≡ true = ground arith in
            let next : suc (length qs) ≡ length qs + 1 = omega arith in
            rw (here, stop, fits, next, set-rev_append qs (q ∷ y ∷ zs) 1 p)
      ]

  -- While the table holds fewer than 40 entries, the new one is placed among them: none is lost, and
  -- the entries behind the place move up by one.
  pub add_higher_process_info-place :
      (p : ProcessInfo Single) (qs : List (ProcessInfo Single)) (y : ProcessInfo Single)
      (zs : List (ProcessInfo Single))
      → length qs < show_num
      → add_higher_process_info fl p (length qs) (rev_append qs (y ∷ zs))
        ≡ some (rev_append (place p qs) zs)
  unfolding add_higher_process_info finish
  add_higher_process_info-place p qs y zs h = shift-place p qs y zs h

  place-perm :
      (p : ProcessInfo Single) (qs : List (ProcessInfo Single)) → Perm (place p qs) (p ∷ qs)
  unfolding place
  place-perm p [] = Perm.refl _
  place-perm p (q ∷ qs) = elim (Bool-cases (lt q.cpu p.cpu)) [
    | inl smaller ↦ rw smaller (Perm.trans (Perm.cons q (place-perm p qs)) (Perm.swap p q qs))
    | inr stop ↦ rw stop (Perm.refl _)
  ]

  pub length-place :
      (p : ProcessInfo Single) (qs : List (ProcessInfo Single))
      → length (place p qs) ≡ suc (length qs)
  unfolding place
  length-place p [] = refl
  length-place p (q ∷ qs) = ground (arith, length-place p qs)

  IsRanked-tail :
      (q : ProcessInfo Single) (qs : List (ProcessInfo Single)) → IsRanked (q ∷ qs) → IsRanked qs
  IsRanked-tail q [] h = tt
  IsRanked-tail q (r ∷ qs) h = h.1

  module _ (lt_asymm : (a b : Single) → lt a b ≡ true → lt b a ≡ false) where
    place-cons-IsRanked :
        (p q : ProcessInfo Single) (qs : List (ProcessInfo Single))
        → lt q.cpu p.cpu ≡ true
        → IsRanked (q ∷ qs)
        → IsRanked (place p qs)
        → IsRanked (q ∷ place p qs)
    unfolding place
    place-cons-IsRanked p q [] less h k = (lt_asymm q.cpu p.cpu less, tt)
    place-cons-IsRanked p q (r ∷ qs) less h k = elim (Bool-cases (lt r.cpu p.cpu)) [
      | inl smaller ↦ rw smaller (h.0, rw smaller at k)
      | inr stop ↦ rw stop (lt_asymm q.cpu p.cpu less, rw stop at k)
    ]

    -- Where `<` on cpu shares is asymmetric, the placing keeps the ranking.
    pub place-IsRanked :
        (p : ProcessInfo Single) (qs : List (ProcessInfo Single))
        → IsRanked qs
        → IsRanked (place p qs)
    unfolding place
    place-IsRanked p [] h = tt
    place-IsRanked p (q ∷ qs) h = elim (Bool-cases (lt q.cpu p.cpu)) [
      | inl smaller ↦
          rw smaller
            (place-cons-IsRanked p q qs smaller h (place-IsRanked p qs (IsRanked-tail q qs h)))
      | inr stop ↦ rw stop (stop, h)
    ]

    -- While the table holds fewer than 40 entries, ranked by cpu share, the new entry is placed
    -- among them: the result is ranked, holds the same entries and the new one, and what stands
    -- behind the first free place is as before. (`<` on shares is taken to be asymmetric.)
    pub add_higher_process_info-IsRanked :
        (p : ProcessInfo Single) (qs : List (ProcessInfo Single)) (y : ProcessInfo Single)
        (zs : List (ProcessInfo Single))
        → length qs < show_num
        → IsRanked qs
        → (ps : List (ProcessInfo Single)) × (add_higher_process_info fl p
              (length qs)
              (rev_append qs (y ∷ zs))
            ≡ some (rev_append ps zs))
          × IsRanked ps
          × Perm ps (p ∷ qs)
    add_higher_process_info-IsRanked p qs y zs h r = (
      place p qs,
      add_higher_process_info-place p qs y zs h,
      place-IsRanked p qs r,
      place-perm p qs,
    )

  -- A table that holds 40 entries, called with that number, does not change, whatever the share of
  -- the new process.
  pub add_higher_process_info_full :
      (p q y : ProcessInfo Single) (qs zs : List (ProcessInfo Single))
      → length (q ∷ qs) ≡ show_num
      → add_higher_process_info fl p (length (q ∷ qs)) (rev_append (q ∷ qs) (y ∷ zs))
        ≡ some (rev_append (q ∷ qs) (y ∷ zs))
  unfolding add_higher_process_info shift
  add_higher_process_info_full p q y qs zs h =
      let last : (length qs == 39) ≡ true = ground arith in
      let beyond : leb (suc (length qs)) 39 ≡ false = ground arith in
      rw (read_here qs q (y ∷ zs), last)
        (elim (Bool-cases (lt q.cpu p.cpu)) [
          | inl smaller ↦ rw (smaller, beyond)
          | inr stop ↦ rw (stop, beyond)
        ])
