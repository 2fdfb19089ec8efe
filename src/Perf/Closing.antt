-- ===== src/Perf/Closing.antt =====
-- eperf.c, close_all_counters: every descriptor of the array and of the tree is closed.
use ptop.Prelude.{
  ℕ, zero, suc, ◌+◌, ◌≤◌, ◌<◌, ◌≡◌, ◌≢◌, refl, ap, Option, none, some, List, [], ◌∷◌, ◌++◌, arith,
  length, length-set, get_elem?, set, if◌then◌else◌, Bool-cases, inl, inr, Returns, Returns-bind,
  Returns-imp,
}
use ptop.Prelude.Int.{ℤ, pos, negsuc, ltb_ℤ, eqb_ℤ}
use ptop.AvlTree.{AvlTree, empty, close_if_open}
use ptop.AvlTree.Elements.{elements}
use ptop.AvlTree.Closing.{count, holders, count-append, count-close_if_open, count-empty}
use ptop.Perf.Bounds.{in_range}
use ptop.Perf.{Counters, close_counters, close_all_counters}

-- 1 for a place that holds the open descriptor.
abbrev pub one : ℤ → Option ℤ → ℕ
one fd none = 0
one fd (some d) = if ltb_ℤ (pos 0) d then (if eqb_ℤ fd d then 1 else 0) else 0

-- How many of some places of the array, from an index on, hold an open descriptor `fd`.
abbrev pub places_of : ℤ → List ℤ → ℕ → ℕ → ℕ
places_of fd ds i zero = 0
places_of fd ds i (suc n) = one fd (get_elem? ds i) + places_of fd ds (i + 1) n

get_elem?-set :
    {A : Type 0} (xs : List A) (i j : ℕ) (x : A) → i ≢ j → get_elem? (set xs i x) j ≡ get_elem? xs j
get_elem?-set [] i j x h = refl
get_elem?-set (y ∷ ys) zero zero x h = absurd (h refl)
get_elem?-set (y ∷ ys) zero (suc j) x h = refl
get_elem?-set (y ∷ ys) (suc i) zero x h = refl
get_elem?-set (y ∷ ys) (suc i) (suc j) x h = get_elem?-set ys i j x λ e. h (ap suc e)

get_elem?-set_same :
    {A : Type 0} (xs : List A) (i : ℕ) (x : A) → i < length xs → get_elem? (set xs i x) i ≡ some x
get_elem?-set_same [] i x h = absurd (omega (arith, h))
get_elem?-set_same (y ∷ ys) zero x h = refl
get_elem?-set_same (y ∷ ys) (suc i) x h = get_elem?-set_same ys i x (omega (arith, h))

-- A write before the places, or behind them, is not seen.
places_of-set_before :
    (fd : ℤ) (ds : List ℤ) (i n j : ℕ) (d : ℤ)
    → j < i
    → places_of fd (set ds j d) i n ≡ places_of fd ds i n
places_of-set_before fd ds i zero j d h = refl
places_of-set_before fd ds i (suc n) j d h =
    rw (get_elem?-set ds j i d (omega (arith, h)))
      (omega (arith, places_of-set_before fd ds (i + 1) n j d (omega (arith, h))))

places_of-set_behind :
    (fd : ℤ) (ds : List ℤ) (i n j : ℕ) (d : ℤ)
    → i + n ≤ j
    → places_of fd (set ds j d) i n ≡ places_of fd ds i n
places_of-set_behind fd ds i zero j d h = refl
places_of-set_behind fd ds i (suc n) j d h =
    rw (get_elem?-set ds j i d (omega (arith, h)))
      (omega (arith, places_of-set_behind fd ds (i + 1) n j d (omega (arith, h))))

places_of-suc :
    (fd : ℤ) (ds : List ℤ) (i n j : ℕ)
    → j ≡ i + n
    → places_of fd ds i (suc n) ≡ places_of fd ds i n + one fd (get_elem? ds j)
places_of-suc fd ds i zero j e = let here : i ≡ j = omega arith in rw here (omega arith)
places_of-suc fd ds i (suc n) j e =
    omega (arith, places_of-suc fd ds (i + 1) n j (omega (arith, e)))

-- One place after its descriptor is closed.
abbrev closed_place : List ℤ → ℕ → ℤ → List ℤ
closed_place ds i d = if ltb_ℤ (pos 0) d then set ds i (negsuc 0) else ds

module _ (fd : ℤ) where
  places_of-closed_place :
      (ds : List ℤ) (i n : ℕ) (d : ℤ)
      → places_of fd (closed_place ds i d) (i + 1) n ≡ places_of fd ds (i + 1) n
  places_of-closed_place ds i n d =
      ground (arith, places_of-set_before fd ds (i + 1) n i (negsuc 0))

  length-closed_place : (ds : List ℤ) (i : ℕ) (d : ℤ) → length (closed_place ds i d) ≡ length ds
  length-closed_place ds i d = ground (arith, length-set ds i (negsuc 0))

  -- The place itself holds no open descriptor then.
  one-closed_place :
      (ds : List ℤ) (i : ℕ) (d : ℤ)
      → get_elem? ds i ≡ some d
      → i < length ds
      → one fd (get_elem? (closed_place ds i d) i) ≡ 0
  one-closed_place ds i d e h = elim (Bool-cases (ltb_ℤ (pos 0) d)) [
    | inl held ↦ rw (held, get_elem?-set_same ds i (negsuc 0) h) refl
    | inr shut ↦ rw (shut, e, shut) refl
  ]

  places_of-emptied :
      (ds : List ℤ) (i : ℕ) (d : ℤ)
      → get_elem? ds i ≡ some d
      → i < length ds
      → places_of fd ds 0 i ≡ 0
      → places_of fd (closed_place ds i d) 0 (i + 1) ≡ 0
  places_of-emptied ds i d e h z =
      let next : i + 1 ≡ suc i = omega arith in
      rw next (
        omega (
          arith,
          places_of-suc fd (closed_place ds i d) 0 i i (omega arith),
          one-closed_place ds i d e h,
          before,
        ))
    where
      before : places_of fd (closed_place ds i d) 0 i ≡ 0
      before = ground (arith, z, places_of-set_behind fd ds 0 i i (negsuc 0))

  -- What closing leaves: no open descriptor in the first n places, and each closed as often as held.
  abbrev Emptied : ℕ → ℕ → ℕ → List ℤ × List ℤ → Type 0
  Emptied n held size (closed, ds) =
      (count fd closed ≡ held) × (places_of fd ds 0 n ≡ 0) × (length ds ≡ size)

  close_counters-Emptied :
      (n left cpu : ℕ) (closed ds : List ℤ)
      → n ≡ cpu + left
      → n ≤ length ds
      → places_of fd ds 0 cpu ≡ 0
      → Returns
          (Emptied n (count fd closed + places_of fd ds cpu left) (length ds))
          (close_counters left cpu closed ds)
  unfolding close_counters
  close_counters-Emptied n zero cpu closed ds e h z = (omega arith, ground arith, refl)
  close_counters-Emptied n (suc left) cpu closed ds e h z =
      let (d, here) = in_range ds cpu (omega (arith, e, h)) in
      let ds' = closed_place ds cpu d in
      rw here (
        Returns-imp
          (Emptied n (count fd (closed ++ close_if_open d) + places_of fd ds' (cpu + 1) left)
            (length ds'))
          _ (close_counters left (cpu + 1) (closed ++ close_if_open d) ds')
          (λ r s. (
            omega (
              arith,
              s.0,
              count-append fd closed (close_if_open d),
              count-close_if_open fd d,
              places_of-closed_place ds cpu left d,
            ),
            s.1,
            omega (arith, s.2, length-closed_place ds cpu d),
          ))
          (close_counters-Emptied n left (cpu + 1) (closed ++ close_if_open d) ds'
            (omega (arith, e)) (omega (arith, h, length-closed_place ds cpu d))
            (places_of-emptied ds cpu d here (omega (arith, e, h)) z)))

  -- With as many places as processors, or more, `close_all_counters` does not fault. It closes each
  -- open descriptor as often as the places of the processors and the nodes of the tree hold it, and
  -- no other, and those places hold none afterwards.
  pub close_all_counters-closes :
      (t : AvlTree) (c : Counters)
      → c.nr_cpus ≤ length c.fd
      → Returns
          (λ r.
            (count fd r.0 ≡ places_of fd c.fd 0 c.nr_cpus + holders fd (elements t))
            × (places_of fd r.1.fd 0 c.nr_cpus ≡ 0))
          (close_all_counters t c)
  unfolding close_all_counters
  close_all_counters-closes t c h =
      Returns-bind (Emptied c.nr_cpus (count fd [] + places_of fd c.fd 0 c.nr_cpus) (length c.fd)) _
        (close_counters c.nr_cpus 0 [] c.fd) _
        (close_counters-Emptied c.nr_cpus c.nr_cpus 0 [] c.fd (omega arith) h refl)
        λ r s. (omega (arith, s.0, count-append fd r.0 (empty t).0, (count-empty fd t).0), s.1)
