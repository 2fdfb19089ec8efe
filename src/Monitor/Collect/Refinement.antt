-- ===== src/Monitor/Collect/Refinement.antt =====
-- ptop.c, read_process_stats: over a tree with the invariant the pass over /proc does what it would
-- do over a map from pids to nodes.
use ptop.Prelude.{
  ℕ, ◌≡◌, refl, ◌∙◌, Bool, true, false, Option, none, some, List, [], ◌∷◌, arith, if◌then◌else◌,
  Bool-cases, inl, inr, ◌>>=◌, Returns,
}
use ptop.Prelude.Int.{ℤ, negsuc, eqb_ℤ, int_of_u32}
use ptop.Common.{u32_of_int}
use ptop.Files.{Text, Libc, Run, goes_on, exits, OnRun, is_digit}
use ptop.MStats.{StatSmaps}
use ptop.Perf.{Kernel}
use ptop.PidStats.{ProcFiles}
use ptop.AvlTree.{AvlNode, AvlTree, find, store_node, fresh}
use ptop.AvlTree.Lookup.{found_after}
use ptop.AvlTree.Contract.{IsAvl, insert-refines, find-insert}
use ptop.PidStats.Outcome.{kept_fd}
use ptop.AvlTree.Nodes.{AllNodes-add, find-AllNodes}
use ptop.AvlTree.Shape.{HasSamples, IsAllocated, fresh-HasSamples, find-element}
use ptop.Monitor.Collect.{then_run, sample_node, ensure, read_process, read_entries}
use ptop.AvlTree.Storing.{find-store_node}
use ptop.Monitor.Collect.Nodes.{sample_node-Sampled}
use ptop.Monitor.Collect.Pass.{read_process-Kept}

-- The abstract view of the tree.
abbrev pub NodeMap : Type 0
NodeMap = ℤ → Option AvlNode

abbrev pub put_node : ℤ → AvlNode → NodeMap → NodeMap
put_node x q f = λ y. if eqb_ℤ y x then some q else f y

-- The node of a process, a new one without a counter if there is none.
abbrev pub node_or_fresh : ℤ → Option AvlNode → AvlNode
node_or_fresh x (some p) = p
node_or_fresh x none = fresh x (negsuc 0)

-- A run over a tree and one over a map: both fault, both end with one status, or both go on and have
-- the same nodes.
abbrev pub Agrees : Option (Run AvlTree) → Option (Run NodeMap) → Type 0
Agrees none none = Unit
Agrees (some (exits n)) (some (exits m)) = n ≡ m
Agrees (some (goes_on t)) (some (goes_on f)) = (y : ℤ) → find y t ≡ f y
Agrees _ _ = ⊥

Agrees-bind :
    (P : AvlTree → Type 0) (m : Option (Run AvlTree)) (n : Option (Run NodeMap))
    (s : AvlTree → Option (Run AvlTree)) (a : NodeMap → Option (Run NodeMap))
    → Agrees m n
    → Returns (OnRun P) m
    → ((t : AvlTree) (f : NodeMap) → P t → ((y : ℤ) → find y t ≡ f y) → Agrees (s t) (a f))
    → Agrees (m >>= λ r. then_run r s) (n >>= λ r. then_run r a)
Agrees-bind P none none s a h p k = tt
Agrees-bind P none (some (exits i)) s a h p k = absurd h
Agrees-bind P none (some (goes_on f)) s a h p k = absurd h
Agrees-bind P (some (exits i)) none s a h p k = absurd h
Agrees-bind P (some (exits i)) (some (exits j)) s a h p k = h
Agrees-bind P (some (exits i)) (some (goes_on f)) s a h p k = absurd h
Agrees-bind P (some (goes_on t)) none s a h p k = absurd h
Agrees-bind P (some (goes_on t)) (some (exits j)) s a h p k = absurd h
Agrees-bind P (some (goes_on t)) (some (goes_on f)) s a h p k = k t f p h

put_node-same :
    (x y : ℤ) (q : AvlNode) (a b : Option AvlNode)
    → (eqb_ℤ y x ≡ false → a ≡ b)
    → (if eqb_ℤ y x then some q else a) ≡ (if eqb_ℤ y x then some q else b)
put_node-same x y q a b h = elim (Bool-cases (eqb_ℤ y x)) [
  | inl same ↦ rw same refl
  | inr other ↦ rw other (h other)
]

found_after-new :
    (x fd : ℤ) (o : Option AvlNode) → o ≡ none → found_after x x fd o ≡ some (fresh x fd)
found_after-new x fd none e = let same : eqb_ℤ x x ≡ true = ground arith in rw same refl
found_after-new x fd (some p) e = cc

found_after-other : (x fd y : ℤ) (o : Option AvlNode) → eqb_ℤ y x ≡ false → found_after y x fd o ≡ o
found_after-other x fd y none e = rw e refl
found_after-other x fd y (some p) e = refl

-- The node is sampled and stored.
stored :
    (x : ℤ) (p : AvlNode) (u : AvlTree) (f : NodeMap) (m : Option (Run AvlNode))
    → find x u ≡ some p
    → ((y : ℤ) → eqb_ℤ y x ≡ false → find y u ≡ f y)
    → Returns (OnRun (λ q. q.element ≡ p.element)) m
    → Agrees
        (m >>= λ r. then_run r λ q. some (goes_on (store_node x q u)))
        (m >>= λ r. then_run r λ q. some (goes_on (put_node x q f)))
stored x p u f none e g s = tt
stored x p u f (some (exits n)) e g s = refl
stored x p u f (some (goes_on q)) e g s = λ y.
    find-store_node x y q p u (s ∙ find-element x u p e) e
    ∙ put_node-same x y q (find y u) (f y) (g y)

element-sampled :
    (P Q : AvlNode → Type 0) (p : AvlNode) (m : Option (Run AvlNode))
    → Returns (OnRun (λ q. (q.element ≡ p.element) × P q × Q q)) m
    → Returns (OnRun (λ q. q.element ≡ p.element)) m
element-sampled P Q p none s = s
element-sampled P Q p (some (exits n)) s = tt
element-sampled P Q p (some (goes_on q)) s = s.0

module _ (c : Libc) (k : Kernel) (scanned : StatSmaps) (garbage page_shift : ℕ) (curr : Bool) where
  -- One process, and the whole pass, over a map.
  abbrev pub sample_process : ℕ → ProcFiles → NodeMap → Option (Run NodeMap)
  sample_process pid files f =
      sample_node c k scanned garbage page_shift curr pid files
        (node_or_fresh (int_of_u32 pid) (f (int_of_u32 pid)))
      >>= λ r. then_run r λ q. some (goes_on (put_node (int_of_u32 pid) q f))

  abbrev pub sample_entries : List (Text × ProcFiles) → NodeMap → Option (Run NodeMap)
  sample_entries [] f = some (goes_on f)
  sample_entries (([], files) ∷ entries) f = sample_entries entries f
  sample_entries ((d ∷ ds, files) ∷ entries) f =
      if is_digit d
      then (sample_process (u32_of_int (c.atoi (d ∷ ds))) files f >>= λ r.
          then_run r λ f'. sample_entries entries f')
      else sample_entries entries f

  found-Agrees :
      (pid : ℕ) (files : ProcFiles) (p : AvlNode) (u : AvlTree) (f : NodeMap)
      → IsAllocated u
      → find (int_of_u32 pid) u ≡ some p
      → ((y : ℤ) → eqb_ℤ y (int_of_u32 pid) ≡ false → find y u ≡ f y)
      → Agrees
          (sample_node c k scanned garbage page_shift curr pid files p >>= λ r.
            then_run r λ q. some (goes_on (store_node (int_of_u32 pid) q u)))
          (sample_node c k scanned garbage page_shift curr pid files p >>= λ r.
            then_run r λ q. some (goes_on (put_node (int_of_u32 pid) q f)))
  found-Agrees pid files p u f a e g =
      stored (int_of_u32 pid) p u f (sample_node c k scanned garbage page_shift curr pid files p) e
        g
        (element-sampled HasSamples (λ q. q.fd ≡ kept_fd p.fd q.fd) p _
          (sample_node-Sampled c k scanned garbage page_shift curr pid files p
            (find-AllNodes HasSamples (int_of_u32 pid) u p a e)))

  ensured-Agrees :
      (pid : ℕ) (files : ProcFiles) (t : AvlTree) (f : NodeMap) (o : Option AvlNode)
      → IsAvl t
      → IsAllocated t
      → find (int_of_u32 pid) t ≡ o
      → ((y : ℤ) → find y t ≡ f y)
      → Agrees
          (ensure c k scanned garbage page_shift curr (int_of_u32 pid) t o >>= λ u.
            find (int_of_u32 pid) u >>= λ p.
            sample_node c k scanned garbage page_shift curr pid files p >>= λ r.
            then_run r λ q. some (goes_on (store_node (int_of_u32 pid) q u)))
          (sample_node c k scanned garbage page_shift curr pid files
              (node_or_fresh (int_of_u32 pid) o)
            >>= λ r. then_run r λ q. some (goes_on (put_node (int_of_u32 pid) q f)))
  unfolding ensure
  ensured-Agrees pid files t f (some p) v a e g = rw e (found-Agrees pid files p t f a e λ y _. g y)
  ensured-Agrees pid files t f none v a e g =
      let x = int_of_u32 pid in
      let (t', i, w, s) = insert-refines x (negsuc 0) t v in
      let here : find x t' ≡ some (fresh x (negsuc 0)) =
        find-insert x (negsuc 0) x t t' v i ∙ found_after-new x (negsuc 0) (find x t) e in
      rw (i, here)
        (found-Agrees pid files (fresh x (negsuc 0)) t' f
          (AllNodes-add HasSamples x (negsuc 0) t t' s (fresh-HasSamples x (negsuc 0)) a) here
          λ y other.
            find-insert x (negsuc 0) y t t' v i
            ∙ found_after-other x (negsuc 0) y (find y t) other
            ∙ g y)

  read_process-Agrees :
      (pid : ℕ) (files : ProcFiles) (t : AvlTree) (f : NodeMap)
      → IsAvl t
      → IsAllocated t
      → ((y : ℤ) → find y t ≡ f y)
      → Agrees
          (read_process c k scanned garbage page_shift curr pid files t)
          (sample_process pid files f)
  unfolding read_process
  read_process-Agrees pid files t f v a g =
      rw (← g (int_of_u32 pid)) (ensured-Agrees pid files t f (find (int_of_u32 pid) t) v a refl g)

  read_entries-map :
      (entries : List (Text × ProcFiles)) (t : AvlTree) (f : NodeMap)
      → IsAvl t
      → IsAllocated t
      → ((y : ℤ) → find y t ≡ f y)
      → Agrees
          (read_entries c k scanned garbage page_shift curr entries t)
          (sample_entries entries f)
  unfolding read_entries
  read_entries-map [] t f v a g = g
  read_entries-map (([], files) ∷ entries) t f v a g = read_entries-map entries t f v a g
  read_entries-map ((d ∷ ds, files) ∷ entries) t f v a g =
      let pid = u32_of_int (c.atoi (d ∷ ds)) in
      elim (Bool-cases (is_digit d)) [
        | inr other ↦ rw other (read_entries-map entries t f v a g)
        | inl digit ↦ rw digit (
            Agrees-bind _ (read_process c k scanned garbage page_shift curr pid files t)
              (sample_process pid files f) _ _ (read_process-Agrees pid files t f v a g)
              (read_process-Kept c k scanned garbage page_shift curr pid files t v a)
              λ u f' kept same. read_entries-map entries u f' kept.0.avl kept.0.allocated same)
      ]

  -- Over a tree with the invariant, of whose nodes both samples are allocated, the pass over the
  -- entries of /proc and the same pass over a map agree: both fault, both end the program with one
  -- status, or both go on, and then `find` gives for every pid the node that the map has.
  pub read_entries-Agrees :
      (entries : List (Text × ProcFiles)) (t : AvlTree)
      → IsAvl t
      → IsAllocated t
      → Agrees
          (read_entries c k scanned garbage page_shift curr entries t)
          (sample_entries entries (λ y. find y t))
  read_entries-Agrees entries t v a = read_entries-map entries t (λ y. find y t) v a λ y. refl
