-- ===== src/Monitor/Collect/Pass.antt =====
-- ptop.c, read_process_stats: the pass over /proc never faults, keeps the tree's invariants, and
-- leaves a node for each process that it met.
use ptop.Prelude.{
  if◌then◌else◌, ℕ, ◌≡◌, refl, ◌∙◌, Bool, true, Option, none, some, List, [], ◌∷◌, arith,
  Bool-cases, inl, inr, Returns, Returns-bind, Returns-imp,
}
use ptop.Prelude.Int.{ℤ, negsuc, int_of_u32, eqb_ℤ}
use ptop.Common.{u32_of_int}
use ptop.Files.{Text, File, Libc, OnRun, is_digit}
use ptop.Records.{SysInfo}
use ptop.MStats.{StatSmaps}
use ptop.Perf.{Kernel}
use ptop.PidStats.{ProcFiles}
use ptop.PidStats.Outcome.{kept_fd, kept_fd_same}
use ptop.CpuStats.{read_stat_cpu}
use ptop.AvlTree.{AvlNode, AvlTree, find, insert, store_node, fresh}
use ptop.AvlTree.Lookup.{found_after}
use ptop.AvlTree.Contract.{IsAvl, insert-refines, find-insert}
use ptop.AvlTree.Nodes.{AllNodes-add, find-AllNodes, store_node-AllNodes}
use ptop.AvlTree.Shape.{
  HasSamples, IsAllocated, IsMember, IsAvl-SameShape, fresh-HasSamples, find-element,
  store_node-SameShape, IsMember-SameShape,
}
use ptop.Monitor.Collect.{sample_node, ensure, read_process, read_entries, read_process_stats}
use ptop.AvlTree.Storing.{find-store_node}
use ptop.Monitor.Collect.Counter.{fd_of, kept_fd_trans, found_after_kept, stored_kept}
use ptop.Monitor.Collect.Nodes.{OnRun-imp, OnRun-any, then_run-OnRun, Sampled, sample_node-Sampled}

module _ (c : Libc) (k : Kernel) (scanned : StatSmaps) (garbage page_shift : ℕ) where
  module _ (curr : Bool) where
    -- From t to t': the invariant, both samples of every node, every key that t has, and every open
    -- descriptor that a node of t holds.
    pub record Kept (t t' : AvlTree) : Type 0 where
      pub avl : IsAvl t'
      pub allocated : IsAllocated t'
      pub members : (y : ℤ) → IsMember y t → IsMember y t'
      pub counters : (y : ℤ) → fd_of (find y t') ≡ kept_fd (fd_of (find y t)) (fd_of (find y t'))

    Kept-refl : (t : AvlTree) → IsAvl t → IsAllocated t → Kept t t
    Kept-refl t v a = record {
      avl = v;
      allocated = a;
      members = λ y m. m;
      counters = λ y. kept_fd_same (fd_of (find y t));
    }

    Kept-trans : (t u w : AvlTree) → Kept t u → Kept u w → Kept t w
    Kept-trans t u w h j = record {
      avl = j.avl;
      allocated = j.allocated;
      members = λ y m. j.members y (h.members y m);
      counters = λ y.
          kept_fd_trans (fd_of (find y t)) (fd_of (find y u)) (fd_of (find y w)) (h.counters y)
            (j.counters y);
    }

    eqb_ℤ-refl : (x : ℤ) → eqb_ℤ x x ≡ true
    eqb_ℤ-refl x = ground arith

    insert-Kept :
        (x fd : ℤ) (t : AvlTree)
        → IsAvl t
        → IsAllocated t
        → find x t ≡ none
        → Returns (λ t'. Kept t t' × IsMember x t') (insert x fd t)
    insert-Kept x fd t v a e =
        let (t', i, w, s) = insert-refines x fd t v in
        let found : (y : ℤ) → find y t' ≡ found_after y x fd (find y t) =
          λ y. find-insert x fd y t t' v i in
        rw i (
          record {
            avl = w;
            allocated = AllNodes-add HasSamples x fd t t' s (fresh-HasSamples x fd) a;
            members = λ y m. (m.0, rw (found y, m.1) refl);
            counters = λ y. rw (found y) (found_after_kept y x fd (find y t));
          },
          (fresh x fd, rw (found x, e, eqb_ℤ-refl x) refl),
        )

    ensure-Kept :
        (x : ℤ) (t : AvlTree) (o : Option AvlNode)
        → IsAvl t
        → IsAllocated t
        → find x t ≡ o
        → Returns
            (λ t'. Kept t t' × IsMember x t')
            (ensure c k scanned garbage page_shift curr x t o)
    unfolding ensure
    ensure-Kept x t none v a e = insert-Kept x (negsuc 0) t v a e
    ensure-Kept x t (some p) v a e = (Kept-refl t v a, (p, e))

    store_node-Kept :
        (x : ℤ) (q p : AvlNode) (t : AvlTree)
        → IsAvl t
        → IsAllocated t
        → HasSamples q
        → q.element ≡ x
        → find x t ≡ some p
        → q.fd ≡ kept_fd p.fd q.fd
        → Kept t (store_node x q t)
    store_node-Kept x q p t v a h e f d =
        let same = store_node-SameShape x q t e in
        record {
          avl = IsAvl-SameShape t (store_node x q t) same v;
          allocated = store_node-AllNodes HasSamples x q t h a;
          members = λ y m. IsMember-SameShape y t (store_node x q t) same m;
          counters = λ y. rw (find-store_node x y q p t e f) (stored_kept x y q p t f d);
        }

    pub read_process-Kept :
        (pid : ℕ) (files : ProcFiles) (t : AvlTree)
        → IsAvl t
        → IsAllocated t
        → Returns
            (OnRun (λ t'. Kept t t' × IsMember (int_of_u32 pid) t'))
            (read_process c k scanned garbage page_shift curr pid files t)
    unfolding read_process
    read_process-Kept pid files t v a =
        let x = int_of_u32 pid in
        Returns-bind (λ t'. Kept t t' × IsMember x t') _
          (ensure c k scanned garbage page_shift curr x t (find x t)) _
          (ensure-Kept x t (find x t) v a refl)
          λ u h.
            let (p, e) = h.1 in
            rw e (
              Returns-bind (OnRun (Sampled c k scanned garbage page_shift curr p)) _
                (sample_node c k scanned garbage page_shift curr pid files p) _
                (sample_node-Sampled c k scanned garbage page_shift curr pid files p
                  (find-AllNodes HasSamples x u p h.0.allocated e))
                λ r j. then_run-OnRun (Sampled c k scanned garbage page_shift curr p) _ r _ j λ q s.
                  let key = s.0 ∙ find-element x u p e in
                  let w = store_node-Kept x q p u h.0.avl h.0.allocated s.1 key e s.2 in
                  (Kept-trans t u (store_node x q u) h.0 w, w.members x h.1))

    -- The keys of the processes that an enumeration of /proc lists.
    abbrev pub AllPresent : List (Text × ProcFiles) → AvlTree → Type 0
    AllPresent [] t = Unit
    AllPresent (([], files) ∷ entries) t = AllPresent entries t
    AllPresent ((d ∷ ds, files) ∷ entries) t =
        (if is_digit d then IsMember (int_of_u32 (u32_of_int (c.atoi (d ∷ ds)))) t else Unit)
        × AllPresent entries t

    pub read_entries-Kept :
        (entries : List (Text × ProcFiles)) (t : AvlTree)
        → IsAvl t
        → IsAllocated t
        → Returns
            (OnRun (λ t'. Kept t t' × AllPresent entries t'))
            (read_entries c k scanned garbage page_shift curr entries t)
    unfolding read_entries
    read_entries-Kept [] t v a = (Kept-refl t v a, tt)
    read_entries-Kept (([], files) ∷ entries) t v a = read_entries-Kept entries t v a
    read_entries-Kept ((d ∷ ds, files) ∷ entries) t v a = elim (Bool-cases (is_digit d)) [
      | inr other ↦ rw other (
          Returns-imp (OnRun (λ t'. Kept t t' × AllPresent entries t')) (OnRun _) _
            (λ r. OnRun-imp (λ t'. Kept t t' × AllPresent entries t') _ r λ t' h. (h.0, (tt, h.1)))
            (read_entries-Kept entries t v a))
      | inl digit ↦ rw digit (
          Returns-bind
            (OnRun (λ t'. Kept t t' × IsMember (int_of_u32 (u32_of_int (c.atoi (d ∷ ds)))) t')) _
            (read_process c k scanned garbage page_shift curr (u32_of_int (c.atoi (d ∷ ds))) files
              t)
            _ (read_process-Kept (u32_of_int (c.atoi (d ∷ ds))) files t v a)
            λ r h. then_run-OnRun _ _ r _ h λ u j.
              Returns-imp (OnRun (λ t'. Kept u t' × AllPresent entries t')) (OnRun _) _
                (λ r.
                  OnRun-imp (λ t'. Kept u t' × AllPresent entries t') _ r
                    λ w g. (Kept-trans t u w j.0 g.0, (g.0.members _ j.1, g.1)))
                (read_entries-Kept entries u j.0.avl j.0.allocated))
    ]

    -- In a tree with the invariant, of whose nodes both samples are allocated, whatever the files
    -- of the processes hold, the pass over /proc never reads through a null pointer. If no file
    -- ends the program, the tree has the invariant again, both samples of every node are allocated,
    -- no process has lost its node or the open descriptor in it, and each entry of /proc that
    -- begins with a digit has a node.
    pub read_process_stats-Kept :
        {F : Type 0} (stat : File) (entries : List (Text × ProcFiles)) (sys : SysInfo F)
        (t : AvlTree)
        → IsAvl t
        → IsAllocated t
        → Returns
            (OnRun (λ r. Kept t r.1 × AllPresent entries r.1))
            (read_process_stats c k scanned garbage page_shift curr stat (some entries) sys t)
    unfolding read_process_stats
    read_process_stats-Kept {F} stat entries sys t v a =
        then_run-OnRun (λ _. Unit) _ (read_stat_cpu c stat sys) _ (OnRun-any _)
          λ sys' _.
            Returns-bind (OnRun (λ t'. Kept t t' × AllPresent entries t')) _
              (read_entries c k scanned garbage page_shift curr entries t) _
              (read_entries-Kept entries t v a) λ r h. then_run-OnRun _ _ r _ h λ t' j. j
