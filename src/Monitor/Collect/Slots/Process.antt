-- ===== src/Monitor/Collect/Slots/Process.antt =====
-- ptop.c, read_process_stats: what one entry of /proc does to the nodes.
use ptop.Prelude.{
  ℕ, ◌≡◌, refl, ◌∙◌, Bool, true, false, not, Option, none, some, List, ◌∷◌, arith, ap, some-inj,
  if◌then◌else◌, ◌>>=◌, Bool-cases, inl, inr, IfReturns,
}
use ptop.Prelude.Int.{ℤ, eqb_ℤ, int_of_u32, eq_of_parts}
use ptop.Common.{u32_of_int}
use ptop.Files.{Text, Libc, Run, goes_on, exits, OnRun, is_digit}
use ptop.MStats.{StatSmaps}
use ptop.Perf.{Kernel}
use ptop.PidStats.{ProcFiles}
use ptop.AvlTree.{AvlNode}
use ptop.Monitor.Collect.{then_run, sample_node}
use ptop.Monitor.Collect.Refinement.{NodeMap, put_node, node_or_fresh, sample_process}
use ptop.Monitor.Collect.Slots.{
  slot, slot_of, or_else, last_entry, SampledFrom, Resampled, slot-node_or_fresh, slot-sample_node,
}

module _ (c : Libc) (k : Kernel) (scanned : StatSmaps) (garbage page_shift : ℕ) (curr : Bool) where
  put_node-Resampled :
      (x y : ℤ) (q : AvlNode) (f : NodeMap)
      → slot (not curr) q ≡ slot_of (not curr) (f x)
      → slot_of (not curr) (put_node x q f y) ≡ slot_of (not curr) (f y)
  put_node-Resampled x y q f e = elim (Bool-cases (eqb_ℤ y x)) [
    | inl same ↦ rw (same, eq_of_parts y x (ground arith)) e
    | inr other ↦ rw other refl
  ]

  -- One process: the previous samples, the other nodes, and its own.
  pub record OneSampled (pid : ℕ) (files : ProcFiles) (f f' : NodeMap) : Type 0 where
    pub previous : (y : ℤ) → slot_of (not curr) (f' y) ≡ slot_of (not curr) (f y)
    pub others : (y : ℤ) → eqb_ℤ y (int_of_u32 pid) ≡ false → f' y ≡ f y
    pub own :
        (y : ℤ)
        → eqb_ℤ y (int_of_u32 pid) ≡ true
        → SampledFrom c k scanned garbage page_shift curr pid files (f y) (f' y)

  sampled-OneSampled :
      (pid : ℕ) (files : ProcFiles) (f : NodeMap) (q : AvlNode)
      → (let p = node_or_fresh (int_of_u32 pid) (f (int_of_u32 pid)) in
          slot (not curr) q ≡ slot (not curr) p)
      → (let p = node_or_fresh (int_of_u32 pid) (f (int_of_u32 pid)) in
          sample_node c k scanned garbage page_shift curr pid files p ≡ some (goes_on q))
      → OneSampled pid files f (put_node (int_of_u32 pid) q f)
  sampled-OneSampled pid files f q e h =
      let x = int_of_u32 pid in
      let p = node_or_fresh x (f x) in
      let first = slot-node_or_fresh (not curr) x (f x) in
      record {
        previous = λ y. put_node-Resampled x y q f (e ∙ first);
        others = λ y other. rw other refl;
        own = λ y same.
            let eq : y ≡ x = eq_of_parts y x (ground arith) in
            record { p = p; q = q; before = rw eq first; after = rw same refl; sampled = h };
      }

  pub sample_process-OneSampled :
      (pid : ℕ) (files : ProcFiles) (f : NodeMap)
      → IfReturns
          (OnRun (OneSampled pid files f))
          (sample_process c k scanned garbage page_shift curr pid files f)
  sample_process-OneSampled pid files f =
      let p = node_or_fresh (int_of_u32 pid) (f (int_of_u32 pid)) in
      ran (sample_node c k scanned garbage page_shift curr pid files p) refl
        (slot-sample_node c k scanned garbage page_shift curr pid files p)
    where
      ran :
          (m : Option (Run AvlNode))
          → sample_node c k scanned garbage page_shift curr pid files
              (node_or_fresh (int_of_u32 pid) (f (int_of_u32 pid)))
            ≡ m
          → IfReturns
              (OnRun (λ q.
                slot (not curr) q
                ≡ slot (not curr) (node_or_fresh (int_of_u32 pid) (f (int_of_u32 pid)))))
              m
          → IfReturns
              (OnRun (OneSampled pid files f))
              (m >>= λ r. then_run r λ q. some (goes_on (put_node (int_of_u32 pid) q f)))
      ran none e h = tt
      ran (some (exits n)) e h = tt
      ran (some (goes_on q)) e h = sampled-OneSampled pid files f q h e

  after-SampledFrom :
      (pid : ℕ) (files : ProcFiles) (o o' p p' : Option AvlNode)
      → slot_of (not curr) o' ≡ slot_of (not curr) o
      → p ≡ p'
      → SampledFrom c k scanned garbage page_shift curr pid files o' p'
      → SampledFrom c k scanned garbage page_shift curr pid files o p
  after-SampledFrom pid files o o' p p' e g h = record {
    p = h.p;
    q = h.q;
    before = h.before ∙ e;
    after = g ∙ h.after;
    sampled = h.sampled;
  }

  -- A process, and then the rest of the entries.
  module _ (d : ℕ) (ds : Text) (files : ProcFiles) (entries : List (Text × ProcFiles))
      (f u w : NodeMap) (one : OneSampled (u32_of_int (c.atoi (d ∷ ds))) files f u)
      (v : Resampled c k scanned garbage page_shift curr entries u w) where
    then_unlisted :
        (y : ℤ) (here : Bool) (o : Option (ℕ × ProcFiles))
        → eqb_ℤ y (int_of_u32 (u32_of_int (c.atoi (d ∷ ds)))) ≡ here
        → last_entry c k scanned garbage page_shift curr y entries ≡ o
        → or_else o (if here then some (u32_of_int (c.atoi (d ∷ ds)), files) else none) ≡ none
        → w y ≡ f y
    then_unlisted y here (some a) h l e = cc
    then_unlisted y true none h l e = cc
    then_unlisted y false none h l e = v.unlisted y l ∙ one.others y h

    then_listed :
        (y : ℤ) (here : Bool) (o : Option (ℕ × ProcFiles)) (pid : ℕ) (last : ProcFiles)
        → eqb_ℤ y (int_of_u32 (u32_of_int (c.atoi (d ∷ ds)))) ≡ here
        → last_entry c k scanned garbage page_shift curr y entries ≡ o
        → or_else o (if here then some (u32_of_int (c.atoi (d ∷ ds)), files) else none)
          ≡ some (pid, last)
        → SampledFrom c k scanned garbage page_shift curr pid last (f y) (w y)
    then_listed y here (some a) pid last h l e =
        after-SampledFrom pid last (f y) (u y) (w y) (w y) (one.previous y) refl
          (v.listed y pid last (l ∙ e))
    then_listed y false none pid last h l e = cc
    then_listed y true none pid last h l e =
        let entry : (u32_of_int (c.atoi (d ∷ ds)), files) ≡ (pid, last) = some-inj _ _ e in
        let own = one.own y h in
        rw (← ap (λ a. a.0) entry, ← ap (λ a. a.1) entry)
          (after-SampledFrom _ files (f y) (f y) (w y) (u y) refl (v.unlisted y l) own)

    pub then-Resampled :
        is_digit d ≡ true
        → Resampled c k scanned garbage page_shift curr ((d ∷ ds, files) ∷ entries) f w
    then-Resampled digit = record {
      previous = λ y. v.previous y ∙ one.previous y;
      unlisted = λ y e.
          then_unlisted y _ (last_entry c k scanned garbage page_shift curr y entries) refl refl
            (rw digit at e);
      listed = λ y pid last e.
          then_listed y _ (last_entry c k scanned garbage page_shift curr y entries) pid last refl
            refl (rw digit at e);
    }

  -- An entry that is not a process.
  module _ (d : ℕ) (ds : Text) (files : ProcFiles) (entries : List (Text × ProcFiles))
      (f w : NodeMap) (v : Resampled c k scanned garbage page_shift curr entries f w) where
    or_else-none : {A : Type 0} (o : Option A) → or_else o none ≡ o
    or_else-none none = refl
    or_else-none (some a) = refl

    pub skip-Resampled :
        is_digit d ≡ false
        → Resampled c k scanned garbage page_shift curr ((d ∷ ds, files) ∷ entries) f w
    skip-Resampled other = record {
      previous = v.previous;
      unlisted = λ y e. v.unlisted y (rw (other, or_else-none) at e);
      listed = λ y pid last e. v.listed y pid last (rw (other, or_else-none) at e);
    }
