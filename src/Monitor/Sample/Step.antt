-- ===== src/Monitor/Sample/Step.antt =====
-- ptop.c, write_stat: the walk as a relation. What one node adds to the globals depends on its two
-- samples only; a tree is the node, then the left and the right subtree.
use ptop.Prelude.{
  ℕ, ◌≡◌, refl, Bool, true, false, ◌&&◌, Option, none, some, ◌++◌, leb, if◌then◌else◌, Bool-cases,
  inl, inr, IfReturns, IfReturns-bind, IfReturns-if, IfReturns-any,
}
use ptop.Prelude.Int.{ℤ, pos, ltb_ℤ}
use ptop.Floats.{Floats}
use ptop.Records.{PidStats, ProcessInfo}
use ptop.AvlTree.{AvlNode, AvlTree, null, node, clear_position}
use ptop.Database.{Mysql, insert_ps}
use ptop.Monitor.Activity.{is_active}
use ptop.Monitor.Ranking.{show_num, add_higher_process_info}
use ptop.Monitor.Sample.{
  Globals, rank_process, is_shown, write_active, write_samples, store_sample, write_pair,
  write_node, write_nodes, write_stat, process_record, clamp_times, add_disk,
}

-- The current and the previous one of two samples.
abbrev pub current_of : {A : Type 0} → Bool → A → A → A
current_of curr s0 s1 = if curr then s1 else s0

abbrev pub previous_of : {A : Type 0} → Bool → A → A → A
previous_of curr s0 s1 = if curr then s0 else s1

-- Whether a process is written for, from the current and the previous sample.
abbrev pub was_active : PidStats → PidStats → Bool
was_active psti pstj = ltb_ℤ (pos 0) (is_active pstj (some psti))

module _ (fl : Floats) where
  open fl use {Single}

  module _ (m : Mysql Single) (hz tlmkb : ℕ) (screen curr : Bool) (time : ℤ) (itv : ℕ) where
    -- The row for a process, from its current and its previous sample.
    abbrev pub row_for : PidStats → PidStats → ProcessInfo Single
    row_for psti pstj = process_record fl hz tlmkb time itv (clamp_times psti pstj) pstj

    -- From globals to globals: the row is inserted, its disk traffic added, no descriptor is closed.
    pub record Inserts (psti pstj : PidStats) (g g' : Globals Single) : Type 0 where
      pub closed : g'.closed ≡ g.closed
      pub history : g'.history ≡ (insert_ps m (row_for psti pstj) g.history).1
      pub sys : g'.sys ≡ add_disk fl psti pstj g.sys

    -- One node: it has no samples, or its process was idle, or its process was active.
    pub data NodeStep (p : AvlNode) (g : Globals Single) (p' : AvlNode) (g' : Globals Single)
        : Type 0 where
      passed : p.pst_list0 ≡ none → p' ≡ p → g' ≡ g → NodeStep p g p' g'
      idle :
          (s0 s1 : PidStats)
          → p.pst_list0 ≡ some s0
          → p.pst_list1 ≡ some s1
          → was_active (current_of curr s0 s1) (previous_of curr s0 s1) ≡ false
          → p' ≡ (clear_position p).1
          → g' ≡ record g { closed = g.closed ++ (clear_position p).0 }
          → NodeStep p g p' g'
      active :
          (s0 s1 : PidStats)
          → p.pst_list0 ≡ some s0
          → p.pst_list1 ≡ some s1
          → was_active (current_of curr s0 s1) (previous_of curr s0 s1) ≡ true
          → p'
            ≡ store_sample fl m hz tlmkb screen curr time itv p
                (clamp_times (current_of curr s0 s1) (previous_of curr s0 s1))
          → Inserts (current_of curr s0 s1) (previous_of curr s0 s1) g g'
          → NodeStep p g p' g'

    pub data TreeStep : AvlTree → Globals Single → AvlTree → Globals Single → Type 0 where
      leaf : {g : Globals Single} → TreeStep null g null g
      branch :
          {l r l' r' : AvlTree} {p p' : AvlNode} {h : ℤ} {g g1 g2 g3 : Globals Single}
          → NodeStep p g p' g1
          → TreeStep l g1 l' g2
          → TreeStep r g2 r' g3
          → TreeStep (node l p h r) g (node l' p' h r') g3

    -- The ranking touches the table and its index only.
    abbrev SameButTable : Globals Single → Globals Single → Type 0
    SameButTable g g' = (g'.closed ≡ g.closed) × (g'.history ≡ g.history) × (g'.sys ≡ g.sys)

    rank_process-SameButTable :
        (p : ProcessInfo Single) (g : Globals Single)
        → IfReturns (SameButTable g) (rank_process fl m hz tlmkb screen curr time itv p g)
    unfolding rank_process
    rank_process-SameButTable p g =
        IfReturns-if (SameButTable g) (screen && is_shown fl p) _ _
          (IfReturns-bind (λ _. Unit) _
            (add_higher_process_info fl p (if leb show_num g.idx then show_num else g.idx)
              g.pst_list)
            _ (IfReturns-any _) λ table _. (refl, refl, refl))
          (refl, refl, refl)

    -- What is stored back, and what the globals become.
    abbrev Active : PidStats → PidStats → Globals Single → PidStats × Globals Single → Type 0
    Active psti pstj g (s, g') = (s ≡ clamp_times psti pstj) × Inserts psti pstj g g'

    write_active-Active :
        (psti pstj : PidStats) (g : Globals Single)
        → IfReturns
            (Active psti pstj g)
            (write_active fl m hz tlmkb screen curr time itv psti pstj g)
    unfolding write_active
    write_active-Active psti pstj g =
        let g1 : Globals Single = record g { sys = add_disk fl psti pstj g.sys } in
        IfReturns-bind (SameButTable g1) _
          (rank_process fl m hz tlmkb screen curr time itv (row_for psti pstj) g1) _
          (rank_process-SameButTable (row_for psti pstj) g1)
          λ g' e. (refl, record { closed = e.0; history = rw e.1 refl; sys = e.2 })

    -- The step of a node, for what a run leaves.
    abbrev NodeStepped : AvlNode → Globals Single → AvlNode × Globals Single → Type 0
    NodeStepped p g (p', g') = NodeStep p g p' g'

    write_samples-NodeStepped :
        (p : AvlNode) (s0 s1 : PidStats) (g : Globals Single)
        → p.pst_list0 ≡ some s0
        → p.pst_list1 ≡ some s1
        → IfReturns (NodeStepped p g) (
            write_samples fl m hz tlmkb screen curr time itv p
              (current_of curr s0 s1)
              (previous_of curr s0 s1)
              g)
    unfolding write_samples
    write_samples-NodeStepped p s0 s1 g e0 e1 =
        let psti = current_of curr s0 s1 in
        let pstj = previous_of curr s0 s1 in
        elim (Bool-cases (was_active psti pstj)) [
          | inl a ↦ rw a (
              IfReturns-bind (Active psti pstj g) (NodeStepped p g)
                (write_active fl m hz tlmkb screen curr time itv psti pstj g) _
                (write_active-Active psti pstj g) λ r h. active s0 s1 e0 e1 a (rw h.0 refl) h.1)
          | inr a ↦ rw a (idle s0 s1 e0 e1 a refl refl)
        ]

    write_pair-NodeStepped :
        (p : AvlNode) (o0 o1 : Option PidStats) (g : Globals Single)
        → p.pst_list0 ≡ o0
        → p.pst_list1 ≡ o1
        → IfReturns (NodeStepped p g) (write_pair fl m hz tlmkb screen curr time itv p o0 o1 g)
    unfolding write_pair
    write_pair-NodeStepped p none o1 g e0 e1 = passed e0 refl refl
    write_pair-NodeStepped p (some s0) none g e0 e1 = tt
    write_pair-NodeStepped p (some s0) (some s1) g e0 e1 = elim (Bool-cases curr) [
      | inl c ↦ rw c (rw c at (write_samples-NodeStepped p s0 s1 g e0 e1))
      | inr c ↦ rw c (rw c at (write_samples-NodeStepped p s0 s1 g e0 e1))
    ]

    -- The same for a tree.
    abbrev pub TreeStepped : AvlTree → Globals Single → AvlTree × Globals Single → Type 0
    TreeStepped t g (t', g') = TreeStep t g t' g'

    write_nodes-TreeStepped :
        (t : AvlTree) (g : Globals Single)
        → IfReturns (TreeStepped t g) (write_nodes fl m hz tlmkb screen curr time itv t g)
    unfolding write_nodes write_node
    write_nodes-TreeStepped null g = leaf
    write_nodes-TreeStepped (node l p h r) g =
        IfReturns-bind (NodeStepped p g) _ (write_node fl m hz tlmkb screen curr time itv p g) _
          (write_pair-NodeStepped p p.pst_list0 p.pst_list1 g refl refl)
          λ a na.
            IfReturns-bind (TreeStepped l a.1) _
              (write_nodes fl m hz tlmkb screen curr time itv l a.1) _
              (write_nodes-TreeStepped l a.1)
              λ b tb.
                IfReturns-bind (TreeStepped r b.1) _
                  (write_nodes fl m hz tlmkb screen curr time itv r b.1) _
                  (write_nodes-TreeStepped r b.1) λ d td. branch na tb td

    pub write_stat-TreeStepped :
        (t : AvlTree) (g : Globals Single)
        → IfReturns (TreeStepped t g) (write_stat fl m hz tlmkb screen curr time itv t g)
    unfolding write_stat
    write_stat-TreeStepped null g = tt
    write_stat-TreeStepped (node l p h r) g = write_nodes-TreeStepped (node l p h r) g
