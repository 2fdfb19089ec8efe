-- ===== src/Monitor/Sample/Rows.antt =====
-- ptop.c, write_stat: the rows that the walk leaves in the table of processes.
use ptop.Prelude.{
  ℕ, ◌≡◌, refl, sym, ap, Bool, Option, some, List, [], ◌∷◌, ◌++◌, append_assoc, if◌then◌else◌,
}
use ptop.Prelude.Int.{ℤ}
use ptop.Floats.{Floats}
use ptop.Records.{PidStats, ProcessInfo}
use ptop.AvlTree.{AvlNode, AvlTree, null, node}
use ptop.Database.{Mysql}
use ptop.Database.Retention.{Accepts, info_rows, info_rows-insert_ps}
use ptop.Monitor.Sample.{Globals, process_record, clamp_times}
use ptop.Monitor.Sample.Step.{
  current_of, previous_of, was_active, NodeStep, passed, idle, active, TreeStep, leaf, branch,
}

append-empty {ℓ} : {A : Type ℓ} (xs : List A) → xs ++ [] ≡ xs
append-empty [] = refl
append-empty (x ∷ xs) = ap (λ ys. x ∷ ys) (append-empty xs)

module _ (fl : Floats) where
  open fl use {Single, lt}

  module _ (hz tlmkb : ℕ) (curr : Bool) (time : ℤ) (itv : ℕ) where
    -- The row for two samples, if the process was active between them.
    abbrev pub rows_of_samples : PidStats → PidStats → List (ProcessInfo Single)
    rows_of_samples psti pstj =
        if was_active psti pstj
        then process_record fl hz tlmkb time itv (clamp_times psti pstj) pstj ∷ []
        else []

    abbrev pub rows_of_pair : Option PidStats → Option PidStats → List (ProcessInfo Single)
    rows_of_pair (some s0) (some s1) =
        rows_of_samples (current_of curr s0 s1) (previous_of curr s0 s1)
    rows_of_pair _ _ = []

    -- One row for each node whose process was active, a node before its left and its right subtree.
    abbrev pub rows_of : AvlTree → List (ProcessInfo Single)
    rows_of null = []
    rows_of (node l p h r) = rows_of_pair p.pst_list0 p.pst_list1 ++ (rows_of l ++ rows_of r)

    module _ (m : Mysql Single) (accepts : Accepts m) (screen : Bool) where
      rows-NodeStep :
          {p p' : AvlNode} {g g' : Globals Single}
          → NodeStep fl m hz tlmkb screen curr time itv p g p' g'
          → info_rows g'.history ≡ info_rows g.history ++ rows_of_pair p.pst_list0 p.pst_list1
      rows-NodeStep {p} {g} (passed e ep eg) = rw (e, eg) (sym (append-empty (info_rows g.history)))
      rows-NodeStep {p} {g} (idle s0 s1 e0 e1 a ep eg) =
          rw (e0, e1, a, eg) (sym (append-empty (info_rows g.history)))
      rows-NodeStep {p} {g} (active s0 s1 e0 e1 a ep i) =
          rw (e0, e1, a, i.history) (info_rows-insert_ps m accepts _ g.history)

      pub rows-TreeStep :
          {t t' : AvlTree} {g g' : Globals Single}
          → TreeStep fl m hz tlmkb screen curr time itv t g t' g'
          → info_rows g'.history ≡ info_rows g.history ++ rows_of t
      rows-TreeStep {g} leaf = sym (append-empty (info_rows g.history))
      rows-TreeStep (branch s sl sr) =
          simp (rows-TreeStep sr, rows-TreeStep sl, rows-NodeStep s, append_assoc) refl
