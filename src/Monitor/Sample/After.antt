-- ===== src/Monitor/Sample/After.antt =====
-- ptop.c, write_stat: what the walk leaves in the nodes.
use ptop.Prelude.{
  ℕ, ◌+◌, ◌≤◌, some-inj, ◌≡◌, refl, ◌∙◌, sym, Bool, some, List, [], ◌∷◌, ◌++◌, arith, Bool-cases,
  inl, inr, if◌then◌else◌, ◌==◌,
}
use ptop.Prelude.Int.{ℤ, ltb_ℤ}
use ptop.Floats.{Floats}
use ptop.Records.{PidStats, ProcessInfo}
use ptop.AvlTree.{AvlNode, AvlTree, null, node, find, clear_position}
use ptop.Database.{Mysql}
use ptop.Monitor.Sample.{Globals, add_disk, clamp_times, store_sample}
use ptop.Monitor.Sample.Step.{
  current_of, previous_of, NodeStep, passed, idle, active, TreeStep, leaf, branch,
}
use ptop.Monitor.Sample.Unclamped.{SameUnclamped-refl, clamp_times-SameUnclamped, Samples}
use ptop.Monitor.Sample.Rows.{rows_of, rows_of_pair}

-- How many rows are for a pid.
abbrev pub rows_with : {F : Type 0} → ℕ → List (ProcessInfo F) → ℕ
rows_with pid [] = 0
rows_with pid (p ∷ ps) = (if p.pid == pid then 1 else 0) + rows_with pid ps

pub rows_with-append :
    {F : Type 0} (pid : ℕ) (ps qs : List (ProcessInfo F))
    → rows_with pid (ps ++ qs) ≡ rows_with pid ps + rows_with pid qs
rows_with-append pid [] qs = omega arith
rows_with-append pid (p ∷ ps) qs = omega (arith, rows_with-append pid ps qs)

module _ (fl : Floats) where
  open fl use {Single}

  module _ (hz tlmkb : ℕ) (curr : Bool) (time : ℤ) (itv : ℕ) where
    -- The rows for one process are among those of the tree.
    pub rows_of-find :
        (y : ℤ) (t : AvlTree) (p : AvlNode) (pid : ℕ)
        → find y t ≡ some p
        → rows_with pid (rows_of_pair fl hz tlmkb curr time itv p.pst_list0 p.pst_list1)
          ≤ rows_with pid (rows_of fl hz tlmkb curr time itv t)
    unfolding find
    rows_of-find y null p pid e = cc
    rows_of-find y (node l q h r) p pid e =
        let mine = rows_of_pair fl hz tlmkb curr time itv q.pst_list0 q.pst_list1 in
        let left = rows_of fl hz tlmkb curr time itv l in
        let right = rows_of fl hz tlmkb curr time itv r in
        let parts = rows_with-append pid mine (left ++ right) in
        let parts' = rows_with-append pid left right in
        elim (Bool-cases (ltb_ℤ y q.element)) [
          | inl below ↦ omega (arith, parts, parts', rows_of-find y l p pid (rw below at e))
          | inr b ↦ elim (Bool-cases (ltb_ℤ q.element y)) [
            | inl above ↦ omega (arith, parts, parts', rows_of-find y r p pid (rw (b, above) at e))
            | inr a ↦ ground (arith, parts, parts', rw (b, a) at e)
          ]
        ]

    module _ (m : Mysql Single) (screen : Bool) where
      element-NodeStep :
          {p p' : AvlNode} {g g' : Globals Single}
          → NodeStep fl m hz tlmkb screen curr time itv p g p' g'
          → p'.element ≡ p.element
      unfolding clear_position store_sample
      element-NodeStep (passed e ep eg) = rw ep refl
      element-NodeStep (idle s0 s1 e0 e1 a ep eg) = rw ep refl
      element-NodeStep (active s0 s1 e0 e1 a ep i) = ground arith

      store_sample-Samples :
          (p : AvlNode) (s0 s1 : PidStats)
          → p.pst_list0 ≡ some s0
          → p.pst_list1 ≡ some s1
          → Samples s0 s1 (
              store_sample fl m hz tlmkb screen curr time itv p
                (clamp_times (current_of curr s0 s1) (previous_of curr s0 s1)))
      unfolding store_sample
      store_sample-Samples p s0 s1 e0 e1 = elim (Bool-cases curr) [
        | inl one ↦ rw one (record {
          u0 = s0;
          u1 = clamp_times s1 s0;
          e0 = e0;
          e1 = refl;
          same0 = SameUnclamped-refl s0;
          same1 = clamp_times-SameUnclamped s1 s0;
        })
        | inr other ↦ rw other (record {
          u0 = clamp_times s0 s1;
          u1 = s1;
          e0 = refl;
          e1 = e1;
          same0 = clamp_times-SameUnclamped s0 s1;
          same1 = SameUnclamped-refl s1;
        })
      ]

      -- Both samples after a step are those of before but for their times.
      pub NodeStep-Samples :
          {p p' : AvlNode} {g g' : Globals Single} (s0 s1 : PidStats)
          → NodeStep fl m hz tlmkb screen curr time itv p g p' g'
          → p.pst_list0 ≡ some s0
          → p.pst_list1 ≡ some s1
          → Samples s0 s1 p'
      unfolding clear_position
      NodeStep-Samples s0 s1 (passed e ep eg) e0 e1 = cc
      NodeStep-Samples s0 s1 (idle t0 t1 f0 f1 a ep eg) e0 e1 = rw ep (record {
        u0 = s0;
        u1 = s1;
        e0 = e0;
        e1 = e1;
        same0 = SameUnclamped-refl s0;
        same1 = SameUnclamped-refl s1;
      })
      NodeStep-Samples {p} s0 s1 (active t0 t1 f0 f1 a ep i) e0 e1 =
          let same0 : s0 ≡ t0 = some-inj s0 t0 (sym e0 ∙ f0) in
          let same1 : s1 ≡ t1 = some-inj s1 t1 (sym e1 ∙ f1) in
          rw (ep, same0, same1) (store_sample-Samples p t0 t1 f0 f1)

      -- The node of a process takes a step of the walk.
      pub record Stepped (y : ℤ) (t' : AvlTree) (p : AvlNode) : Type 0 where
        pub after : AvlNode
        pub g : Globals Single
        pub g' : Globals Single
        pub found : find y t' ≡ some after
        pub step : NodeStep fl m hz tlmkb screen curr time itv p g after g'

      under :
          (y : ℤ) (t t' : AvlTree) (p : AvlNode)
          → find y t ≡ find y t'
          → Stepped y t' p
          → Stepped y t p
      under y t t' p e s = record {
        after = s.after;
        g = s.g;
        g' = s.g';
        found = e ∙ s.found;
        step = s.step;
      }

      pub find-TreeStep :
          {t t' : AvlTree} {g g' : Globals Single} (y : ℤ) (p : AvlNode)
          → TreeStep fl m hz tlmkb screen curr time itv t g t' g'
          → find y t ≡ some p
          → Stepped y t' p
      unfolding find
      find-TreeStep y p leaf e = cc
      find-TreeStep y p (branch {l} {r} {l'} {r'} {p = q} {p' = q'} {h} {g = ga} {g1 = gb} s sl sr)
            e =
          let same = element-NodeStep s in
          elim (Bool-cases (ltb_ℤ y q.element)) [
            | inl below ↦
                under y (node l' q' h r') l' p (rw (same, below) refl)
                  (find-TreeStep y p sl (rw below at e))
            | inr b ↦ elim (Bool-cases (ltb_ℤ q.element y)) [
              | inl above ↦
                  under y (node l' q' h r') r' p (rw (same, b, above) refl)
                    (find-TreeStep y p sr (rw (b, above) at e))
              | inr a ↦ record {
                after = q';
                g = ga;
                g' = gb;
                found = rw (same, b, a) refl;
                step = let eq : p ≡ q = sym (some-inj q p (rw (b, a) at e)) in rw eq s;
              }
            ]
          ]

      runtime-NodeStep :
          {p p' : AvlNode} {g g' : Globals Single}
          → NodeStep fl m hz tlmkb screen curr time itv p g p' g'
          → g'.sys.runtime ≡ g.sys.runtime
      unfolding add_disk
      runtime-NodeStep (passed e ep eg) = rw eg refl
      runtime-NodeStep (idle s0 s1 e0 e1 a ep eg) = rw eg refl
      runtime-NodeStep (active s0 s1 e0 e1 a ep i) = rw i.sys refl

      -- The walk leaves the times of the system.
      pub runtime-TreeStep :
          {t t' : AvlTree} {g g' : Globals Single}
          → TreeStep fl m hz tlmkb screen curr time itv t g t' g'
          → g'.sys.runtime ≡ g.sys.runtime
      runtime-TreeStep leaf = refl
      runtime-TreeStep (branch s sl sr) =
          runtime-TreeStep sr ∙ runtime-TreeStep sl ∙ runtime-NodeStep s
