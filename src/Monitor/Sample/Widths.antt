-- ===== src/Monitor/Sample/Widths.antt =====
-- ptop.c, write_stat: the rows that it inserts, and the samples that it stores back, fit the fields
-- of the structures.
use ptop.Prelude.{
  ℕ, ◌<◌, Bool, true, false, List, [], ◌∷◌, ◌++◌, arith, length, Bool-cases, inl, inr,
}
use ptop.Prelude.Int.{ℤ}
use ptop.Common.{u32_mod, u64_mod, u64_subcount}
use ptop.Floats.{Floats}
use ptop.Records.{PidStats, ProcessInfo}
use ptop.PidStats.{max_comm_len}
use ptop.PidStats.Widths.{FitsStats}
use ptop.AvlTree.{AvlNode, AvlTree, clear_position}
use ptop.Database.{Mysql, History, Query, init, query, insert_info, insert_ps, statement}
use ptop.Database.Retention.{info_rows, info_rows-insert_cases}
use ptop.Monitor.Collect.Widths.{FitsNode, FitsTree, u32_of_int_under}
use ptop.Monitor.Sample.{Globals, process_record, clamp_times, clamped, store_sample}
use ptop.Monitor.Sample.Step.{
  current_of, previous_of, NodeStep, passed, idle, active, TreeStep, leaf, branch,
}

-- Each integer of a row is a value of its type in C, and the name fits its field.
pub record FitsRow {F : Type 0} (p : ProcessInfo F) : Type 0 where
  pub vsz : p.vsz < u32_mod
  pub rss : p.rss < u32_mod
  pub pid : p.pid < u32_mod
  pub time : p.time < u32_mod
  pub cpu_accesses : p.cpu_accesses < u64_mod
  pub cmdline : length p.cmdline < max_comm_len

abbrev pub FitsRows : {F : Type 0} → List (ProcessInfo F) → Type 0
FitsRows [] = Unit
FitsRows (p ∷ ps) = FitsRow p × FitsRows ps

-- The row that a statement inserts into process_info, if it does, fits.
abbrev pub FitsQuery : {F : Type 0} → Query F → Type 0
FitsQuery (insert_info p) = FitsRow p
FitsQuery _ = Unit

-- So it is for every statement that was sent.
abbrev pub FitsHistory : {F : Type 0} → History F → Type 0
FitsHistory [] = Unit
FitsHistory (query q r ∷ h) = FitsQuery q × FitsHistory h
FitsHistory (_ ∷ h) = FitsHistory h

pub statement-FitsHistory :
    {F : Type 0} (m : Mysql F) (q : Query F) (h : History F)
    → FitsQuery q
    → FitsHistory h
    → FitsHistory (statement m q h).1
unfolding statement
statement-FitsHistory m q h f v = elim (Bool-cases (m.connects (init ∷ h))) [
  | inl ok ↦ rw ok (f, v)
  | inr off ↦ rw off v
]

FitsRows-append :
    {F : Type 0} (ps qs : List (ProcessInfo F)) → FitsRows ps → FitsRows qs → FitsRows (ps ++ qs)
FitsRows-append [] qs f g = g
FitsRows-append (p ∷ ps) qs f g = (f.0, FitsRows-append ps qs f.1 g)

u64_subcount_under : (new old : ℕ) → new < u64_mod → u64_subcount new old < u64_mod
unfolding u64_subcount
u64_subcount_under new old h = ground arith

clamp_times-FitsStats : (a b : PidStats) → FitsStats a → FitsStats b → FitsStats (clamp_times a b)
unfolding clamp_times clamped
clamp_times-FitsStats a b f g = ground arith

FitsStats-pair :
    (b : Bool) (s0 s1 : PidStats)
    → FitsStats s0
    → FitsStats s1
    → FitsStats (current_of b s0 s1) × FitsStats (previous_of b s0 s1)
FitsStats-pair true s0 s1 f g = (g, f)
FitsStats-pair false s0 s1 f g = (f, g)

module _ (fl : Floats) where
  open fl use {Single}

  module _ (hz tlmkb : ℕ) (curr : Bool) (time : ℤ) (itv : ℕ) where
    process_record-FitsRow :
        (psti pstj : PidStats)
        → FitsStats psti
        → FitsRow (process_record fl hz tlmkb time itv psti pstj)
    unfolding process_record
    process_record-FitsRow psti pstj f = record {
      vsz = f.vsz;
      rss = f.rss;
      pid = f.pid;
      time = u32_of_int_under time;
      cpu_accesses = ground (
        arith,
        u64_subcount_under psti.mem.cpu_accesses pstj.mem.cpu_accesses,
        f.mem.cpu_accesses,
      );
      cmdline = f.comm;
    }

    sample-FitsRow :
        (s0 s1 : PidStats)
        → FitsStats s0
        → FitsStats s1
        → let psti = current_of curr s0 s1 in
          let pstj = previous_of curr s0 s1 in
          FitsRow (process_record fl hz tlmkb time itv (clamp_times psti pstj) pstj)
    sample-FitsRow s0 s1 f0 f1 =
        let (fi, fj) = FitsStats-pair curr s0 s1 f0 f1 in
        process_record-FitsRow _ _ (clamp_times-FitsStats _ _ fi fj)

    module _ (m : Mysql Single) (screen : Bool) where
      store_sample-FitsNode :
          (p : AvlNode) (s : PidStats)
          → FitsNode p
          → FitsStats s
          → FitsNode (store_sample fl m hz tlmkb screen curr time itv p s)
      unfolding store_sample
      store_sample-FitsNode p s f v = elim (Bool-cases curr) [
        | inl one ↦ rw one (f.0, v)
        | inr other ↦ rw other (v, f.1)
      ]

      NodeStep-FitsNode :
          {p p' : AvlNode} {g g' : Globals Single}
          → NodeStep fl m hz tlmkb screen curr time itv p g p' g'
          → FitsNode p
          → FitsNode p'
      unfolding clear_position
      NodeStep-FitsNode (passed e ep eg) f = rw ep f
      NodeStep-FitsNode (idle s0 s1 e0 e1 a ep eg) f = rw ep f
      NodeStep-FitsNode {p} (active s0 s1 e0 e1 a ep i) f =
          let f0 : FitsStats s0 = rw e0 at f.0 in
          let f1 : FitsStats s1 = rw e1 at f.1 in
          let (fi, fj) = FitsStats-pair curr s0 s1 f0 f1 in
          rw ep (store_sample-FitsNode p _ f (clamp_times-FitsStats _ _ fi fj))

      insert_ps-FitsRows :
          (p : ProcessInfo Single) (h : History Single)
          → FitsRow p
          → FitsRows (info_rows h)
          → FitsRows (info_rows (insert_ps m p h).1)
      insert_ps-FitsRows p h f v = elim (info_rows-insert_cases m p h) [
        | inl same ↦ rw same v
        | inr more ↦ rw more (FitsRows-append (info_rows h) (p ∷ []) v (f, tt))
      ]

      NodeStep-FitsRows :
          {p p' : AvlNode} {g g' : Globals Single}
          → NodeStep fl m hz tlmkb screen curr time itv p g p' g'
          → FitsNode p
          → FitsRows (info_rows g.history)
          → FitsRows (info_rows g'.history)
      NodeStep-FitsRows (passed e ep eg) f v = rw eg v
      NodeStep-FitsRows (idle s0 s1 e0 e1 a ep eg) f v = rw eg v
      NodeStep-FitsRows {g} (active s0 s1 e0 e1 a ep i) f v =
          let f0 : FitsStats s0 = rw e0 at f.0 in
          let f1 : FitsStats s1 = rw e1 at f.1 in
          rw i.history (insert_ps-FitsRows _ g.history (sample-FitsRow s0 s1 f0 f1) v)

      -- The rows of process_info fit, if those of before do and the samples do.
      pub TreeStep-FitsRows :
          {t t' : AvlTree} {g g' : Globals Single}
          → TreeStep fl m hz tlmkb screen curr time itv t g t' g'
          → FitsTree t
          → FitsRows (info_rows g.history)
          → FitsRows (info_rows g'.history)
      TreeStep-FitsRows leaf f v = v
      TreeStep-FitsRows (branch s sl sr) f v =
          TreeStep-FitsRows sr f.2 (TreeStep-FitsRows sl f.1 (NodeStep-FitsRows s f.0 v))

      NodeStep-FitsHistory :
          {p p' : AvlNode} {g g' : Globals Single}
          → NodeStep fl m hz tlmkb screen curr time itv p g p' g'
          → FitsNode p
          → FitsHistory g.history
          → FitsHistory g'.history
      unfolding insert_ps
      NodeStep-FitsHistory (passed e ep eg) f v = rw eg v
      NodeStep-FitsHistory (idle s0 s1 e0 e1 a ep eg) f v = rw eg v
      NodeStep-FitsHistory {g} (active s0 s1 e0 e1 a ep i) f v =
          let f0 : FitsStats s0 = rw e0 at f.0 in
          let f1 : FitsStats s1 = rw e1 at f.1 in
          rw i.history
            (statement-FitsHistory m (insert_info _) g.history (sample-FitsRow s0 s1 f0 f1) v)

      -- The statements fit, if those of before do and the samples do.
      pub TreeStep-FitsHistory :
          {t t' : AvlTree} {g g' : Globals Single}
          → TreeStep fl m hz tlmkb screen curr time itv t g t' g'
          → FitsTree t
          → FitsHistory g.history
          → FitsHistory g'.history
      TreeStep-FitsHistory leaf f v = v
      TreeStep-FitsHistory (branch s sl sr) f v =
          TreeStep-FitsHistory sr f.2 (TreeStep-FitsHistory sl f.1 (NodeStep-FitsHistory s f.0 v))

      pub TreeStep-FitsTree :
          {t t' : AvlTree} {g g' : Globals Single}
          → TreeStep fl m hz tlmkb screen curr time itv t g t' g'
          → FitsTree t
          → FitsTree t'
      TreeStep-FitsTree leaf f = tt
      TreeStep-FitsTree (branch s sl sr) f =
          (NodeStep-FitsNode s f.0, TreeStep-FitsTree sl f.1, TreeStep-FitsTree sr f.2)
