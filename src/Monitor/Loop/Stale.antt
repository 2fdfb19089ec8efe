-- ===== src/Monitor/Loop/Stale.antt =====
-- ptop.c, main_loop: what becomes of a process that has ended. Its node stays in the tree, with the
-- last two samples, and they are compared in every cycle.
use ptop.Prelude.{
  ℕ, suc, ◌≤◌, ◌≡◌, ◌≢◌, refl, sym, ◌∙◌, Bool, true, false, not, none, some, [], ◌∷◌, arith,
  Returns, Returns-imp, if◌then◌else◌,
}
use ptop.Prelude.Int.{ℤ, pos}
use ptop.Common.{u64_subcount}
use ptop.Files.{Libc, OnRun}
use ptop.Floats.{Floats}
use ptop.AvlTree.{AvlNode, AvlTree, find}
use ptop.Database.{Mysql}
use ptop.Database.Retention.{Accepts, info_rows}
use ptop.MStats.{StatSmaps}
use ptop.Perf.{Kernel}
use ptop.Records.{PidStats}
use ptop.Monitor.Activity.{is_active, is_active_iff}
use ptop.Monitor.Collect.Nodes.{OnRun-imp}
use ptop.Monitor.Collect.Slots.{last_entry, Resampled}
use ptop.Monitor.Collect.Slots.Listing.{read_process_stats-Resampled}
use ptop.Monitor.Sample.{process_record, clamp_times}
use ptop.Monitor.Sample.Step.{current_of, previous_of, was_active}
use ptop.Monitor.Sample.Rows.{rows_of, rows_of_pair}
use ptop.Monitor.Sample.Unclamped.{
  SameUnclamped, SameUnclamped-moved, SameCounters-SameUnclamped, SameUnclamped-symm,
}
use ptop.Monitor.Sample.After.{
  rows_with, rows_with-append, rows_of-find, find-TreeStep, NodeStep-Samples,
}
use ptop.Monitor.Cycle.Steps.{FitsNames}
use ptop.Monitor.Loop.{World, Readings, sample_cycle, zero_sys_info}
use ptop.Monitor.Loop.Invariant.{IsGood, any_process}
use ptop.Monitor.Loop.Cycled.{Cycled, sys_of, sample_cycle-Cycled}
use ptop.Monitor.Loop.Stored.{Cycled-rows}

-- The node of a process in a tree holds two samples of it that differ in more than utime, stime and
-- gtime.
pub record IsStale (y : ℤ) (pid : ℕ) (t : AvlTree) : Type 0 where
  pub p : AvlNode
  pub s0 : PidStats
  pub s1 : PidStats
  pub found : find y t ≡ some p
  pub sample0 : p.pst_list0 ≡ some s0
  pub sample1 : p.pst_list1 ≡ some s1
  pub pid0 : s0.pid ≡ pid
  pub pid1 : s1.pid ≡ pid
  pub differ : ¬ SameUnclamped s0 s1

current-differs :
    (b : Bool) (s0 s1 : PidStats)
    → ¬ SameUnclamped s0 s1
    → ¬ SameUnclamped (current_of b s0 s1) (previous_of b s0 s1)
current-differs true s0 s1 h e = h (SameUnclamped-symm s1 s0 e)
current-differs false s0 s1 h e = h e

pid-current_of :
    (b : Bool) (s0 s1 : PidStats) (pid : ℕ)
    → s0.pid ≡ pid
    → s1.pid ≡ pid
    → ((current_of b s0 s1).pid ≡ pid) × ((previous_of b s0 s1).pid ≡ pid)
pid-current_of true s0 s1 pid e0 e1 = (e1, e0)
pid-current_of false s0 s1 pid e0 e1 = (e0, e1)

differing-active :
    (psti pstj : PidStats)
    → psti.pid ≢ 0
    → psti.pid ≡ pstj.pid
    → ¬ SameUnclamped psti pstj
    → was_active psti pstj ≡ true
differing-active psti pstj z e h =
    let one : is_active pstj (some psti) ≡ pos 1 =
      (is_active_iff pstj psti z).1.1 (λ same. h (SameCounters-SameUnclamped psti pstj e same)) in
    rw one refl

module _ (fl : Floats) where
  open fl use {Single, lt}

  module _ (hz tlmkb : ℕ) (curr : Bool) (time : ℤ) (itv : ℕ) where
    pid-process_record :
        (psti pstj : PidStats)
        → (process_record fl hz tlmkb time itv (clamp_times psti pstj) pstj).pid ≡ psti.pid
    unfolding process_record clamp_times
    pid-process_record psti pstj = refl

    one_row :
        (psti pstj : PidStats) (pid : ℕ)
        → was_active psti pstj ≡ true
        → psti.pid ≡ pid
        → rows_with pid (
            if was_active psti pstj
            then process_record fl hz tlmkb time itv (clamp_times psti pstj) pstj ∷ []
            else [])
          ≡ 1
    one_row psti pstj pid a e = rw (a, pid-process_record psti pstj) (ground (arith, e))

    IsStale-rows :
        (y : ℤ) (pid : ℕ) (t : AvlTree)
        → pid ≢ 0
        → IsStale y pid t
        → 1 ≤ rows_with pid (rows_of fl hz tlmkb curr time itv t)
    IsStale-rows y pid t z s =
        let psti = current_of curr s.s0 s.s1 in
        let pstj = previous_of curr s.s0 s.s1 in
        let (ei, ej) = pid-current_of curr s.s0 s.s1 pid s.pid0 s.pid1 in
        let a =
          differing-active psti pstj (λ e. z (sym ei ∙ e)) (ei ∙ sym ej)
            (current-differs curr s.s0 s.s1 s.differ) in
        let mine : rows_with pid
              (rows_of_pair fl hz tlmkb curr time itv s.p.pst_list0 s.p.pst_list1)
            ≡ 1 =
          rw (s.sample0, s.sample1) (one_row psti pstj pid a ei) in
        omega (arith, mine, rows_of-find fl hz tlmkb curr time itv y t s.p pid s.found)

  module _ (c : Libc) (k : Kernel) (m : Mysql Single) (scanned : StatSmaps) (garbage page_shift : ℕ)
      (cpufreq : Bool) (hz tlmkb : ℕ) (screen curr : Bool) where
    -- After a cycle: one row more for the process at least, and it is stale again.
    abbrev pub Again : ℤ → ℕ → World Single → World Single → Type 0
    Again y pid w w' =
        (suc (rows_with pid (info_rows w.history)) ≤ rows_with pid (info_rows w'.history))
        × IsStale y pid w'.tree

    -- What is known of the pass.
    abbrev Previous : Readings → World Single → AvlTree → Type 0
    Previous r w t =
        Resampled c k scanned garbage page_shift curr r.entries (λ y. find y w.tree) (λ y. find y t)

    Cycled-Again :
        (y : ℤ) (pid : ℕ) (r : Readings) (w w' : World Single)
        → Accepts m
        → pid ≢ 0
        → last_entry c k scanned garbage page_shift curr y r.entries ≡ none
        → IsStale y pid w.tree
        → Cycled fl c k m scanned garbage page_shift cpufreq hz tlmkb screen curr
            (Previous r w)
            r
            w
            w'
        → Again y pid w w'
    Cycled-Again y pid r w w' accepts z u s d =
        let itv = u64_subcount (sys_of curr w').runtime (sys_of (not curr) w).runtime in
        let same : find y d.t ≡ find y w.tree = d.collected.unlisted y u in
        let there : IsStale y pid d.t = record {
          p = s.p;
          s0 = s.s0;
          s1 = s.s1;
          found = same ∙ s.found;
          sample0 = s.sample0;
          sample1 = s.sample1;
          pid0 = s.pid0;
          pid1 = s.pid1;
          differ = s.differ;
        } in
        let step = find-TreeStep fl hz tlmkb curr r.ctime itv m screen y s.p d.walked there.found in
        let v =
          NodeStep-Samples fl hz tlmkb curr r.ctime itv m screen s.s0 s.s1 step.step s.sample0
            s.sample1 in
        let news =
          Cycled-rows fl c k m scanned garbage page_shift cpufreq hz tlmkb screen curr
            (Previous r w) r w w' accepts d in
        let rows = IsStale-rows hz tlmkb curr r.ctime itv y pid d.t z there in
        (
          rw news (
              omega (
                arith,
                rows_with-append pid (info_rows w.history)
                    (rows_of fl hz tlmkb curr r.ctime itv d.t),
                rows,
              )),
          record {
            p = step.after;
            s0 = v.u0;
            s1 = v.u1;
            found = step.found;
            sample0 = v.e0;
            sample1 = v.e1;
            pid0 = v.same0.pid ∙ s.pid0;
            pid1 = v.same1.pid ∙ s.pid1;
            differ = λ e. s.differ (SameUnclamped-moved s.s0 s.s1 v.u0 v.u1 v.same0 v.same1 e);
          },
        )

    -- A process that has ended, and whose last two samples differ in one of the 13 counters that
    -- is_active compares besides the user and the system time (SameUnclamped), is written again in every
    -- further cycle: from a state with the invariant, if /proc lists a process but not this one, no line
    -- of /proc/net/wireless begins with a word of more than 9 bytes, and the database accepts every
    -- statement, the body of the loop up to the screen ends the program, or inserts at least one more
    -- row for its pid, and the node holds two such samples again. (`<` on shares is taken to be
    -- asymmetric.)
    pub sample_cycle-Again :
        (lt_asymm : (a b : Single) → lt a b ≡ true → lt b a ≡ false) (y : ℤ) (pid : ℕ)
        (r : Readings) (w : World Single)
        → IsGood w
        → any_process r.entries ≡ true
        → FitsNames c r.wireless
        → Accepts m
        → pid ≢ 0
        → last_entry c k scanned garbage page_shift curr y r.entries ≡ none
        → IsStale y pid w.tree
        → Returns
            (OnRun (λ s. Again y pid w s.1))
            (sample_cycle fl c k m scanned garbage page_shift cpufreq hz tlmkb screen curr r w)
    sample_cycle-Again lt_asymm y pid r w good e names accepts z u s =
        Returns-imp
          (OnRun (λ s.
            Cycled fl c k m scanned garbage page_shift cpufreq hz tlmkb screen curr (Previous r w) r
              w s.1))
          (OnRun (λ s. Again y pid w s.1)) _
          (λ run. OnRun-imp _ _ run λ x. Cycled-Again y pid r w x.1 accepts z u s)
          (sample_cycle-Cycled fl c k m scanned garbage page_shift cpufreq hz tlmkb screen curr
            lt_asymm (Previous r w) r w good e names
            (read_process_stats-Resampled c k scanned garbage page_shift curr r.stat r.entries
              (zero_sys_info fl) w.tree good.avl good.allocated))
