-- ===== src/Monitor/Loop/Cycled.antt =====
-- ptop.c, main_loop: a cycle as a relation between the globals before and after it.
use ptop.Prelude.{
  ℕ, ◌≡◌, refl, sym, ap, ◌∙◌, Bool, true, false, not, Option, none, some, arith, if◌then◌else◌,
  Returns, Returns-IfReturns, IfReturns, IfReturns-bind, IfReturns-any,
}
use ptop.Common.{u64_subcount}
use ptop.Files.{Libc, OnRun}
use ptop.Floats.{Floats}
use ptop.Records.{SysInfo}
use ptop.AvlTree.{AvlTree}
use ptop.Database.{Mysql, insert_sys_info}
use ptop.MStats.{StatSmaps}
use ptop.Perf.{Kernel}
use ptop.Monitor.Collect.{read_process_stats}
use ptop.Monitor.Collect.Nodes.{then_run-IfReturns}
use ptop.Monitor.Cycle.{read_system_stats, write_process_stats, write_system_stats, system_record}
use ptop.Monitor.Sample.{Globals, write_stat}
use ptop.Monitor.Sample.Step.{TreeStep, TreeStepped, write_stat-TreeStepped}
use ptop.Monitor.Sample.After.{runtime-TreeStep}
use ptop.Monitor.Cycle.Steps.{FitsNames}
use ptop.Monitor.Loop.{World, Readings, put_sys, write_sample, sample_cycle, zero_sys_info}
use ptop.Monitor.Loop.Invariant.{IsGood, any_process, sample_cycle-IsGood}

pub Returns→IfReturns : {A : Type 0} (P : A → Type 0) (o : Option A) → Returns P o → IfReturns P o
Returns→IfReturns P none h = tt
Returns→IfReturns P (some a) h = h

-- `sys_stats[b]`
abbrev pub sys_of : {F : Type 0} → Bool → World F → SysInfo F
sys_of b w = if b then w.sys1 else w.sys0

module _ (fl : Floats) where
  open fl use {Single, lt}

  module _ (c : Libc) (k : Kernel) (m : Mysql Single) (scanned : StatSmaps) (garbage page_shift : ℕ)
      (cpufreq : Bool) (hz tlmkb : ℕ) (screen curr : Bool) where
    abbrev put : SysInfo Single → World Single → World Single
    put = put_sys fl c k m scanned garbage page_shift cpufreq hz tlmkb screen curr

    put_sys-current : (s : SysInfo Single) (w : World Single) → sys_of curr (put s w) ≡ s
    unfolding put_sys
    put_sys-current s w = ground arith

    put_sys-other :
        (s : SysInfo Single) (w : World Single) → sys_of (not curr) (put s w) ≡ sys_of (not curr) w
    unfolding put_sys
    put_sys-other s w = ground arith

    put_sys-tree : (s : SysInfo Single) (w : World Single) → (put s w).tree ≡ w.tree
    unfolding put_sys
    put_sys-tree s w = ground arith

    put_sys-history : (s : SysInfo Single) (w : World Single) → (put s w).history ≡ w.history
    unfolding put_sys
    put_sys-history s w = ground arith

    previous_sys : (w : World Single) → (if curr then w.sys0 else w.sys1) ≡ sys_of (not curr) w
    previous_sys w = ground arith

    -- From the globals w to w': the pass over /proc leaves the tree t, the walk over it the tree of
    -- w', with the time between the two samples of the system; its calls of the database come
    -- first, then the insertion of the row for the system.
    pub record Cycled (Q : AvlTree → Type 0) (r : Readings) (w w' : World Single) : Type 0 where
      pub t : AvlTree
      pub g : Globals Single
      pub g' : Globals Single
      pub row : SysInfo Single
      pub collected : Q t
      pub walked :
          TreeStep fl m hz tlmkb screen curr r.ctime
            (u64_subcount (sys_of curr w').runtime (sys_of (not curr) w).runtime)
            t
            g
            w'.tree
            g'
      pub before : g.history ≡ w.history
      pub after : w'.history ≡ (insert_sys_info m row g'.history).1
      pub other : sys_of (not curr) w' ≡ sys_of (not curr) w

    put_sys-Cycled :
        (Q : AvlTree → Type 0) (r : Readings) (s : SysInfo Single) (w0 w : World Single)
        (t : AvlTree) (g g' : Globals Single) (row : SysInfo Single) (itv : ℕ)
        → Q t
        → TreeStep fl m hz tlmkb screen curr r.ctime itv t g w.tree g'
        → u64_subcount s.runtime (sys_of (not curr) w0).runtime ≡ itv
        → g.history ≡ w0.history
        → w.history ≡ (insert_sys_info m row g'.history).1
        → sys_of (not curr) w ≡ sys_of (not curr) w0
        → Cycled Q r w0 (put s w)
    put_sys-Cycled Q r s w0 w t g g' row itv v st i b a o = record {
      t = t;
      g = g;
      g' = g';
      row = row;
      collected = v;
      walked = rw (put_sys-current s w, put_sys-tree s w, i) st;
      before = b;
      after = put_sys-history s w ∙ a;
      other = put_sys-other s w ∙ o;
    }

    write_sample-Cycled :
        (Q : AvlTree → Type 0) (r : Readings) (sys : SysInfo Single) (t : AvlTree)
        (w0 w : World Single)
        → Q t
        → w.history ≡ w0.history
        → w.sys0 ≡ w0.sys0
        → w.sys1 ≡ w0.sys1
        → IfReturns
            (λ s. Cycled Q r w0 s.1)
            (write_sample fl c k m scanned garbage page_shift cpufreq hz tlmkb screen curr r.ctime
              sys t w)
    unfolding write_sample write_process_stats write_system_stats
    write_sample-Cycled Q r sys t w0 w v e e0 e1 =
        let prev = if curr then w.sys0 else w.sys1 in
        let g : Globals Single = record {
          sys = sys;
          pst_list = w.pst_list;
          idx = 0;
          closed = w.closed;
          history = w.history;
        } in
        let itv = u64_subcount sys.runtime prev.runtime in
        let same : sys_of (not curr) w ≡ sys_of (not curr) w0 = ground (arith, e0, e1) in
        IfReturns-bind (λ s. TreeStep fl m hz tlmkb screen curr r.ctime itv t g s.1 s.2) _
          (write_process_stats fl m hz tlmkb screen curr r.ctime prev t g) _
          (IfReturns-bind (TreeStepped fl m hz tlmkb screen curr r.ctime itv t g) _
            (write_stat fl m hz tlmkb screen curr r.ctime itv t g) _
            (write_stat-TreeStepped fl m hz tlmkb screen curr r.ctime itv t g) λ s st. st)
          λ s st.
            put_sys-Cycled Q r _ w0 _ t g s.2 (system_record fl r.ctime s.0 s.2.sys prev) itv v st
              (ap (λ n. u64_subcount n (sys_of (not curr) w0).runtime)
                  (runtime-TreeStep fl hz tlmkb curr r.ctime itv m screen st)
                ∙ ap (λ p. u64_subcount sys.runtime p.runtime) (sym same ∙ sym (previous_sys w)))
              e refl same

    -- From a state with the invariant, if /proc lists a process, the body of the loop up to the
    -- screen is such a cycle, or ends the program. `Q` is what is known of the pass over /proc.
    pub sample_cycle-Cycled :
        (lt_asymm : (a b : Single) → lt a b ≡ true → lt b a ≡ false) (Q : AvlTree → Type 0)
        (r : Readings) (w : World Single)
        → IsGood w
        → any_process r.entries ≡ true
        → FitsNames c r.wireless
        → Returns (OnRun (λ s. Q s.1)) (
            read_process_stats c k scanned garbage page_shift curr r.stat
              (some r.entries)
              (zero_sys_info fl)
              w.tree)
        → Returns
            (OnRun (λ s. Cycled Q r w s.1))
            (sample_cycle fl c k m scanned garbage page_shift cpufreq hz tlmkb screen curr r w)
    unfolding sample_cycle
    sample_cycle-Cycled lt_asymm Q r w good some_process names q =
        let read =
          read_process_stats c k scanned garbage page_shift curr r.stat (some r.entries)
            (zero_sys_info fl) w.tree in
        Returns-IfReturns (OnRun (λ s. IsGood s.1)) _ _
          (sample_cycle-IsGood fl lt_asymm c k m scanned garbage page_shift cpufreq hz tlmkb screen
            curr r w good some_process names)
          (IfReturns-bind (OnRun (λ s. Q s.1)) _ read _
            (Returns→IfReturns (OnRun (λ s. Q s.1)) read q)
            λ run h. then_run-IfReturns _ _ run _ h λ s v.
              IfReturns-bind (λ _. Unit) _
                (read_system_stats fl c k cpufreq r.freq_time r.freq_dir r.garbage r.wireless
                  r.net_dev w.counters s.0 w.freqs)
                _ (IfReturns-any _)
                λ u _.
                  IfReturns-bind (λ z. Cycled Q r w z.1) _
                    (write_sample fl c k m scanned garbage page_shift cpufreq hz tlmkb screen curr
                      r.ctime u.0 s.1 (record w { freqs = u.1 }))
                    _
                    (write_sample-Cycled Q r u.0 s.1 w (record w { freqs = u.1 }) v refl refl refl)
                    λ z d. d)
