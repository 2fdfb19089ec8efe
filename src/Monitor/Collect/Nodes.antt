-- ===== src/Monitor/Collect/Nodes.antt =====
-- ptop.c, read_pid_stats: a process is sampled into its node.
use ptop.Prelude.{
  ℕ, ◌≡◌, refl, ◌∙◌, Bool, true, false, not, Option, none, some, ◌==◌, if◌then◌else◌, Returns,
  IfReturns,
}
use ptop.Files.{Libc, Run, goes_on, exits, OnRun}
use ptop.Records.{PidStats, zero_pid_stats}
use ptop.Monitor.Activity.{is_active}
use ptop.MStats.{StatSmaps}
use ptop.Perf.{Kernel}
use ptop.PidStats.{
  ProcFiles, read_proc_pid_mem, read_proc_pid_stat, read_proc_pid_status, read_proc_pid_io,
}
use ptop.PidStats.Outcome.{SameButFd, read_proc_pid_mem-SameButFd, kept_fd, kept_fd_same}
use ptop.AvlTree.{AvlNode}
use ptop.AvlTree.Shape.{HasSamples}
use ptop.Monitor.Collect.{
  put_sample, then_run, finish_mem, read_pid_stats, keep_sample, sample_pair, sample_node,
}

pub OnRun-if :
    {A : Type 0} (P : A → Type 0) (b : Bool) (x y : Run A)
    → OnRun P x
    → OnRun P y
    → OnRun P (if b then x else y)
OnRun-if P true x y h j = h
OnRun-if P false x y h j = j

pub OnRun-imp :
    {A : Type 0} (P Q : A → Type 0) (r : Run A) → ((a : A) → P a → Q a) → OnRun P r → OnRun Q r
OnRun-imp P Q (exits n) f h = tt
OnRun-imp P Q (goes_on a) f h = f a h

pub OnRun-any : {A : Type 0} (r : Run A) → OnRun (λ _. Unit) r
OnRun-any (exits n) = tt
OnRun-any (goes_on x) = tt

pub then_run-OnRun :
    {A B : Type 0} (P : A → Type 0) (Q : B → Type 0) (r : Run A) (f : A → Option (Run B))
    → OnRun P r
    → ((a : A) → P a → Returns (OnRun Q) (f a))
    → Returns (OnRun Q) (then_run r f)
then_run-OnRun P Q (exits n) f h k = tt
then_run-OnRun P Q (goes_on a) f h k = k a h

pub then_run-IfReturns :
    {A B : Type 0} (P : A → Type 0) (Q : B → Type 0) (r : Run A) (f : A → Option (Run B))
    → OnRun P r
    → ((a : A) → P a → IfReturns (OnRun Q) (f a))
    → IfReturns (OnRun Q) (then_run r f)
then_run-IfReturns P Q (exits n) f h k = tt
then_run-IfReturns P Q (goes_on a) f h k = k a h

-- What holds in any case, and what holds if there is no fault.
pub both_return :
    {A : Type 0} (P Q : A → Type 0) (o : Option (Run A))
    → Returns (OnRun P) o
    → IfReturns (OnRun Q) o
    → Returns (OnRun (λ a. P a × Q a)) o
both_return P Q none h j = h
both_return P Q (some (exits n)) h j = tt
both_return P Q (some (goes_on a)) h j = (h, j)

module _ (c : Libc) (k : Kernel) (scanned : StatSmaps) (garbage page_shift : ℕ) where
  finish_mem-SameButFd :
      (p : AvlNode) (r : Run (ℕ × AvlNode × PidStats))
      → OnRun (λ r. (r.0 ≡ 0) × SameButFd p r.1) r
      → OnRun (λ r. SameButFd p r.1) (finish_mem c k scanned garbage page_shift r)
  unfolding finish_mem
  finish_mem-SameButFd p (exits n) h = tt
  finish_mem-SameButFd p (goes_on (status, q, s)) h = h.1

  pub read_pid_stats-SameButFd :
      (pid : ℕ) (files : ProcFiles) (pstj : PidStats) (p : AvlNode)
      → OnRun
          (λ r. SameButFd p r.1)
          (read_pid_stats c k scanned garbage page_shift pid files pstj p)
  unfolding read_pid_stats
  read_pid_stats-SameButFd pid files pstj p =
      let same : SameButFd p p = record {
        element = refl;
        pst_list0 = refl;
        pst_list1 = refl;
        held = kept_fd_same p.fd;
      } in
      let r1 = read_proc_pid_stat c page_shift pid files zero_pid_stats in
      let r2 = read_proc_pid_status c pid files.status r1.1 in
      let r3 = read_proc_pid_io c pid files.io r2.1 in
      let Same = λ (r : ℕ × AvlNode × PidStats). SameButFd p r.1 in
      let read =
        finish_mem c k scanned garbage page_shift
          (read_proc_pid_mem c k scanned garbage pid files (is_active pstj (some r3.1)) p r3.1) in
      let after_status = if not (r3.0 == 0) then goes_on (1, p, r3.1) else read in
      let after_stat = if not (r2.0 == 0) then goes_on (1, p, r2.1) else after_status in
      OnRun-if Same (not (r1.0 == 0)) (goes_on (1, p, r1.1)) after_stat same (
        OnRun-if Same (not (r2.0 == 0)) (goes_on (1, p, r2.1)) after_status same (
          OnRun-if Same (not (r3.0 == 0)) (goes_on (1, p, r3.1)) read same (
            finish_mem-SameButFd p _ (
              read_proc_pid_mem-SameButFd c k scanned garbage pid files (is_active pstj (some r3.1))
                p r3.1))))

  module _ (curr : Bool) where
    -- A node with the key of another and its descriptor, if that is open, and both samples.
    abbrev pub Sampled : AvlNode → AvlNode → Type 0
    Sampled p q = (q.element ≡ p.element) × HasSamples q × (q.fd ≡ kept_fd p.fd q.fd)

    put_sample-Sampled :
        (b : Bool) (p q : AvlNode) (s : PidStats)
        → HasSamples p
        → SameButFd p q
        → Sampled p (put_sample b q s)
    unfolding put_sample
    put_sample-Sampled true p q s (s0, s1, e0, e1) h =
        (h.element, (s0, s, h.pst_list0 ∙ e0, refl), h.held)
    put_sample-Sampled false p q s (s0, s1, e0, e1) h =
        (h.element, (s, s1, refl, h.pst_list1 ∙ e1), h.held)

    keep_sample-Sampled :
        (p : AvlNode) (r : Run (ℕ × AvlNode × PidStats))
        → HasSamples p
        → OnRun (λ r. SameButFd p r.1) r
        → OnRun (Sampled p) (keep_sample c k scanned garbage page_shift curr r)
    unfolding keep_sample
    keep_sample-Sampled p (exits n) a h = tt
    keep_sample-Sampled p (goes_on (status, q, s)) a h = put_sample-Sampled curr p q _ a h

    sample_pair-Sampled :
        (pid : ℕ) (files : ProcFiles) (p : AvlNode) (o0 o1 : Option PidStats) (s0 s1 : PidStats)
        → HasSamples p
        → o0 ≡ some s0
        → o1 ≡ some s1
        → Returns
            (OnRun (Sampled p))
            (sample_pair c k scanned garbage page_shift curr pid files p o0 o1)
    unfolding sample_pair
    sample_pair-Sampled pid files p none o1 s0 s1 a e0 e1 = cc
    sample_pair-Sampled pid files p (some _) none s0 s1 a e0 e1 = cc
    sample_pair-Sampled pid files p (some t0) (some t1) s0 s1 a e0 e1 =
        keep_sample-Sampled p _ a (read_pid_stats-SameButFd pid files _ p)

    pub sample_node-Sampled :
        (pid : ℕ) (files : ProcFiles) (p : AvlNode)
        → HasSamples p
        → Returns (OnRun (Sampled p)) (sample_node c k scanned garbage page_shift curr pid files p)
    unfolding sample_node
    sample_node-Sampled pid files p (s0, s1, e0, e1) =
        sample_pair-Sampled pid files p p.pst_list0 p.pst_list1 s0 s1 (s0, s1, e0, e1) e0 e1
