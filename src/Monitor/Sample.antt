-- ===== src/Monitor/Sample.antt =====
-- ptop.c, write_stat: the record of one process over an interval, and the walk over the tree that
-- writes one for each process that was active.
pub mod Shares
pub mod Step
pub mod Inserted
pub mod Rows
pub mod Unclamped
pub mod Widths
pub mod After
pub mod Table
pub mod Walk
pub mod Calls
pub mod Descriptors
use ptop.Prelude.{
  ℕ, ◌+◌, ◌-◌, ◌*◌, ◌%◌, ◌^◌, Bool, true, false, not, ◌&&◌, ◌||◌, Option, none, some, List, [], ◌∷◌,
  ◌++◌, ltb, leb, ◌==◌, if◌then◌else◌, ◌>>=◌,
}
use ptop.Prelude.Int.{ℤ, pos, negsuc, ltb_ℤ}
use ptop.Common.{u32_of_int, u32_mod, u64_mod, subcount, u64_subcount}
use ptop.Floats.{Floats}
use ptop.Records.{PidStats, ProcessInfo, SysInfo}
use ptop.AvlTree.{AvlNode, AvlTree, null, node, clear_position}
use ptop.Database.{History, Mysql, insert_ps}
use ptop.Monitor.Activity.{is_active}
use ptop.Monitor.Ranking.{show_num, add_higher_process_info}

abbrev pub sub32 : ℕ → ℕ → ℕ
sub32 a b = (a % u32_mod + u32_mod - b % u32_mod) % u32_mod

abbrev pub sub64 : ℕ → ℕ → ℕ
sub64 a b = (a + u64_mod - b) % u64_mod

-- A counter that went back by less than 100 keeps its old value.
pub clamped : ℕ → ℕ → ℕ
clamped new old = if ltb new old && ltb (old - new) 100 then old else new

-- The three corrections that are written into the current sample.
unfoldable pub clamp_times : PidStats → PidStats → PidStats
unfolding clamped
clamp_times psti pstj = record psti {
  utime = clamped psti.utime pstj.utime;
  stime = clamped psti.stime pstj.stime;
  gtime = clamped psti.gtime pstj.gtime;
}

-- The globals that `write_stat` changes, but for the tree: sys_stats[curr], pst_list, `*idx`, the
-- descriptors closed so far, and the calls of the database.
pub record Globals (F : Type 0) : Type 0 where
  pub sys : SysInfo F
  pub pst_list : List (ProcessInfo F)
  pub idx : ℕ
  pub closed : List ℤ
  pub history : History F

module _ (fl : Floats) where
  open fl use {
    Single, of_u64, add, mul, div, lt, narrow, of_u64_double, mul_double, div_double, decimal,
  }

  -- S_VALUE(m, n, p), whose difference is one of `u32`s, and SP_VALUE(0, n, p)
  unfoldable pub s_value : ℕ → ℕ → ℕ → ℕ → Single
  s_value hz m n p =
      narrow
        (mul_double (div_double (of_u64_double (sub32 n m)) (of_u64_double p)) (of_u64_double hz))

  unfoldable pub sp_value : ℕ → ℕ → Single
  sp_value n p =
      narrow (mul_double (div_double (of_u64_double n) (of_u64_double p)) (of_u64_double 100))

  -- `ticks * (100.0f / itv)`
  unfoldable pub percent : ℕ → ℕ → Single
  percent ticks itv = mul (of_u64 ticks) (div (of_u64 100) (of_u64 itv))

  -- `pst_db`, from the current sample (its times clamped) and the previous one.
  unfoldable pub process_record : ℕ → ℕ → ℤ → ℕ → PidStats → PidStats → ProcessInfo Single
  process_record hz tlmkb time itv psti pstj =
      let written = of_u64 (u64_subcount psti.write_bytes pstj.write_bytes) in
      let cancelled = of_u64 (u64_subcount psti.cancelled_write_bytes pstj.cancelled_write_bytes) in
      let guest = u64_subcount psti.gtime pstj.gtime in
      record {
        read_bytes = of_u64 (u64_subcount psti.read_bytes pstj.read_bytes);
        write_bytes = written;
        cancelled_write_bytes = if lt written cancelled then written else cancelled;
        vsz = psti.vsz;
        rss = psti.rss;
        mem = if tlmkb == 0 then narrow (decimal 0 1) else sp_value psti.rss tlmkb;
        minflt = s_value hz pstj.minflt psti.minflt itv;
        majflt = s_value hz pstj.majflt psti.majflt itv;
        utime = percent (sub64 (u64_subcount psti.utime psti.utime) guest) itv;
        stime = percent (u64_subcount psti.stime pstj.stime) itv;
        gtime = percent guest itv;
        cpu =
            percent
              ((u64_subcount psti.utime pstj.utime + u64_subcount psti.stime pstj.stime) % u64_mod)
              itv;
        cswch = s_value hz pstj.nvcsw psti.nvcsw itv;
        nvcswch = s_value hz pstj.nivcsw psti.nivcsw itv;
        pid = psti.pid;
        time = u32_of_int time;
        cmdline = psti.comm;
        netsnd = of_u64 (u64_subcount psti.net.totalnetsnd pstj.net.totalnetsnd);
        netrcv = of_u64 (u64_subcount psti.net.totalnetrcv pstj.net.totalnetrcv);
        ratio =
            if ltb 0 psti.mem.total_active
            then div (mul (of_u64 psti.mem.memory_used) (of_u64 100)) (of_u64 psti.mem.total_active)
            else narrow (decimal 0 1);
        cpu_accesses =
            if ltb 0 psti.mem.cpu_accesses
            then u64_subcount psti.mem.cpu_accesses pstj.mem.cpu_accesses
            else 0;
      }

  -- The test for a place on the screen.
  unfoldable pub is_shown : ProcessInfo Single → Bool
  is_shown p = lt (of_u64 0) p.cpu || ltb 0 p.cpu_accesses || lt (of_u64 0) (add p.netrcv p.netsnd)

  -- `sys_stats[curr].totaldiskread += …` and the line below it
  unfoldable pub add_disk : PidStats → PidStats → SysInfo Single → SysInfo Single
  add_disk psti pstj s = record s {
    totaldiskread =
        (s.totaldiskread + subcount (psti.read_bytes % u32_mod) (pstj.read_bytes % u32_mod))
        % u64_mod;
    totaldiskwrite =
        (s.totaldiskwrite
          + sub32 (subcount (psti.write_bytes % u32_mod) (pstj.write_bytes % u32_mod)) (
              subcount (psti.cancelled_write_bytes % u32_mod)
                (pstj.cancelled_write_bytes % u32_mod)))
        % u64_mod;
  }

  module _ (m : Mysql Single) (hz tlmkb : ℕ) (screen curr : Bool) (time : ℤ) (itv : ℕ) where
    -- The ranking, if the process is shown.
    unfoldable pub rank_process : ProcessInfo Single → Globals Single → Option (Globals Single)
    rank_process p g =
        if screen && is_shown p
        then (add_higher_process_info fl p (if leb show_num g.idx then show_num else g.idx)
              g.pst_list
            >>= λ table. some (record g { pst_list = table; idx = g.idx + 1 }))
        else some g

    -- The node with its two samples at hand, psti and pstj; the result is the sample to store back.
    unfoldable pub write_active :
        PidStats → PidStats → Globals Single → Option (PidStats × Globals Single)
    unfolding rank_process
    write_active psti pstj g =
        let psti' = clamp_times psti pstj in
        let p = process_record hz tlmkb time itv psti' pstj in
        rank_process p (record g { sys = add_disk psti pstj g.sys }) >>= λ g'.
        some (psti', record g' { history = (insert_ps m p g'.history).1 })

    -- `pst_list[curr] = psti`
    unfoldable pub store_sample : AvlNode → PidStats → AvlNode
    store_sample p psti =
        if curr then record p { pst_list1 = some psti } else record p { pst_list0 = some psti }

    unfoldable pub write_samples :
        AvlNode → PidStats → PidStats → Globals Single → Option (AvlNode × Globals Single)
    unfolding store_sample
    write_samples p psti pstj g =
        if ltb_ℤ (pos 0) (is_active pstj (some psti))
        then (write_active psti pstj g >>= λ (psti', g'). some (store_sample p psti', g'))
        else some ((clear_position p).1, record g { closed = g.closed ++ (clear_position p).0 })

    -- The two fields of `pst_list`: a node without samples is passed over, one with a single sample
    -- faults.
    unfoldable pub write_pair :
        AvlNode
        → Option PidStats
        → Option PidStats
        → Globals Single
        → Option (AvlNode × Globals Single)
    write_pair p none s1 g = some (p, g)
    write_pair p (some s0) none g = none
    write_pair p (some s0) (some s1) g =
        if curr then write_samples p s1 s0 g else write_samples p s0 s1 g

    unfoldable pub write_node : AvlNode → Globals Single → Option (AvlNode × Globals Single)
    unfolding write_pair
    write_node p g = write_pair p p.pst_list0 p.pst_list1 g

    -- The node, then the left and the right subtree, each if there is one.
    unfoldable pub write_nodes : AvlTree → Globals Single → Option (AvlTree × Globals Single)
    write_nodes null g = some (null, g)
    write_nodes (node l p h r) g = write_node p g >>= λ (p', g1).
        write_nodes l g1 >>= λ (l', g2). write_nodes r g2 >>= λ (r', g3). some (node l' p' h r', g3)

    -- With a null `position` the last lines read through it.
    unfoldable pub write_stat : AvlTree → Globals Single → Option (AvlTree × Globals Single)
    unfolding write_nodes
    write_stat null g = none
    write_stat (node l p h r) g = write_nodes (node l p h r) g
