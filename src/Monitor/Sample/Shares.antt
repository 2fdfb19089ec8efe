-- ===== src/Monitor/Sample/Shares.antt =====
-- ptop.c, write_stat: the times of the record that it writes for a process.
use ptop.Prelude.{ℕ, ◌+◌, ◌-◌, ◌%◌, ◌<◌, ◌≡◌, false, arith, if◌then◌else◌, Bool-cases, inl, inr}
use ptop.Prelude.Int.{ℤ}
use ptop.Common.{u64_mod, u64_subcount}
use ptop.Floats.{Floats}
use ptop.Records.{PidStats}
use ptop.Monitor.Sample.{clamped, clamp_times, process_record, percent, sub64}

clamped-u64_subcount :
    (new old : ℕ) → old < new + 100 → u64_subcount (clamped new old) old ≡ new - old
unfolding clamped u64_subcount
clamped-u64_subcount new old h = ground arith

u64_subcount_same : (n : ℕ) → u64_subcount n n ≡ 0
unfolding u64_subcount
u64_subcount_same n = ground arith

module _ (fl : Floats) (hz tlmkb : ℕ) (time : ℤ) (itv : ℕ) where
  open fl use {Single, of_u64, lt}

  -- If user and system time did not fall by 100 or more, the cpu share is that of the sum, modulo
  -- 2^64, of their differences, where a counter that fell counts as unchanged.
  pub cpu-process_record :
      (psti pstj : PidStats)
      → pstj.utime < psti.utime + 100
      → pstj.stime < psti.stime + 100
      → (process_record fl hz tlmkb time itv (clamp_times psti pstj) pstj).cpu
        ≡ percent fl (((psti.utime - pstj.utime) + (psti.stime - pstj.stime)) % u64_mod) itv
  unfolding process_record clamp_times
  cpu-process_record psti pstj hu hs =
      rw (
        clamped-u64_subcount psti.utime pstj.utime hu,
        clamped-u64_subcount psti.stime pstj.stime hs,
      )

  -- The user share says nothing of the user time: it is computed from the guest time alone, and is
  -- the same whatever the two samples hold in `utime`.
  pub utime-process_record :
      (psti pstj : PidStats) (u v : ℕ)
      → let psti' = record psti { utime = u } in
        let pstj' = record pstj { utime = v } in
        (process_record fl hz tlmkb time itv psti' pstj').utime
        ≡ percent fl (sub64 0 (u64_subcount psti.gtime pstj.gtime)) itv
  unfolding process_record
  utime-process_record psti pstj u v = rw (u64_subcount_same u)

  -- The cancelled bytes of the record are never more than the written ones. (`<` is taken to be
  -- irreflexive.)
  pub cancelled-process_record :
      (psti pstj : PidStats)
      → ((a : Single) → lt a a ≡ false)
      → let p = process_record fl hz tlmkb time itv psti pstj in
        lt p.write_bytes p.cancelled_write_bytes ≡ false
  unfolding process_record
  cancelled-process_record psti pstj irrefl =
      capped (of_u64 (u64_subcount psti.write_bytes pstj.write_bytes))
        (of_u64 (u64_subcount psti.cancelled_write_bytes pstj.cancelled_write_bytes))
    where
      capped : (w c : Single) → lt w (if lt w c then w else c) ≡ false
      capped w c = elim (Bool-cases (lt w c)) [
        | inl more ↦ rw more (irrefl w)
        | inr fits ↦ rw fits fits
      ]
