-- ===== src/Monitor/Sample/Table.antt =====
-- ptop.c, write_stat: the table of ranked processes stays one, and each process written is one
-- insertion into the database.
use ptop.Prelude.{
  ℕ, suc, ◌+◌, min, ◌≡◌, refl, ap, ◌∙◌, Bool, true, false, ◌&&◌, some, List, [], ◌∷◌, arith, leb,
  length, if◌then◌else◌, Bool-cases, inl, inr, Returns, Returns-bind,
}
use ptop.Prelude.Int.{ℤ}
use ptop.Floats.{Floats}
use ptop.Records.{PidStats, ProcessInfo}
use ptop.Database.{Mysql, insert_ps}
use ptop.Database.Handles.{made, made-insert_ps}
use ptop.Monitor.Ranking.{show_num, add_higher_process_info}
use ptop.Monitor.Ranking.Order.{
  rev_append, IsRanked, place, length-place, place-IsRanked, add_higher_process_info-place,
  add_higher_process_info_full,
}
use ptop.Monitor.Sample.{
  Globals, rank_process, write_active, is_shown, add_disk, process_record, clamp_times,
}

module _ (fl : Floats) where
  open fl use {Single, lt}

  -- The table has 41 places; the first idx, 40 at most, hold ranked processes.
  pub record IsTable (g : Globals Single) : Type 0 where
    pub ranked : List (ProcessInfo Single)
    pub free : ProcessInfo Single
    pub rest : List (ProcessInfo Single)
    pub holds : g.pst_list ≡ rev_append ranked (free ∷ rest)
    pub filled : length ranked ≡ min g.idx show_num
    pub size : length rest + length ranked ≡ show_num
    pub order : IsRanked fl ranked

  pub moved :
      (g g' : Globals Single) → g'.pst_list ≡ g.pst_list → g'.idx ≡ g.idx → IsTable g → IsTable g'
  moved g g' e f t = record {
    ranked = t.ranked;
    free = t.free;
    rest = t.rest;
    holds = e ∙ t.holds;
    filled = rw f t.filled;
    size = t.size;
    order = t.order;
  }

  module _ (lt_asymm : (a b : Single) → lt a b ≡ true → lt b a ≡ false) (m : Mysql Single)
      (hz tlmkb : ℕ) (screen curr : Bool) (time : ℤ) (itv : ℕ) where
    ranked_step :
        (p : ProcessInfo Single) (g : Globals Single) (qs : List (ProcessInfo Single))
        (y : ProcessInfo Single) (zs : List (ProcessInfo Single))
        → length qs ≡ min g.idx show_num
        → length zs + length qs ≡ show_num
        → IsRanked fl qs
        → Returns
            (λ table. IsTable (record g { pst_list = table; idx = g.idx + 1 }))
            (add_higher_process_info fl p (length qs) (rev_append qs (y ∷ zs)))
    ranked_step p g qs y [] f s r = full qs f s r
      where
        full :
            (qs : List (ProcessInfo Single))
            → length qs ≡ min g.idx show_num
            → 0 + length qs ≡ show_num
            → IsRanked fl qs
            → Returns
                (λ table. IsTable (record g { pst_list = table; idx = g.idx + 1 }))
                (add_higher_process_info fl p (length qs) (rev_append qs (y ∷ [])))
        full [] f s r = absurd (omega arith)
        full (q ∷ qs) f s r =
            rw (add_higher_process_info_full fl p q y qs [] (omega arith)) (record {
              ranked = q ∷ qs;
              free = y;
              rest = [];
              holds = refl;
              filled = omega arith;
              size = s;
              order = r;
            })
    ranked_step p g qs y (z ∷ zs) f s r =
        rw (add_higher_process_info-place fl p qs y (z ∷ zs) (omega arith)) (record {
          ranked = place fl p qs;
          free = z;
          rest = zs;
          holds = refl;
          filled = omega (arith, length-place fl p qs);
          size = omega (arith, length-place fl p qs);
          order = place-IsRanked fl lt_asymm p qs r;
        })

    -- What the ranking leaves: a table again, and the database as it was.
    abbrev Ranked : Globals Single → Globals Single → Type 0
    Ranked g g' = IsTable g' × (g'.history ≡ g.history)

    rank_process-Ranked :
        (p : ProcessInfo Single) (g : Globals Single)
        → IsTable g
        → Returns (Ranked g) (rank_process fl m hz tlmkb screen curr time itv p g)
    unfolding rank_process
    rank_process-Ranked p g t =
        let e : (if leb show_num g.idx then show_num else g.idx) ≡ length t.ranked =
          ground (arith, t.filled) in
        elim (Bool-cases (screen && is_shown fl p)) [
          | inl shown ↦
              rw (shown, e, t.holds)
                (Returns-bind (λ table. IsTable (record g { pst_list = table; idx = g.idx + 1 }))
                  (Ranked g)
                  (add_higher_process_info fl p (length t.ranked)
                    (rev_append t.ranked (t.free ∷ t.rest)))
                  (λ table. some (record g { pst_list = table; idx = g.idx + 1 }))
                  (ranked_step p g t.ranked t.free t.rest t.filled t.size t.order)
                  λ table h. (h, refl))
          | inr hidden ↦ rw hidden (t, refl)
        ]

    pub write_active-IsTable :
        (psti pstj : PidStats) (g : Globals Single)
        → IsTable g
        → Returns
            (λ r. IsTable r.1 × (made r.1.history ≡ suc (made g.history)))
            (write_active fl m hz tlmkb screen curr time itv psti pstj g)
    unfolding write_active
    write_active-IsTable psti pstj g t =
        let g1 = record g { sys = add_disk fl psti pstj g.sys } in
        let psti' = clamp_times psti pstj in
        let p = process_record fl hz tlmkb time itv psti' pstj in
        Returns-bind (Ranked g1) _ (rank_process fl m hz tlmkb screen curr time itv p g1)
          (λ g'. some (psti', record g' { history = (insert_ps m p g'.history).1 }))
          (rank_process-Ranked p g1 (moved g g1 refl refl t))
          λ g' r.
            (moved g' _ refl refl r.0, made-insert_ps m p g'.history ∙ ap (λ h. suc (made h)) r.1)
