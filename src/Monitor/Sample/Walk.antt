-- ===== src/Monitor/Sample/Walk.antt =====
-- ptop.c, write_stat: the walk over the tree never faults, keeps the tree's shape, and writes one
-- record for each active process.
use ptop.Prelude.{
  ℕ, suc, ◌+◌, ◌≡◌, refl, ap, Bool, true, false, Option, none, some, arith, if◌then◌else◌,
  Bool-cases, inl, inr, Returns, Returns-bind,
}
use ptop.Prelude.Int.{ℤ, pos, ltb_ℤ}
use ptop.Floats.{Floats}
use ptop.Records.{PidStats}
use ptop.AvlTree.{AvlNode, AvlTree, null, node, clear_position}
use ptop.AvlTree.Shape.{HasSamples, IsAllocated, SameShape}
use ptop.Database.{Mysql}
use ptop.Database.Handles.{made}
use ptop.Monitor.Activity.{is_active}
use ptop.Monitor.Sample.{
  Globals, write_active, write_samples, store_sample, write_pair, write_node, write_nodes,
  write_stat,
}
use ptop.Monitor.Sample.Table.{IsTable, moved, write_active-IsTable}

-- 1 for samples between which the process was active, psti being the current one.
abbrev pub active_sample : PidStats → PidStats → ℕ
active_sample psti pstj = if ltb_ℤ (pos 0) (is_active pstj (some psti)) then 1 else 0

abbrev pub active_pair : Bool → Option PidStats → Option PidStats → ℕ
active_pair curr (some s0) (some s1) = if curr then active_sample s1 s0 else active_sample s0 s1
active_pair curr _ _ = 0

abbrev pub active_node : Bool → AvlNode → ℕ
active_node curr p = active_pair curr p.pst_list0 p.pst_list1

-- The number of nodes of a tree whose process was active.
abbrev pub active_nodes : Bool → AvlTree → ℕ
active_nodes curr null = 0
active_nodes curr (node l p h r) = active_node curr p + (active_nodes curr l + active_nodes curr r)

choose :
    {A : Type 0} (b : Bool) (P : ℕ → A → Type 0) (n k : ℕ) (x y : Option A)
    → Returns (P n) x
    → Returns (P k) y
    → Returns (P (if b then n else k)) (if b then x else y)
choose true P n k x y h j = h
choose false P n k x y h j = j

module _ (fl : Floats) where
  open fl use {Single, lt}

  module _ (lt_asymm : (a b : Single) → lt a b ≡ true → lt b a ≡ false) (m : Mysql Single)
      (hz tlmkb : ℕ) (screen curr : Bool) (time : ℤ) (itv : ℕ) where
    -- After one node: the key is the same, both samples are there, the table is one, and an
    -- insertion was made if the process was active.
    abbrev pub Written : ℕ → AvlNode → Globals Single → AvlNode × Globals Single → Type 0
    Written n p g (p', g') =
        (p.element ≡ p'.element)
        × HasSamples p'
        × IsTable fl g'
        × (made g'.history ≡ made g.history + n)

    store_sample-HasSamples :
        (p : AvlNode) (s : PidStats)
        → HasSamples p
        → HasSamples (store_sample fl m hz tlmkb screen curr time itv p s)
    unfolding store_sample
    store_sample-HasSamples p s (s0, s1, e0, e1) = elim (Bool-cases curr) [
      | inl one ↦ rw one (s0, s, e0, refl)
      | inr other ↦ rw other (s, s1, refl, e1)
    ]

    element-store_sample :
        (p : AvlNode) (s : PidStats)
        → p.element ≡ (store_sample fl m hz tlmkb screen curr time itv p s).element
    unfolding store_sample
    element-store_sample p s = ground arith

    write_samples-Written :
        (p : AvlNode) (psti pstj : PidStats) (g : Globals Single)
        → HasSamples p
        → IsTable fl g
        → Returns
            (Written (active_sample psti pstj) p g)
            (write_samples fl m hz tlmkb screen curr time itv p psti pstj g)
    unfolding write_samples clear_position
    write_samples-Written p psti pstj g a t =
        elim (Bool-cases (ltb_ℤ (pos 0) (is_active pstj (some psti)))) [
          | inl active ↦ rw active (
              Returns-bind (λ r. IsTable fl r.1 × (made r.1.history ≡ suc (made g.history))) _
                (write_active fl m hz tlmkb screen curr time itv psti pstj g)
                (λ r. some (store_sample fl m hz tlmkb screen curr time itv p r.0, r.1))
                (write_active-IsTable fl lt_asymm m hz tlmkb screen curr time itv psti pstj g t)
                λ r h. (
                  element-store_sample p r.0,
                  store_sample-HasSamples p r.0 a,
                  h.0,
                  omega (arith, h.1),
                ))
          | inr idle ↦ rw idle (refl, a, moved fl g _ refl refl t, omega arith)
        ]

    write_pair-Written :
        (p : AvlNode) (g : Globals Single) (o0 o1 : Option PidStats) (s0 s1 : PidStats)
        → p.pst_list0 ≡ o0
        → p.pst_list1 ≡ o1
        → o0 ≡ some s0
        → o1 ≡ some s1
        → IsTable fl g
        → Returns
            (Written (active_pair curr o0 o1) p g)
            (write_pair fl m hz tlmkb screen curr time itv p o0 o1 g)
    unfolding write_pair
    write_pair-Written p g none o1 s0 s1 e0 e1 f0 f1 t = cc
    write_pair-Written p g (some a) none s0 s1 e0 e1 f0 f1 t = cc
    write_pair-Written p g (some a) (some b) s0 s1 e0 e1 f0 f1 t =
        choose curr (λ n. Written n p g) _ _ _ _ (write_samples-Written p b a g (a, b, e0, e1) t)
          (write_samples-Written p a b g (a, b, e0, e1) t)

    write_node-Written :
        (p : AvlNode) (g : Globals Single)
        → HasSamples p
        → IsTable fl g
        → Returns
            (Written (active_node curr p) p g)
            (write_node fl m hz tlmkb screen curr time itv p g)
    unfolding write_node
    write_node-Written p g (s0, s1, e0, e1) t =
        write_pair-Written p g p.pst_list0 p.pst_list1 s0 s1 refl refl e0 e1 t

    -- What the walk over a tree leaves.
    abbrev pub Walked : AvlTree → Globals Single → AvlTree × Globals Single → Type 0
    Walked t g (t', g') =
        SameShape t t'
        × IsAllocated t'
        × IsTable fl g'
        × (made g'.history ≡ made g.history + active_nodes curr t)

    write_nodes-Walked :
        (t : AvlTree) (g : Globals Single)
        → IsAllocated t
        → IsTable fl g
        → Returns (Walked t g) (write_nodes fl m hz tlmkb screen curr time itv t g)
    unfolding write_nodes
    write_nodes-Walked null g a t = (tt, tt, t, omega arith)
    write_nodes-Walked (node l p h r) g (ap, al, ar) t =
        Returns-bind (Written (active_node curr p) p g) _
          (write_node fl m hz tlmkb screen curr time itv p g) _ (write_node-Written p g ap t)
          λ n w.
            Returns-bind (Walked l n.1) _ (write_nodes fl m hz tlmkb screen curr time itv l n.1) _
              (write_nodes-Walked l n.1 al w.2)
              λ nl wl.
                Returns-bind (Walked r nl.1) _
                  (write_nodes fl m hz tlmkb screen curr time itv r nl.1) _
                  (write_nodes-Walked r nl.1 ar wl.2)
                  λ nr wr. (
                    (w.0, refl, wl.0, wr.0),
                    (w.1, wl.1, wr.1),
                    wr.2,
                    omega (arith, w.3, wl.3, wr.3),
                  )

    -- On a tree that is not null, with both samples of every node allocated and the table of ranked
    -- processes in order, `write_stat` returns. The tree has the same shape, keys and heights, both
    -- samples of every node are still allocated, the table is in order, and one insertion was made
    -- for each process that was active. (`<` on shares is taken to be asymmetric.)
    pub write_stat-Walked :
        (l : AvlTree) (p : AvlNode) (h : ℤ) (r : AvlTree) (g : Globals Single)
        → IsAllocated (node l p h r)
        → IsTable fl g
        → Returns
            (Walked (node l p h r) g)
            (write_stat fl m hz tlmkb screen curr time itv (node l p h r) g)
    unfolding write_stat
    write_stat-Walked l p h r g a t = write_nodes-Walked (node l p h r) g a t
