-- ===== src/Monitor/Collect/Counter.antt =====
-- ptop.c, read_process_stats: the descriptor that a node holds, if it is open, stays there.
use ptop.Prelude.{
  ◌≡◌, refl, ◌∙◌, true, Option, none, some, arith, Bool-cases, inl, inr, if◌then◌else◌,
}
use ptop.Prelude.Int.{ℤ, pos, negsuc, ltb_ℤ, eqb_ℤ, eq_of_parts}
use ptop.AvlTree.{AvlNode, AvlTree, find}
use ptop.AvlTree.Lookup.{found_after}
use ptop.PidStats.Outcome.{kept_fd, kept_fd_same}

-- The descriptor of a node, and -1 without one.
abbrev pub fd_of : Option AvlNode → ℤ
fd_of none = negsuc 0
fd_of (some p) = p.fd

pub kept_fd_trans : (a b d : ℤ) → b ≡ kept_fd a b → d ≡ kept_fd b d → d ≡ kept_fd a d
kept_fd_trans a b d h j = elim (Bool-cases (ltb_ℤ (pos 0) a)) [
  | inl held ↦ rw held (
      let same : b ≡ a = rw held at h in
      let open_b : ltb_ℤ (pos 0) b ≡ true = rw same held in (rw open_b at j) ∙ same)
  | inr shut ↦ rw shut refl
]

pub found_after_kept :
    (y x fd : ℤ) (o : Option AvlNode)
    → fd_of (found_after y x fd o) ≡ kept_fd (fd_of o) (fd_of (found_after y x fd o))
found_after_kept y x fd none = refl
found_after_kept y x fd (some p) = kept_fd_same p.fd

pub stored_kept :
    (x y : ℤ) (q p : AvlNode) (t : AvlTree)
    → find x t ≡ some p
    → q.fd ≡ kept_fd p.fd q.fd
    → let after = if eqb_ℤ y x then some q else find y t in
      fd_of after ≡ kept_fd (fd_of (find y t)) (fd_of after)
stored_kept x y q p t f h = elim (Bool-cases (eqb_ℤ y x)) [
  | inl same ↦ let eq : y ≡ x = eq_of_parts y x (ground arith) in rw (same, eq, f) h
  | inr other ↦ rw other (kept_fd_same (fd_of (find y t)))
]
