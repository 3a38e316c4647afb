-- ===== src/Subtrees/Adjusting.antt =====
-- mds/MDCache.cc, subtrees: a fragment gets an authority (adjust_subtree_auth).
use mds.Prelude.{
  ℕ, ◌≡◌, refl, sym, ◌∙◌, Bool, true, false, not, ◌&&◌, some, [], ◌==◌, inl, inr, arith, Bool-cases,
}
use mds.Subtrees.{
  Authority, auth_eq, auth_default, Tree, Daemon, Cache, mem, has_key, is_root, parent_root,
  get_subtree_root, set_dir_auth, bootstrap, split_subtree, adjust_subtree_auth, call_if, Call,
  eval_subtree_root,
}
use mds.Subtrees.Walks.{IsTree, has_key-put}
use mds.Subtrees.Mapped.{IsMapped, IsAdjusted}
use mds.Subtrees.Splitting.{
  again, bootstrapped, next-root, root-other, split_subtree_lem, at_root, not_root,
}

-- Where a fragment is when it gets an authority: in a base inode, with no root below it if it is
-- new there, or below some root.
pub data IsPlaced (t : Tree) (c : Cache) (d : ℕ) : Type 0 where
  base :
      t.is_base d ≡ true
      → (is_root c d ≡ false → (b : ℕ) → is_root c b ≡ true → mem d (t.above b) ≡ false)
      → IsPlaced t c d
  below : t.is_base d ≡ false → (root : ℕ) → get_subtree_root t c d ≡ some root → IsPlaced t c d

called :
    (t : Tree) (d : ℕ) (auth : Authority) (c c' : Cache) (b : Bool) (k : Call)
    → IsAdjusted t d auth c c'
    → IsAdjusted t d auth c (call_if b k c')
unfolding get_subtree_root
called t d auth c c' b k h = record {
  mapped = record {
    keys = h.mapped.keys;
    bounds = h.mapped.bounds;
    sets = h.mapped.sets;
    pins = h.mapped.pins;
  };
  roots = h.roots;
  authorities = h.authorities;
}

has_key-bootstrap : (d : ℕ) (c : Cache) → has_key d (bootstrap d c).subtrees ≡ true
has_key-bootstrap d c = elim (Bool-cases (has_key d c.subtrees)) [
  | inl old ↦ rw old old
  | inr new ↦ rw new (ground (arith, has_key-put d d [] c.subtrees))
]

adjust-base :
    (t : Tree) (m : Daemon) (d : ℕ) (auth : Authority) (e : Bool) (c : Cache)
    → t.is_base d ≡ true
    → adjust_subtree_auth t m d auth e c ≡ some (set_dir_auth d auth (bootstrap d c))
unfolding adjust_subtree_auth
adjust-base t m d auth e c h = rw (h, has_key-bootstrap d c) (ground arith)

adjust-old :
    (t : Tree) (m : Daemon) (d : ℕ) (auth : Authority) (e : Bool) (c : Cache)
    → t.is_base d ≡ false
    → has_key d c.subtrees ≡ true
    → get_subtree_root t c d ≡ some d
    → adjust_subtree_auth t m d auth e c ≡ some (set_dir_auth d auth c)
unfolding adjust_subtree_auth
adjust-old t m d auth e c low key up = rw (low, up, key) (ground arith)

adjust-new :
    (t : Tree) (m : Daemon) (d : ℕ) (auth : Authority) (e : Bool) (c : Cache) (root : ℕ)
    → t.is_base d ≡ false
    → has_key root c.subtrees ≡ true
    → has_key d c.subtrees ≡ false
    → (root == d) ≡ false
    → get_subtree_root t c d ≡ some root
    → adjust_subtree_auth t m d auth e c
      ≡ some (call_if (e && not m.is_early) (eval_subtree_root d) (split_subtree t d root auth c))
unfolding adjust_subtree_auth
adjust-new t m d auth e c root low key new other up = rw (low, up, key, other, new) refl

-- In a tree of fragments and with the map right, a fragment that lies below a root, or that is in a
-- base inode and either a root or above none, can be given any authority but the default. It
-- becomes a root, the authority of the fragments whose next root it then is becomes that one, no
-- other's changes, and the map stays right.
pub adjust_subtree_auth_lem :
    (t : Tree) (m : Daemon) (d : ℕ) (auth : Authority) (e : Bool) (c : Cache)
    → IsTree t
    → IsMapped t c
    → auth_eq auth auth_default ≡ false
    → IsPlaced t c d
    → (c' : Cache) × (adjust_subtree_auth t m d auth e c ≡ some c') × IsAdjusted t d auth c c'
unfolding adjust_subtree_auth
adjust_subtree_auth_lem t m d auth e c w h known (base top alone) =
    elim (Bool-cases (is_root c d)) [
      | inl old ↦
          let done : bootstrap d c ≡ c = rw (h.keys d, old) refl in
          (
            set_dir_auth d auth c,
            adjust-base t m d auth e c top ∙ rw done refl,
            again t d auth c known w h old,
          )
      | inr new ↦ (
        set_dir_auth d auth (bootstrap d c),
        adjust-base t m d auth e c top,
        bootstrapped t d auth c known w h new (w.bases d top) (alone new),
      )
    ]
adjust_subtree_auth_lem t m d auth e c w h known (below low root up) =
    elim (Bool-cases (is_root c d)) [
      | inl old ↦ (
        set_dir_auth d auth c,
        adjust-old t m d auth e c low (h.keys d ∙ old) (at_root t c d old),
        again t d auth c known w h old,
      )
      | inr new ↦
          let next : parent_root t c d ≡ some root = sym (not_root t c d new) ∙ up in
          (
            call_if (e && not m.is_early) (eval_subtree_root d) (split_subtree t d root auth c),
            adjust-new t m d auth e c root low
                (h.keys root ∙ next-root t d auth c known w h new root next) (h.keys d ∙ new)
                (root-other t d auth c known w h new root next) up,
            called t d auth c (split_subtree t d root auth c) (e && not m.is_early)
                (eval_subtree_root d) (split_subtree_lem t d auth c known w h new root next),
          )
    ]
