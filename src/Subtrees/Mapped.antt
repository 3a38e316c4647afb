-- ===== src/Subtrees/Mapped.antt =====
-- mds/MDCache.cc, subtrees: what the map holds, and what a change of the root of one fragment does
-- to it.
use mds.Prelude.{
  ℕ, ◌≡◌, refl, ◌∙◌, true, false, ◌&&◌, ◌||◌, Option, some, ◌==◌, inl, inr, if◌then◌else◌, arith,
  Bool-cases, ==_iff, none, ap,
}
use mds.Subtrees.{
  Authority, auth_eq, auth_default, Tree, Cache, mem, has_key, bounds_of, update, is_root,
  parent_root, get_subtree_root, auth_at, authority, is_some_eq, set_dir_auth,
}
use mds.Subtrees.Walks.{first_miss, is_distinct}

-- The map has an entry for each root, which is pinned once, and the bounds of a root are the roots
-- whose next root above is that one.
pub record IsMapped (t : Tree) (c : Cache) : Type 0 where
  pub keys : (d : ℕ) → has_key d c.subtrees ≡ is_root c d
  pub bounds :
      (r b : ℕ) → mem b (bounds_of r c.subtrees) ≡ (is_root c b && is_some_eq (parent_root t c b) r)
  pub sets : (r : ℕ) → is_distinct (bounds_of r c.subtrees) ≡ true
  pub pins : (d : ℕ) → c.pins d ≡ (if is_root c d then 1 else 0)

-- The authority of the fragments whose next root is this one becomes the given one, and no other's
-- changes.
pub record IsAdjusted (t : Tree) (dir : ℕ) (auth : Authority) (c c' : Cache) : Type 0 where
  pub mapped : IsMapped t c'
  pub roots : (x : ℕ) → is_root c' x ≡ (is_root c x || x == dir)
  pub authorities :
      (x : ℕ)
      → authority t c' x
        ≡ (if is_some_eq (get_subtree_root t c' x) dir then auth else authority t c x)

pub is_some_eq-some : (o : Option ℕ) (d : ℕ) → is_some_eq o d ≡ true → o ≡ some d
is_some_eq-some none d h = absurd (ground (arith, h))
is_some_eq-some (some r) d h = ap some ((==_iff r d).0 h)

module _ (t : Tree) (dir : ℕ) (auth : Authority) (c : Cache)
    (known : auth_eq auth auth_default ≡ false) where
  pub is_root-set_dir_auth :
      (x : ℕ) → is_root (set_dir_auth dir auth c) x ≡ (is_root c x || x == dir)
  is_root-set_dir_auth x = elim (Bool-cases (x == dir)) [
    | inl same ↦ ground (arith, same, known)
    | inr other ↦ ground (arith, other)
  ]

  reading :
      (b : Authority) (o : Option ℕ)
      → auth_at b (update c.dir_auth dir auth) o
        ≡ (if is_some_eq o dir then auth else auth_at b c.dir_auth o)
  reading b none = refl
  reading b (some r) = ground arith

  same_root :
      (x : ℕ)
      → is_some_eq (get_subtree_root t (set_dir_auth dir auth c) x) dir ≡ false
      → get_subtree_root t (set_dir_auth dir auth c) x ≡ get_subtree_root t c x
  unfolding get_subtree_root
  same_root x h = elim (Bool-cases (is_root (set_dir_auth dir auth c) x)) [
    | inl e ↦
        let old : is_root c x ≡ true = ground (arith, rw e at h, is_root-set_dir_auth x, e) in
        rw (e, old) refl
    | inr e ↦
        let old : is_root c x ≡ false = ground (arith, is_root-set_dir_auth x, e) in
        rw (e, old)
          (first_miss (is_root c) (is_root (set_dir_auth dir auth c)) dir is_root-set_dir_auth
            (t.above x) (rw e at h))
  ]

  pub authority-set_dir_auth :
      (x : ℕ)
      → authority t (set_dir_auth dir auth c) x ≡ (
          if is_some_eq (get_subtree_root t (set_dir_auth dir auth c) x) dir
          then auth
          else authority t c x)
  authority-set_dir_auth x =
      elim (Bool-cases (is_some_eq (get_subtree_root t (set_dir_auth dir auth c) x) dir)) [
        | inl e ↦
            rw e
              (reading (t.base_auth x) (get_subtree_root t (set_dir_auth dir auth c) x) ∙ rw e refl)
        | inr e ↦ rw e (
            reading (t.base_auth x) (get_subtree_root t (set_dir_auth dir auth c) x)
            ∙ rw (e, same_root x e) refl)
      ]
