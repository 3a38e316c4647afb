-- ===== src/Subtrees/Removing.antt =====
-- mds/MDCache.cc, subtrees: a root leaves the map before its fragment is closed (remove_subtree).
use mds.Prelude.{
  ℕ, ◌-◌, ◌≡◌, refl, sym, ◌∙◌, Bool, true, false, not, ◌&&◌, ◌||◌, Option, some, List, [], ◌∷◌,
  ◌==◌, inl, inr, if◌then◌else◌, arith, Bool-cases, ==_iff, ap, ◌>>=◌, ◌>>◌, assert,
}
use mds.Subtrees.{
  auth_default, Tree, Cache, mem, has_key, bounds_of, forget, is_root, parent_root, is_some_eq,
  without, put_pin, set_bounds, set_dir_auth,
}
use mds.Subtrees.Walks.{
  IsTree, above_irreflexive, first-true, first-mem, first_miss, first-same, mem-keep, bounds_of-put,
  has_key-put, bounds_of-forget, has_key-forget, is_distinct, is_distinct-keep,
}
use mds.Subtrees.Mapped.{IsMapped}
use mds.Subtrees.Merging.{IsRooted}

abbrev pub is_nil : List ℕ → Bool
is_nil [] = true
is_nil (x ∷ xs) = false

-- A null root above has no entry.
unfoldable pub remove_subtree : Tree → (dir : ℕ) → Cache → Option Cache
remove_subtree t dir c =
    let c₁ = put_pin dir (record c { subtrees = forget dir c.subtrees }) in
    assert (has_key dir c.subtrees)
    >> (assert (is_nil (bounds_of dir c.subtrees))
        >> (if is_nil (t.above dir)
            then some c₁
            else (parent_root t c₁ dir >>= λ p.
                (assert (mem dir (bounds_of p c₁.subtrees))
                  >> some (set_bounds p (without dir (bounds_of p c₁.subtrees)) c₁)))))

-- What is left once the fragment is closed: every other root, with its bounds and its pin.
pub record IsRemoved (t : Tree) (d : ℕ) (c c' : Cache) : Type 0 where
  pub dir_auths : (x : ℕ) → c'.dir_auth x ≡ c.dir_auth x
  pub mapped : IsMapped t (set_dir_auth d auth_default c')
  pub rooted : IsRooted t (set_dir_auth d auth_default c')

nil : (xs : List ℕ) → is_nil xs ≡ true → xs ≡ []
nil [] h = refl
nil (x ∷ xs) h = absurd (ground (arith, h))

module _ (t : Tree) (d : ℕ) (c : Cache) (w : IsTree t) (m : IsMapped t c) (up : IsRooted t c)
    (old : is_root c d ≡ true) (alone : bounds_of d c.subtrees ≡ []) where
  gone : (x : ℕ) → is_root (set_dir_auth d auth_default c) x ≡ (is_root c x && not (x == d))
  gone x = elim (Bool-cases (x == d)) [
    | inl same ↦ ground (arith, same)
    | inr other ↦ ground (arith, other)
  ]

  more : (x : ℕ) → is_root c x ≡ (is_root (set_dir_auth d auth_default c) x || x == d)
  more x = elim (Bool-cases (x == d)) [
    | inl same ↦ ground (arith, same, gone x, ap (is_root c) ((==_iff x d).0 same), old)
    | inr other ↦ ground (arith, other, gone x)
  ]

  -- No root's next root is this one.
  not_below : (b : ℕ) → is_root c b ≡ true → is_some_eq (parent_root t c b) d ≡ false
  not_below b root = ground (arith, m.bounds d b, ap (mem b) alone, root)

  above_same :
      (b : ℕ)
      → is_root c b ≡ true
      → parent_root t (set_dir_auth d auth_default c) b ≡ parent_root t c b
  above_same b root = sym (
      first_miss (is_root (set_dir_auth d auth_default c)) (is_root c) d more (t.above b)
        (not_below b root))

  -- A map without the root, in which it is no bound, is right.
  removed :
      (c' : Cache)
      → ((x : ℕ) → c'.dir_auth x ≡ c.dir_auth x)
      → ((x : ℕ) → has_key x c'.subtrees ≡ (not (x == d) && has_key x c.subtrees))
      → ((r b : ℕ)
          → mem b (bounds_of r c'.subtrees) ≡ (not (b == d) && mem b (bounds_of r c.subtrees)))
      → ((r : ℕ) → is_distinct (bounds_of r c'.subtrees) ≡ true)
      → ((x : ℕ) → c'.pins x ≡ (if x == d then c.pins x - 1 else c.pins x))
      → IsRemoved t d c c'
  removed c' dir_auths keys bounds sets pins = record {
    dir_auths = dir_auths;
    mapped = record {
      keys = λ x. keys x ∙ (rw (same x, m.keys x, gone x) (ground arith));
      bounds = λ r b.
          bounds r b
          ∙ rw
              (
                same b,
                first-same (is_root (set_dir_auth d auth_default c))
                    (is_root (set_dir_auth d auth_default c')) same (t.above b),
                gone b,
                m.bounds r b,
              )
              (reads r b);
      sets = sets;
      pins = λ x. ground (arith, same x, gone x, more x, pins x, m.pins x);
    };
    rooted = record {
      tops = λ x low root.
          let was : is_root c x ≡ true = ground (arith, same x, gone x, root) in
          let above = up.tops x low was in
          (
            above.0,
            first-same (is_root (set_dir_auth d auth_default c))
                  (is_root (set_dir_auth d auth_default c')) same (t.above x)
                ∙ above_same x was
                ∙ above.1,
          );
    };
  }
    where
      reads :
          (r b : ℕ)
          → (not (b == d) && (is_root c b && is_some_eq (parent_root t c b) r)) ≡ (
              (is_root c b && not (b == d))
              && is_some_eq (parent_root t (set_dir_auth d auth_default c) b) r)
      reads r b = elim (Bool-cases (is_root c b)) [
        | inl root ↦ rw (above_same b root) (ground (arith, root))
        | inr low ↦ rw low (ground (arith, low))
      ]

      same :
          (x : ℕ)
          → is_root (set_dir_auth d auth_default c') x ≡ is_root (set_dir_auth d auth_default c) x
      same x = ground (arith, dir_auths x)

  pinned_once : (x : ℕ) → (put_pin d c).pins x ≡ (if x == d then c.pins x - 1 else c.pins x)
  pinned_once x = ground arith

  -- In no base inode, or in one.
  remove-top :
      t.above d ≡ [] → IsRemoved t d c (put_pin d (record c { subtrees = forget d c.subtrees }))
  remove-top top =
      removed (put_pin d (record c { subtrees = forget d c.subtrees })) (λ x. refl)
        (λ x. has_key-forget x d c.subtrees)
        (λ r b. elim (Bool-cases (b == d)) [
          | inl same ↦ ground (
            arith,
            bounds_of-forget r d c.subtrees,
            same,
            m.bounds r b,
            ap (parent_root t c) ((==_iff b d).0 same),
            top,
          )
          | inr other ↦ ground (arith, bounds_of-forget r d c.subtrees, other, alone)
        ])
        (λ r. ground (arith, bounds_of-forget r d c.subtrees, m.sets r)) pinned_once

  module _ (p : ℕ) (next : parent_root t c d ≡ some p) where
    parent-other : (p == d) ≡ false
    parent-other = elim (Bool-cases (p == d)) [
      | inl same ↦ absurd (
          ground (
            arith,
            above_irreflexive t d w,
            first-mem (is_root c) d (t.above d) (ground (arith, next, same)),
          ))
      | inr other ↦ other
    ]

    is_bound : mem d (bounds_of p (forget d c.subtrees)) ≡ true
    is_bound =
        ground (arith, bounds_of-forget p d c.subtrees, parent-other, m.bounds p d, old, next)

    remove-bound : IsRemoved t d c (
        set_bounds p
          (without d (bounds_of p (forget d c.subtrees)))
          (put_pin d (record c { subtrees = forget d c.subtrees })))
    remove-bound =
        let bs = without d (bounds_of p (forget d c.subtrees)) in
        removed _ (λ x. refl)
          (λ x. ground (
            arith,
            has_key-put x p bs (forget d c.subtrees),
            has_key-forget x d c.subtrees,
            parent-other,
            m.keys p,
            first-true (is_root c) p (t.above d) (ground (arith, next)),
          ))
          (λ r b. elim (Bool-cases (b == d)) [
            | inl same ↦ ground (
              arith,
              bounds_of-put r p bs (forget d c.subtrees),
              bounds_of-forget r d c.subtrees,
              mem-keep b (λ y. not (y == d)) (bounds_of p (forget d c.subtrees)),
              same,
              m.bounds r b,
              ap (parent_root t c) ((==_iff b d).0 same),
              next,
            )
            | inr other ↦ ground (
              arith,
              bounds_of-put r p bs (forget d c.subtrees),
              bounds_of-forget r d c.subtrees,
              bounds_of-forget p d c.subtrees,
              parent-other,
              mem-keep b (λ y. not (y == d)) (bounds_of p (forget d c.subtrees)),
              other,
              alone,
            )
          ])
          (λ r. ground (
            arith,
            bounds_of-put r p bs (forget d c.subtrees),
            bounds_of-forget r d c.subtrees,
            m.sets r,
            is_distinct-keep (λ y. not (y == d)) (bounds_of p (forget d c.subtrees))
                (ground (arith, bounds_of-forget p d c.subtrees, parent-other, m.sets p)),
          ))
          pinned_once

-- In a tree of fragments, with the map right and every root but those in base inodes below another:
-- a root that has no bounds can be removed, which changes no fragment's authority, and the map is
-- right once the fragment is closed and so no root.
pub remove_subtree_lem :
    (t : Tree) (d : ℕ) (c : Cache)
    → IsTree t
    → IsMapped t c
    → IsRooted t c
    → is_root c d ≡ true
    → bounds_of d c.subtrees ≡ []
    → (c' : Cache) × (remove_subtree t d c ≡ some c') × IsRemoved t d c c'
unfolding remove_subtree
remove_subtree_lem t d c w m up old alone = elim (Bool-cases (is_nil (t.above d))) [
  | inl top ↦ (
    _,
    rw (m.keys d, old, alone, top) refl,
    remove-top t d c w m up old alone (nil (t.above d) top),
  )
  | inr deep ↦
      let low : t.is_base d ≡ false = elim (Bool-cases (t.is_base d)) [
        | inl base ↦ absurd (ground (arith, deep, ap is_nil (w.bases d base)))
        | inr low ↦ low
      ] in
      let next = up.tops d low old in
      (
        _,
        rw (m.keys d, old, alone, deep, next.1, is_bound t d c w m up old alone next.0 next.1) refl,
        remove-bound t d c w m up old alone next.0 next.1,
      )
]
