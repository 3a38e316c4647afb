-- ===== src/Subtrees/Splitting.antt =====
-- mds/MDCache.cc, subtrees: a fragment that is a root gets another authority, and one that is none
-- becomes one.
use mds.Prelude.{
  ℕ, ◌≡◌, refl, put, sym, ◌∙◌, true, false, not, ◌&&◌, ◌||◌, some, [], ◌==◌, inl, inr,
  if◌then◌else◌, arith, Bool-cases, ==_iff, ap,
}
use mds.Subtrees.{
  Authority, auth_eq, auth_default, Tree, Cache, mem, bounds_of, is_root, parent_root,
  get_subtree_root, is_some_eq, set_dir_auth, bootstrap, split_subtree, claimed, unclaimed, insert,
}
use mds.Subtrees.Walks.{
  IsTree, above_irreflexive, first-true, first_miss, first_hit, first_without, first-same,
  is_distinct, is_distinct-keep, is_distinct-insert, mem-insert, mem-keep, bounds_of-put,
  has_key-put,
}
use mds.Subtrees.Mapped.{
  IsMapped, IsAdjusted, is_some_eq-some, is_root-set_dir_auth, authority-set_dir_auth,
}

pub at_root : (t : Tree) (c : Cache) (d : ℕ) → is_root c d ≡ true → get_subtree_root t c d ≡ some d
unfolding get_subtree_root
at_root t c d h = rw h refl

pub not_root :
    (t : Tree) (c : Cache) (d : ℕ)
    → is_root c d ≡ false
    → get_subtree_root t c d ≡ parent_root t c d
unfolding get_subtree_root
not_root t c d h = rw h refl

module _ (t : Tree) (d : ℕ) (auth : Authority) (c : Cache)
    (known : auth_eq auth auth_default ≡ false) (w : IsTree t) (m : IsMapped t c) where
  -- It is a root already.
  pub again : is_root c d ≡ true → IsAdjusted t d auth c (set_dir_auth d auth c)
  again old = record {
    mapped = record {
      keys = λ x. m.keys x ∙ sym (same x);
      bounds = λ r b.
          m.bounds r b
          ∙ sym (
              rw (same b, first-same (is_root c) (is_root (set_dir_auth d auth c)) same (t.above b))
                refl);
      sets = m.sets;
      pins = λ x. rw (same x) (m.pins x);
    };
    roots = is_root-set_dir_auth t d auth c known;
    authorities = authority-set_dir_auth t d auth c known;
  }
    where
      same : (x : ℕ) → is_root (set_dir_auth d auth c) x ≡ is_root c x
      same x = elim (Bool-cases (x == d)) [
        | inl e ↦ ground (
          arith,
          is_root-set_dir_auth t d auth c known x,
          e,
          ap (is_root c) ((==_iff x d).0 e),
          old,
        )
        | inr e ↦ ground (arith, is_root-set_dir_auth t d auth c known x, e)
      ]

  -- It is in a base inode, and new: no root is moved below it.
  bounds_below :
      is_root c d ≡ false
      → t.above d ≡ []
      → ((b : ℕ) → is_root c b ≡ true → mem d (t.above b) ≡ false)
      → (b r : ℕ)
      → (is_root (set_dir_auth d auth c) b
          && is_some_eq (parent_root t (set_dir_auth d auth c) b) r)
        ≡ (if r == d then false else is_root c b && is_some_eq (parent_root t c b) r)
  bounds_below new top alone b r = elim (Bool-cases (b == d)) [
    | inl same ↦ let e : b ≡ d = (==_iff b d).0 same in rw (e, top, new) (ground arith)
    | inr other ↦ elim (Bool-cases (is_root c b)) [
      | inl root ↦
          let walk =
            first_without (is_root c) (is_root (set_dir_auth d auth c)) d
              (is_root-set_dir_auth t d auth c known) (t.above b) (alone b root) in
          elim (Bool-cases (is_some_eq (parent_root t c b) d)) [
            | inl there ↦ absurd (ground (arith, first-true (is_root c) d (t.above b) there, new))
            | inr elsewhere ↦
                ground
                  (arith, walk, elsewhere, other, is_root-set_dir_auth t d auth c known b, root)
          ]
      | inr plain ↦ rw (is_root-set_dir_auth t d auth c known b, plain, other) (ground arith)
    ]
  ]

  pub bootstrapped :
      is_root c d ≡ false
      → t.above d ≡ []
      → ((b : ℕ) → is_root c b ≡ true → mem d (t.above b) ≡ false)
      → IsAdjusted t d auth c (set_dir_auth d auth (bootstrap d c))
  unfolding get_subtree_root
  bootstrapped new top alone =
      rw (m.keys d, new)
        record {
          mapped = record {
            keys = λ x. ground (
              arith,
              has_key-put x d [] c.subtrees,
              m.keys x,
              is_root-set_dir_auth t d auth c known x,
            );
            bounds = λ r b. ground (
              arith,
              bounds_of-put r d [] c.subtrees,
              m.bounds r b,
              bounds_below new top alone b r,
            );
            sets = λ r. ground (arith, bounds_of-put r d [] c.subtrees, m.sets r);
            pins = λ x.
                ground (arith, m.pins x, is_root-set_dir_auth t d auth c known x, m.pins d, new);
          };
          roots = is_root-set_dir_auth t d auth c known;
          authorities = authority-set_dir_auth t d auth c known;
        }

  module _ (new : is_root c d ≡ false) (root : ℕ) (next : parent_root t c d ≡ some root) where
    pub next-root : is_root c root ≡ true
    next-root = first-true (is_root c) root (t.above d) (ground (arith, next))

    pub root-other : (root == d) ≡ false
    root-other = elim (Bool-cases (root == d)) [
      | inl same ↦ absurd (ground (arith, ap (is_root c) ((==_iff root d).0 same), next-root, new))
      | inr other ↦ other
    ]

    -- The roots above after the change: of the fragment itself, of one that is claimed, and of any
    -- other.
    above_it : parent_root t (set_dir_auth d auth c) d ≡ some root
    above_it =
        first_without (is_root c) (is_root (set_dir_auth d auth c)) d
          (is_root-set_dir_auth t d auth c known) (t.above d) (above_irreflexive t d w)
        ∙ next

    above_claimed :
        (b : ℕ)
        → is_some_eq (parent_root t (set_dir_auth d auth c) b) d ≡ true
        → parent_root t c b ≡ some root
    above_claimed b h =
        first_hit (is_root c) (is_root (set_dir_auth d auth c)) d
          (is_root-set_dir_auth t d auth c known) new t (t.above b) (w.chains b) h
        ∙ next

    above_other :
        (b : ℕ)
        → is_some_eq (parent_root t (set_dir_auth d auth c) b) d ≡ false
        → parent_root t (set_dir_auth d auth c) b ≡ parent_root t c b
    above_other b h =
        first_miss (is_root c) (is_root (set_dir_auth d auth c)) d
          (is_root-set_dir_auth t d auth c known) (t.above b) h

    -- The bounds as the code sets them.
    split_entry :
        (r b : ℕ)
        → mem b (bounds_of r (split_subtree t d root auth c).subtrees) ≡ (
            if r == root
            then b == d
              || (not (is_some_eq (parent_root t (set_dir_auth d auth c) b) d)
                  && mem b (bounds_of root c.subtrees))
            else if r == d
            then is_some_eq (parent_root t (set_dir_auth d auth c) b) d
              && mem b (bounds_of root c.subtrees)
            else mem b (bounds_of r c.subtrees))
    unfolding split_subtree
    split_entry r b =
        let c₁ = set_dir_auth d auth c in
        let bs = bounds_of root (put d [] c.subtrees) in
        let m₁ = put d (claimed t c₁ d bs) (put d [] c.subtrees) in
        let rest = unclaimed t c₁ d bs in
        ground (
          arith,
          bounds_of-put r root (insert d rest) m₁,
          bounds_of-put r d (claimed t c₁ d bs) (put d [] c.subtrees),
          bounds_of-put r d [] c.subtrees,
          bounds_of-put root d [] c.subtrees,
          root-other,
          mem-insert b d rest,
          mem-keep b (λ x. is_some_eq (parent_root t c₁ x) d) bs,
          mem-keep b (λ x. not (is_some_eq (parent_root t c₁ x) d)) bs,
        )

    split_bounds :
        (r b : ℕ)
        → mem b (bounds_of r (split_subtree t d root auth c).subtrees) ≡ (
            is_root (set_dir_auth d auth c) b
            && is_some_eq (parent_root t (set_dir_auth d auth c) b) r)
    split_bounds r b =
        split_entry r b
        ∙ rw (m.bounds root b, m.bounds r b, is_root-set_dir_auth t d auth c known b)
            (elim (Bool-cases (b == d)) [
              | inl same ↦
                  let e : b ≡ d = (==_iff b d).0 same in
                  rw (e, above_it, new) (ground (arith, root-other))
              | inr other ↦
                  elim (Bool-cases (is_some_eq (parent_root t (set_dir_auth d auth c) b) d)) [
                    | inl moved ↦
                        rw
                          (
                            is_some_eq-some (parent_root t (set_dir_auth d auth c) b) d moved,
                            above_claimed b moved,
                            other,
                          )
                          (ground (arith, root-other))
                    | inr kept ↦
                        rw (above_other b kept, other)
                          (ground (
                            arith,
                            root-other,
                            sym (ap (λ o. is_some_eq o d) (above_other b kept)) ∙ kept,
                          ))
                  ]
            ])

    split_sets : (r : ℕ) → is_distinct (bounds_of r (split_subtree t d root auth c).subtrees) ≡ true
    unfolding split_subtree
    split_sets r =
        let c₁ = set_dir_auth d auth c in
        let bs = bounds_of root (put d [] c.subtrees) in
        let m₁ = put d (claimed t c₁ d bs) (put d [] c.subtrees) in
        let rest = unclaimed t c₁ d bs in
        let old : is_distinct bs ≡ true =
          ground (arith, bounds_of-put root d [] c.subtrees, root-other, m.sets root) in
        ground (
          arith,
          bounds_of-put r root (insert d rest) m₁,
          bounds_of-put r d (claimed t c₁ d bs) (put d [] c.subtrees),
          bounds_of-put r d [] c.subtrees,
          m.sets r,
          is_distinct-keep (λ x. is_some_eq (parent_root t c₁ x) d) bs old,
          is_distinct-insert d rest
              (is_distinct-keep (λ x. not (is_some_eq (parent_root t c₁ x) d)) bs old),
        )

    pub split_subtree_lem : IsAdjusted t d auth c (split_subtree t d root auth c)
    unfolding split_subtree get_subtree_root
    split_subtree_lem = record {
      mapped = record {
        keys = λ x.
            let c₁ = set_dir_auth d auth c in
            let bs = bounds_of root (put d [] c.subtrees) in
            let m₁ = put d (claimed t c₁ d bs) (put d [] c.subtrees) in
            ground (
              arith,
              has_key-put x root (insert d (unclaimed t c₁ d bs)) m₁,
              has_key-put x d (claimed t c₁ d bs) (put d [] c.subtrees),
              has_key-put x d [] c.subtrees,
              m.keys x,
              m.keys root,
              next-root,
              is_root-set_dir_auth t d auth c known x,
            );
        bounds = split_bounds;
        sets = split_sets;
        pins =
            λ x. ground (arith, m.pins x, is_root-set_dir_auth t d auth c known x, m.pins d, new);
      };
      roots = is_root-set_dir_auth t d auth c known;
      authorities = authority-set_dir_auth t d auth c known;
    }
