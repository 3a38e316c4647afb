-- ===== src/Subtrees/Merging.antt =====
-- mds/MDCache.cc, subtrees: the root of a subtree becomes part of the next one above.
use mds.Prelude.{
  ℕ, ◌≡◌, refl, sym, ◌∙◌, Bool, true, false, not, ◌&&◌, ◌||◌, Option, some, ◌==◌, inl, inr,
  if◌then◌else◌, arith, Bool-cases, ==_iff, none, ap, put,
}
use mds.Prelude.Int.{ℤ, pos, negsuc}
use mds.Dir.Freeze.{eq_ℤ}
use mds.Subtrees.{
  Authority, auth_eq, Tree, Cache, mem, has_key, bounds_of, forget, is_root, parent_root,
  get_subtree_root, auth_at, authority, is_some_eq, merge_subtree, union, without,
}
use mds.Subtrees.Walks.{
  IsTree, above_irreflexive, first-true, first-mem, first_miss, first_hit, first_without, mem-keep,
  mem-union, bounds_of-put, has_key-put, bounds_of-forget, has_key-forget, is_distinct,
  is_distinct-keep, is_distinct-union,
}
use mds.Subtrees.Mapped.{IsMapped, is_some_eq-some}

-- Every root but those in base inodes has a root above.
pub record IsRooted (t : Tree) (c : Cache) : Type 0 where
  pub tops :
      (d : ℕ) → t.is_base d ≡ false → is_root c d ≡ true → (p : ℕ) × (parent_root t c d ≡ some p)

-- A root is gone, if so, and no fragment's authority changes.
pub record IsMerged (t : Tree) (d : ℕ) (gone : Bool) (c c' : Cache) : Type 0 where
  pub mapped : IsMapped t c'
  pub rooted : IsRooted t c'
  pub roots : (x : ℕ) → is_root c' x ≡ (is_root c x && not (x == d && gone))
  pub authorities : (x : ℕ) → authority t c' x ≡ authority t c x

eq_ℤ-≡ : (a b : ℤ) → eq_ℤ a b ≡ true → a ≡ b
eq_ℤ-≡ (pos m) (pos n) h = ap pos (ground (arith, h))
eq_ℤ-≡ (pos m) (negsuc n) h = absurd (ground (arith, h))
eq_ℤ-≡ (negsuc m) (pos n) h = absurd (ground (arith, h))
eq_ℤ-≡ (negsuc m) (negsuc n) h = ap negsuc (ground (arith, h))

abbrev both : ℤ → ℤ → Authority
both x y = record { first = x; second = y }

auth_eq-≡ : (a b : Authority) → auth_eq a b ≡ true → a ≡ b
auth_eq-≡ a b h =
    ap (λ x. both x a.second) (eq_ℤ-≡ a.first b.first (ground (arith, h)))
    ∙ ap (both b.first) (eq_ℤ-≡ a.second b.second (ground (arith, h)))

module _ (t : Tree) (d p : ℕ) (c : Cache) (w : IsTree t) (m : IsMapped t c)
    (old : is_root c d ≡ true) (next : parent_root t c d ≡ some p) where
  pub parent-other : (p == d) ≡ false
  parent-other = elim (Bool-cases (p == d)) [
    | inl same ↦ absurd (
        ground (
          arith,
          above_irreflexive t d w,
          first-mem (is_root c) d (t.above d) (ground (arith, next, same)),
        ))
    | inr other ↦ other
  ]

  gone : (x : ℕ) → is_root (merge_subtree t d p c) x ≡ (is_root c x && not (x == d))
  unfolding merge_subtree
  gone x = elim (Bool-cases (x == d)) [
    | inl same ↦ ground (arith, same)
    | inr other ↦ ground (arith, other)
  ]

  more : (x : ℕ) → is_root c x ≡ (is_root (merge_subtree t d p c) x || x == d)
  more x = elim (Bool-cases (x == d)) [
    | inl same ↦ ground (arith, same, gone x, ap (is_root c) ((==_iff x d).0 same), old)
    | inr other ↦ ground (arith, other, gone x)
  ]

  plain : is_root (merge_subtree t d p c) d ≡ false
  plain = ground (arith, gone d)

  -- The roots above after the change: of the fragment itself, of one whose root it was, and of any
  -- other.
  above_it : parent_root t (merge_subtree t d p c) d ≡ some p
  above_it =
      sym (
        first_without (is_root (merge_subtree t d p c)) (is_root c) d more (t.above d)
          (above_irreflexive t d w))
      ∙ next

  above_moved :
      (b : ℕ)
      → is_some_eq (parent_root t c b) d ≡ true
      → parent_root t (merge_subtree t d p c) b ≡ some p
  above_moved b h =
      first_hit (is_root (merge_subtree t d p c)) (is_root c) d more plain t (t.above b)
        (w.chains b) h
      ∙ above_it

  above_other :
      (b : ℕ)
      → is_some_eq (parent_root t c b) d ≡ false
      → parent_root t (merge_subtree t d p c) b ≡ parent_root t c b
  above_other b h =
      sym (first_miss (is_root (merge_subtree t d p c)) (is_root c) d more (t.above b) h)

  merge_entry :
      (r b : ℕ)
      → mem b (bounds_of r (merge_subtree t d p c).subtrees) ≡ (
          if r == p
          then not (b == d) && (mem b (bounds_of d c.subtrees) || mem b (bounds_of p c.subtrees))
          else if r == d
          then false
          else mem b (bounds_of r c.subtrees))
  unfolding merge_subtree
  merge_entry r b =
      let us = union (bounds_of d c.subtrees) (bounds_of p c.subtrees) in
      let m₁ = put p us c.subtrees in
      ground (
        arith,
        bounds_of-put r p (without d (bounds_of p (forget d m₁))) (forget d m₁),
        mem-keep b (λ y. not (y == d)) (bounds_of p (forget d m₁)),
        bounds_of-forget p d m₁,
        bounds_of-forget r d m₁,
        bounds_of-put p p us c.subtrees,
        bounds_of-put r p us c.subtrees,
        mem-union b (bounds_of d c.subtrees) (bounds_of p c.subtrees),
        parent-other,
      )

  merge_sets : (r : ℕ) → is_distinct (bounds_of r (merge_subtree t d p c).subtrees) ≡ true
  unfolding merge_subtree
  merge_sets r =
      let us = union (bounds_of d c.subtrees) (bounds_of p c.subtrees) in
      let m₁ = put p us c.subtrees in
      let joined : is_distinct (bounds_of p (forget d m₁)) ≡ true = ground (
        arith,
        bounds_of-forget p d m₁,
        bounds_of-put p p us c.subtrees,
        parent-other,
        is_distinct-union (bounds_of d c.subtrees) (bounds_of p c.subtrees) (m.sets p),
      ) in
      ground (
        arith,
        bounds_of-put r p (without d (bounds_of p (forget d m₁))) (forget d m₁),
        is_distinct-keep (λ y. not (y == d)) (bounds_of p (forget d m₁)) joined,
        bounds_of-forget r d m₁,
        bounds_of-put r p us c.subtrees,
        m.sets r,
      )

  merge_bounds :
      (r b : ℕ)
      → mem b (bounds_of r (merge_subtree t d p c).subtrees) ≡ (
          is_root (merge_subtree t d p c) b
          && is_some_eq (parent_root t (merge_subtree t d p c) b) r)
  merge_bounds r b =
      merge_entry r b
      ∙ rw (m.bounds d b, m.bounds p b, m.bounds r b, gone b)
          (elim (Bool-cases (b == d)) [
            | inl same ↦
                let e : b ≡ d = (==_iff b d).0 same in rw (e, next) (ground (arith, parent-other))
            | inr other ↦ elim (Bool-cases (is_some_eq (parent_root t c b) d)) [
              | inl moved ↦
                  rw (is_some_eq-some (parent_root t c b) d moved, above_moved b moved, other)
                    (ground (arith, parent-other))
              | inr kept ↦ rw (above_other b kept, other) (ground (arith, parent-other, kept))
            ]
          ])

  merge_keys :
      (x : ℕ) → has_key x (merge_subtree t d p c).subtrees ≡ is_root (merge_subtree t d p c) x
  unfolding merge_subtree
  merge_keys x =
      let us = union (bounds_of d c.subtrees) (bounds_of p c.subtrees) in
      let m₁ = put p us c.subtrees in
      ground (
        arith,
        has_key-put x p (without d (bounds_of p (forget d m₁))) (forget d m₁),
        has_key-forget x d m₁,
        has_key-put x p us c.subtrees,
        m.keys x,
        gone x,
        parent-other,
        first-true (is_root c) p (t.above d) (ground (arith, next)),
      )

  merge_pins :
      (x : ℕ)
      → (merge_subtree t d p c).pins x ≡ (if is_root (merge_subtree t d p c) x then 1 else 0)
  unfolding merge_subtree
  merge_pins x = ground (arith, m.pins x, m.pins d, old, gone x)

  merge_dir_auth : (x : ℕ) → (x == d) ≡ false → (merge_subtree t d p c).dir_auth x ≡ c.dir_auth x
  unfolding merge_subtree
  merge_dir_auth x other = rw other refl

  merge-IsRooted : IsRooted t c → IsRooted t (merge_subtree t d p c)
  merge-IsRooted h = record {
    tops = λ x low root. elim (Bool-cases (is_some_eq (parent_root t c x) d)) [
      | inl moved ↦ (p, above_moved x moved)
      | inr kept ↦
          let up = h.tops x low (ground (arith, gone x, root)) in (up.0, above_other x kept ∙ up.1)
    ];
  }

  module _ (agrees : auth_eq (c.dir_auth p) (c.dir_auth d) ≡ true) where
    same : c.dir_auth p ≡ c.dir_auth d
    same = auth_eq-≡ (c.dir_auth p) (c.dir_auth d) agrees

    -- The authority of a root, where it is read: at the fragments above.
    merged_above :
        (x : ℕ)
        → auth_at
            (t.base_auth x)
            (merge_subtree t d p c).dir_auth
            (parent_root t (merge_subtree t d p c) x)
          ≡ auth_at (t.base_auth x) c.dir_auth (parent_root t c x)
    merged_above x = elim (Bool-cases (is_some_eq (parent_root t c x) d)) [
      | inl moved ↦
          rw
            (
              above_moved x moved,
              is_some_eq-some (parent_root t c x) d moved,
              merge_dir_auth p parent-other,
              same,
            )
            refl
      | inr kept ↦ rw (above_other x kept) (elsewhere (parent_root t c x) kept)
    ]
      where
        elsewhere :
            (o : Option ℕ)
            → is_some_eq o d ≡ false
            → auth_at (t.base_auth x) (merge_subtree t d p c).dir_auth o
              ≡ auth_at (t.base_auth x) c.dir_auth o
        elsewhere none h = refl
        elsewhere (some r) h = merge_dir_auth r h

    merged_authority : (x : ℕ) → authority t (merge_subtree t d p c) x ≡ authority t c x
    unfolding get_subtree_root
    merged_authority x = elim (Bool-cases (x == d)) [
      | inl e ↦
          let now : x ≡ d = (==_iff x d).0 e in
          rw (now, plain, old, above_it, merge_dir_auth p parent-other, same) refl
      | inr other ↦ elim (Bool-cases (is_root c x)) [
        | inl root ↦
            let still : is_root (merge_subtree t d p c) x ≡ true =
              ground (arith, gone x, root, other) in
            rw (still, root) (merge_dir_auth x other)
        | inr low ↦
            let still : is_root (merge_subtree t d p c) x ≡ false = ground (arith, gone x, low) in
            rw (still, low) (merged_above x)
      ]
    ]

    pub merge_subtree_lem : IsRooted t c → IsMerged t d true c (merge_subtree t d p c)
    merge_subtree_lem h = record {
      mapped = record {
        keys = merge_keys;
        bounds = merge_bounds;
        sets = merge_sets;
        pins = merge_pins;
      };
      rooted = merge-IsRooted h;
      roots = λ x. ground (arith, gone x);
      authorities = merged_authority;
    }
