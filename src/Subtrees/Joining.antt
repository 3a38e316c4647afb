-- ===== src/Subtrees/Joining.antt =====
-- mds/MDCache.cc, subtrees: merging at a fragment (try_subtree_merge_at), and at its bounds
-- (try_subtree_merge).
use mds.Prelude.{
  ℕ, ◌≡◌, refl, ◌∙◌, Bool, true, false, not, ◌&&◌, Option, some, List, [], ◌∷◌, ◌==◌, inl, inr,
  arith, Bool-cases, ==_iff, none, ap, assert, ◌>>◌,
}
use mds.Prelude.Int.{negsuc}
use mds.Dir.Freeze.{eq_ℤ}
use mds.Subtrees.{
  auth_eq, Tree, Daemon, Call, Cache, mem, has_key, bounds_of, is_root, call_if, eval_subtree_root,
  journal_merged, parent_root, get_subtree_root, authority, merge_subtree, try_subtree_merge_at,
  try_subtree_merge, merge_each,
}
use mds.Subtrees.Walks.{IsTree, above_irreflexive, first-mem, is_distinct}
use mds.Subtrees.Mapped.{IsMapped}
use mds.Subtrees.Merging.{IsRooted, IsMerged, merge_subtree_lem, parent-other}

abbrev is_of : Cache → ℕ → Option ℕ → Bool
is_of c d none = false
is_of c d (some p) = auth_eq (c.dir_auth p) (c.dir_auth d)

-- The root is no longer one: that above it has the same authority, which is one rank, and the root
-- is not a bound of an export.
abbrev pub joins : Tree → Cache → ℕ → Bool
joins t c d =
    not (t.is_base d)
    && is_of c d (parent_root t c d)
    && eq_ℤ (c.dir_auth d).second (negsuc 1)
    && not (t.is_export_bound d)

unmerged : (t : Tree) (d : ℕ) (c : Cache) → IsMapped t c → IsRooted t c → IsMerged t d false c c
unmerged t d c m h = record {
  mapped = m;
  rooted = h;
  roots = λ x. ground arith;
  authorities = λ x. refl;
}

called :
    (t : Tree) (d : ℕ) (gone : Bool) (c c' : Cache) (b : Bool) (k : Call)
    → IsMerged t d gone c c'
    → IsMerged t d gone c (call_if b k c')
unfolding get_subtree_root
called t d gone c c' b k h = record {
  mapped = record {
    keys = h.mapped.keys;
    bounds = h.mapped.bounds;
    sets = h.mapped.sets;
    pins = h.mapped.pins;
  };
  rooted = record { tops = h.rooted.tops };
  roots = h.roots;
  authorities = h.authorities;
}

-- In a tree of fragments, with the map right and every root but those in base inodes below another:
-- merging at a root succeeds, the root is one no longer exactly if `joins` holds, every other stays
-- one, the map stays right and no fragment's authority changes.
pub try_subtree_merge_at_lem :
    (t : Tree) (m : Daemon) (d : ℕ) (e : Bool) (c : Cache)
    → IsTree t
    → IsMapped t c
    → IsRooted t c
    → is_root c d ≡ true
    → (c' : Cache) × (try_subtree_merge_at t m d e c ≡ some c') × IsMerged t d (joins t c d) c c'
unfolding try_subtree_merge_at
try_subtree_merge_at_lem t m d e c w h r root = elim (Bool-cases (t.is_base d)) [
  | inl base ↦ rw (base) (c, rw (h.keys d, root) (ground arith), unmerged t d c h r)
  | inr low ↦
      let up = r.tops d low root in
      let other = parent-other t d up.0 c w h root up.1 in
      elim (Bool-cases (joins t c d)) [
        | inl yea ↦
            let agrees : auth_eq (c.dir_auth up.0) (c.dir_auth d) ≡ true =
              ground (arith, yea, up.1) in
            let sec : eq_ℤ (c.dir_auth d).second (negsuc 1) ≡ true = ground (arith, yea) in
            let free : t.is_export_bound d ≡ false = ground (arith, yea) in
            rw yea (
              call_if (t.inode_journals d && m.is_late) (journal_merged d)
                  (call_if (e && not m.is_early) (eval_subtree_root d) (merge_subtree t d up.0 c)),
              rw (low, h.keys d, root, up.1, other, agrees, sec, free) refl,
              called t d true c _ (t.inode_journals d && m.is_late) (journal_merged d) (
                  called t d true c _ (e && not m.is_early) (eval_subtree_root d)
                    (merge_subtree_lem t d up.0 c w h root up.1 agrees r)),
            )
        | inr nay ↦
            let off : (not (up.0 == d)
                  && auth_eq (c.dir_auth up.0) (c.dir_auth d)
                  && eq_ℤ (c.dir_auth d).second (negsuc 1)
                  && not (t.is_export_bound d))
                ≡ false =
              ground (arith, nay, low, up.1) in
            rw nay (c, rw (low, h.keys d, root, up.1, off) refl, unmerged t d c h r)
      ]
]

-- Some of these roots are no longer roots, and no fragment's authority changes.
pub record IsReduced (t : Tree) (bs : List ℕ) (c c' : Cache) : Type 0 where
  pub mapped : IsMapped t c'
  pub rooted : IsRooted t c'
  pub fewer : (x : ℕ) → is_root c' x ≡ true → is_root c x ≡ true
  pub others : (x : ℕ) → mem x bs ≡ false → is_root c' x ≡ is_root c x
  pub authorities : (x : ℕ) → authority t c' x ≡ authority t c x

reduce_more :
    (t : Tree) (b : ℕ) (bs : List ℕ) (gone : Bool) (c c₁ c' : Cache)
    → IsMerged t b gone c c₁
    → IsReduced t bs c₁ c'
    → IsReduced t (b ∷ bs) c c'
reduce_more t b bs gone c c₁ c' s h = record {
  mapped = h.mapped;
  rooted = h.rooted;
  fewer = λ x root. ground (arith, h.fewer x root, s.roots x);
  others = λ x free. ground (arith, free, h.others x (ground (arith, free)), s.roots x);
  authorities = λ x. h.authorities x ∙ s.authorities x;
}

merge_each_lem :
    (t : Tree) (m : Daemon) (bs : List ℕ) (c : Cache)
    → IsTree t
    → IsMapped t c
    → IsRooted t c
    → is_distinct bs ≡ true
    → ((b : ℕ) → mem b bs ≡ true → is_root c b ≡ true)
    → (c' : Cache) × (merge_each t m bs c ≡ some c') × IsReduced t bs c c'
merge_each_lem t m [] c w h r once roots = (
  c,
  refl,
  record {
    mapped = h;
    rooted = r;
    fewer = λ x e. e;
    others = λ x e. refl;
    authorities = λ x. refl;
  },
)
merge_each_lem t m (b ∷ bs) c w h r once roots =
    let s = try_subtree_merge_at_lem t m b true c w h r (roots b (ground arith)) in
    let still : (x : ℕ) → mem x bs ≡ true → is_root s.0 x ≡ true =
      λ x old. still_root s.0 s.2 x old in
    let rest = merge_each_lem t m bs s.0 w s.2.mapped s.2.rooted (ground (arith, once)) still in
    (rest.0, rw s.1 rest.1, reduce_more t b bs (joins t c b) c s.0 rest.0 s.2 rest.2)
  where
    still_root :
        (c₁ : Cache)
        → IsMerged t b (joins t c b) c c₁
        → (x : ℕ) → mem x bs ≡ true
        → is_root c₁ x ≡ true
    still_root c₁ s x old = elim (Bool-cases (x == b)) [
      | inl same ↦ absurd (ground (arith, once, old, ap (λ y. mem y bs) ((==_iff x b).0 same)))
      | inr other ↦ ground (arith, s.roots x, other, roots x (ground (arith, old)))
    ]

asserted : (b : Bool) (o : Option Cache) → b ≡ true → (assert b >> o) ≡ o
asserted b o h = rw h refl

-- In a tree of fragments, with the map right and every root but those in base inodes below another:
-- merging at a root and at each of its bounds succeeds, all other roots stay roots and there is
-- none more, the map stays right and no fragment's authority changes.
pub try_subtree_merge_lem :
    (t : Tree) (m : Daemon) (d : ℕ) (c : Cache)
    → IsTree t
    → IsMapped t c
    → IsRooted t c
    → is_root c d ≡ true
    → (c' : Cache) × (try_subtree_merge t m d c ≡ some c')
      × IsReduced t (d ∷ bounds_of d c.subtrees) c c'
unfolding try_subtree_merge
try_subtree_merge_lem t m d c w h r root =
    let bs = bounds_of d c.subtrees in
    let apart : mem d bs ≡ false =
      ground (arith, h.bounds d d, above_irreflexive t d w, first-mem (is_root c) d (t.above d)) in
    let all = merge_each_lem t m (d ∷ bs) c w h r (ground (arith, h.sets d, apart)) (λ b e.
      elim (Bool-cases (b == d)) [
        | inl same ↦ ap (is_root c) ((==_iff b d).0 same) ∙ root
        | inr other ↦ ground (arith, h.bounds d b, e, other)
      ]) in
    (
      all.0,
      asserted (has_key d c.subtrees) (merge_each t m (d ∷ bs) c) (h.keys d ∙ root) ∙ all.1,
      all.2,
    )
