-- ===== src/Subtrees/Tests.antt =====
-- mds/MDCache.cc, subtrees: runs on a chain of fragments, each of which lies in those of smaller
-- numbers.
use mds.Prelude.{
  ℕ, zero, suc, ◌≡◌, refl, true, false, some, List, [], ◌∷◌, ◌==◌, inl, inr, if◌then◌else◌, arith,
  Bool-cases, ==_iff, ap, Map, ◌>>=◌,
}
use mds.Prelude.Int.{pos, negsuc}
use mds.Subtrees.{
  Authority, auth_default, Tree, Call, mem, bounds_of, Daemon, Cache, adjust_subtree_auth,
  try_subtree_merge, try_subtree_merge_at, get_subtree_root, eval_subtree_root, journal_merged,
  pop_sub, pop_add,
}
use mds.Subtrees.Walks.{IsTree, IsChain}
use mds.Subtrees.Mapped.{IsMapped, IsAdjusted}
use mds.Subtrees.Adjusting.{below, adjust_subtree_auth_lem}
use mds.Subtrees.Merging.{IsRooted, IsMerged}
use mds.Subtrees.Removing.{remove_subtree, IsRemoved, remove_subtree_lem}
use mds.Subtrees.Wouldbe.{get_wouldbe_subtree_bounds, get_wouldbe_subtree_bounds_lem}
use mds.Subtrees.Joining.{IsReduced, try_subtree_merge_at_lem, try_subtree_merge_lem}

abbrev down : ℕ → List ℕ
down zero = []
down (suc n) = n ∷ down n

abbrev chain : Tree
chain = record {
  above = down;
  is_base = λ d. d == 0;
  is_auth = λ d. true;
  is_export_bound = λ d. false;
  base_auth = λ d. record { first = pos 1; second = negsuc 1 };
  inode_journals = λ d. true;
}

chain-IsTree : IsTree chain
chain-IsTree = record { chains = chained; bases = λ d h. ap down ((==_iff d 0).0 h) }
  where
    chained : (d : ℕ) → IsChain chain (down d)
    chained zero = tt
    chained (suc n) = (refl, chained n)

abbrev active : Daemon
active = record { is_early = false; is_late = true }

abbrev rank : ℕ → Authority
rank r = record { first = pos r; second = negsuc 1 }

-- The daemon has the whole tree.
abbrev whole : Cache
whole = record {
  dir_auth = λ x. if x == 0 then rank 0 else auth_default;
  subtrees = (0, []) ∷ [];
  pins = λ x. if x == 0 then 1 else 0;
  calls = [];
}

whole-IsMapped : IsMapped chain whole
whole-IsMapped = record {
  keys = λ d. ground arith;
  bounds = λ r b. elim (Bool-cases (b == 0)) [
    | inl e ↦ rw ((==_iff b 0).0 e) (ground arith)
    | inr e ↦ rw e (ground arith)
  ];
  sets = λ r. ground arith;
  pins = λ d. ground arith;
}

-- Two subtrees with the same authority: the second begins two fragments below the first.
abbrev halves : Cache
halves = record {
  dir_auth = λ x. if x == 0 then rank 0 else if x == 2 then rank 0 else auth_default;
  subtrees = (0, 2 ∷ []) ∷ (2, []) ∷ [];
  pins = λ x. if x == 0 then 1 else if x == 2 then 1 else 0;
  calls = [];
}

halves-IsMapped : IsMapped chain halves
halves-IsMapped = record {
  keys = λ d. ground arith;
  bounds = λ r b. elim (Bool-cases (b == 0)) [
    | inl e ↦ rw ((==_iff b 0).0 e) (ground arith)
    | inr e ↦ elim (Bool-cases (b == 2)) [
      | inl f ↦ rw ((==_iff b 2).0 f) (ground arith)
      | inr f ↦ rw (e, f) (ground (arith, e, f))
    ]
  ];
  sets = λ r. ground arith;
  pins = λ d. ground arith;
}

halves-IsRooted : IsRooted chain halves
halves-IsRooted = record {
  tops = λ d low root. elim (Bool-cases (d == 2)) [
    | inl f ↦ rw ((==_iff d 2).0 f) (0, refl)
    | inr f ↦ absurd (ground (arith, low, root, f))
  ];
}

adjust_subtree_auth_example :
    (c' : Cache) × (adjust_subtree_auth chain active 2 (rank 1) true whole ≡ some c')
    × IsAdjusted chain 2 (rank 1) whole c'
unfolding get_subtree_root
adjust_subtree_auth_example =
    adjust_subtree_auth_lem chain active 2 (rank 1) true whole chain-IsTree whole-IsMapped refl
      (below refl 0 refl)

try_subtree_merge_at_example :
    (c' : Cache) × (try_subtree_merge_at chain active 2 true halves ≡ some c')
    × IsMerged chain 2 true halves c'
try_subtree_merge_at_example =
    try_subtree_merge_at_lem chain active 2 true halves chain-IsTree halves-IsMapped halves-IsRooted
      refl

try_subtree_merge_example :
    (c' : Cache) × (try_subtree_merge chain active 0 halves ≡ some c')
    × IsReduced chain (0 ∷ 2 ∷ []) halves c'
try_subtree_merge_example =
    try_subtree_merge_lem chain active 0 halves chain-IsTree halves-IsMapped halves-IsRooted refl

remove_subtree_example :
    (c' : Cache) × (remove_subtree chain 2 halves ≡ some c') × IsRemoved chain 2 halves c'
remove_subtree_example =
    remove_subtree_lem chain 2 halves chain-IsTree halves-IsMapped halves-IsRooted refl refl

get_wouldbe_subtree_bounds_example :
    (bs : List ℕ) × (c' : Cache) × (get_wouldbe_subtree_bounds chain 1 halves [] ≡ some bs)
    × (adjust_subtree_auth chain active 1 (rank 1) true halves ≡ some c')
    × ((b : ℕ) → mem b bs ≡ mem b (bounds_of 1 c'.subtrees))
unfolding get_subtree_root
get_wouldbe_subtree_bounds_example =
    get_wouldbe_subtree_bounds_lem chain active 1 (rank 1) true halves chain-IsTree halves-IsMapped
      refl (below refl 0 refl)

abbrev outcome : Cache → Map (List ℕ) × List Call
outcome c = (c.subtrees, c.calls)

-- The fragment 1 would take the bound 2 from the root 0.
wouldbe_halves : get_wouldbe_subtree_bounds chain 1 halves [] ≡ some (2 ∷ [])
unfolding get_wouldbe_subtree_bounds
wouldbe_halves = refl

-- Merging the halves gives the whole map again, with the calls of the merge.
merged_halves :
    (try_subtree_merge chain active 0 halves >>= λ c. some (outcome c))
    ≡ some ((0, []) ∷ [], journal_merged 2 ∷ eval_subtree_root 2 ∷ pop_add 0 2 ∷ pop_add 1 2 ∷ [])
unfolding try_subtree_merge
merged_halves = refl

-- A new subtree takes the bound below it; the counters of those above it, up to the old root, are
-- adjusted.
split_halves :
    (adjust_subtree_auth chain active 1 (rank 1) true halves >>= λ c. some (outcome c))
    ≡ some ((0, 1 ∷ []) ∷ (1, 2 ∷ []) ∷ (2, []) ∷ [], eval_subtree_root 1 ∷ pop_sub 0 1 ∷ [])
unfolding adjust_subtree_auth
split_halves = refl
