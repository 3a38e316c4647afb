-- ===== src/Subtrees.antt =====
-- mds/MDCache.cc: the map of the subtrees, from the fragment at the root of each to the roots of
-- the subtrees that begin below it, its bounds. A fragment is a number; sets are lists in some
-- order.
pub mod Walks
pub mod Mapped
pub mod Splitting
pub mod Adjusting
pub mod Merging
pub mod Joining
pub mod Removing
pub mod Wouldbe
mod Tests
use mds.Prelude.{
  ℕ, Bool, true, false, not, ◌&&◌, ◌||◌, Option, none, some, List, [], ◌∷◌, ◌==◌, if◌then◌else◌,
  ◌>>=◌, ◌>>◌, assert, Map, find, put, keep, ◌+◌, ◌-◌,
}
use mds.Prelude.Int.{ℤ, pos, negsuc}
use mds.Dir.Freeze.{eq_ℤ}

-- mds_authority_t.
pub record Authority : Type 0 where
  pub first : ℤ
  pub second : ℤ

abbrev pub auth_eq : Authority → Authority → Bool
auth_eq a b = eq_ℤ a.first b.first && eq_ℤ a.second b.second

abbrev pub auth_default : Authority
auth_default = record { first = negsuc 0; second = negsuc 1 }

-- What the map reads of the fragments and their inodes. `above`: the fragments that a fragment lies
-- in, the next one first. `base_auth`: what CInode::authority answers for the inode of a fragment
-- that is no root and lies below none, which is the base inode's own authority.
pub record Tree : Type 0 where
  pub above : ℕ → List ℕ
  pub is_base : ℕ → Bool
  pub is_auth : ℕ → Bool
  pub is_export_bound : ℕ → Bool
  pub base_auth : ℕ → Authority
  pub inode_journals : ℕ → Bool  -- the inode is authoritative and can be pinned

-- The state of the daemon.
pub record Daemon : Type 0 where
  pub is_early : Bool  -- replaying or resolving
  pub is_late : Bool  -- replaying for clients, active or stopping

pub data Call : Type 0 where
  eval_subtree_root journal_merged : (dir : ℕ) → Call
  pop_sub pop_add : (from dir : ℕ) → Call

-- `dir_auth` and the pins PIN_SUBTREE are those of each fragment.
pub record Cache : Type 0 where
  pub dir_auth : ℕ → Authority
  pub subtrees : Map (List ℕ)
  pub pins : ℕ → ℕ
  pub calls : List Call  -- newest first

abbrev pub mem : ℕ → List ℕ → Bool
mem x [] = false
mem x (y ∷ ys) = x == y || mem x ys

abbrev pub insert : ℕ → List ℕ → List ℕ
insert x xs = if mem x xs then xs else x ∷ xs

abbrev pub union : List ℕ → List ℕ → List ℕ
union [] ys = ys
union (x ∷ xs) ys = union xs (insert x ys)

abbrev pub without : ℕ → List ℕ → List ℕ
without x xs = keep (λ y. not (y == x)) xs

abbrev pub has_key : ℕ → Map (List ℕ) → Bool
has_key d m = elim (find d m) [ none ↦ false | some _ ↦ true ]

-- `subtrees[d]`, which is empty where there is no entry.
abbrev pub bounds_of : ℕ → Map (List ℕ) → List ℕ
bounds_of d m = elim (find d m) [ none ↦ [] | some bs ↦ bs ]

abbrev pub forget : ℕ → Map (List ℕ) → Map (List ℕ)
forget d m = keep (λ e. not (e.0 == d)) m

abbrev pub update {ℓ} : {A : Type ℓ} → (ℕ → A) → ℕ → A → ℕ → A
update f d a x = if x == d then a else f x

abbrev pub is_root : Cache → ℕ → Bool
is_root c d = not (auth_eq (c.dir_auth d) auth_default)

abbrev pub first : (ℕ → Bool) → List ℕ → Option ℕ
first r [] = none
first r (x ∷ xs) = if r x then some x else first r xs

abbrev pub parent_root : Tree → Cache → ℕ → Option ℕ
parent_root t c d = first (is_root c) (t.above d)

-- The walk upwards; `none` is the null pointer.
unfoldable pub get_subtree_root : Tree → Cache → ℕ → Option ℕ
get_subtree_root t c d = if is_root c d then some d else parent_root t c d

abbrev pub auth_at : (base : Authority) (dir_auth : ℕ → Authority) → Option ℕ → Authority
auth_at base dir_auth none = base
auth_at base dir_auth (some r) = dir_auth r

-- CDir::authority: that of the next root, which the inodes in between pass on, or else that of the
-- base inode.
abbrev pub authority : Tree → Cache → ℕ → Authority
authority t c d = auth_at (t.base_auth d) c.dir_auth (get_subtree_root t c d)

abbrev pub is_some_eq : Option ℕ → ℕ → Bool
is_some_eq none d = false
is_some_eq (some r) d = r == d

abbrev pub call : Call → Cache → Cache
call k c = record c { calls = k ∷ c.calls }

abbrev pub set_dir_auth : ℕ → Authority → Cache → Cache
set_dir_auth d a c = record c { dir_auth = update c.dir_auth d a }

abbrev pub get_pin : ℕ → Cache → Cache
get_pin d c = record c { pins = update c.pins d (c.pins d + 1) }

abbrev pub put_pin : ℕ → Cache → Cache
put_pin d c = record c { pins = update c.pins d (c.pins d - 1) }

abbrev pub set_bounds : ℕ → List ℕ → Cache → Cache
set_bounds d bs c = record c { subtrees = put d bs c.subtrees }

-- The fragments up to and with the next root: the counters of each are adjusted.
abbrev pub up_to_root : Cache → List ℕ → List ℕ
up_to_root c [] = []
up_to_root c (x ∷ xs) = if is_root c x then x ∷ [] else x ∷ up_to_root c xs

abbrev pub pop_calls : (ℕ → Call) → List ℕ → List Call → List Call
pop_calls k [] cs = cs
pop_calls k (x ∷ xs) cs = pop_calls k xs (k x ∷ cs)

-- If the fragment is authoritative.
abbrev pub adjust_pops : Tree → ℕ → (ℕ → Call) → Cache → Cache
adjust_pops t d k c = record c {
  calls = if t.is_auth d then pop_calls k (up_to_root c (t.above d)) c.calls else c.calls;
}

-- The loop over the bounds of the old root: those whose next root is the new one.
abbrev pub claimed : Tree → Cache → (dir : ℕ) → List ℕ → List ℕ
claimed t c dir bs = keep (λ b. is_some_eq (parent_root t c b) dir) bs

abbrev pub unclaimed : Tree → Cache → (dir : ℕ) → List ℕ → List ℕ
unclaimed t c dir bs = keep (λ b. not (is_some_eq (parent_root t c b) dir)) bs

abbrev pub call_if : Bool → Call → Cache → Cache
call_if b k c = record c { calls = if b then k ∷ c.calls else c.calls }

-- `subtrees[root].clear(); root->get(PIN_SUBTREE)`, for the fragment of a base inode that has no
-- entry.
abbrev pub bootstrap : ℕ → Cache → Cache
bootstrap d c = if has_key d c.subtrees then c else get_pin d (set_bounds d [] c)

-- A fragment that is not a root yet, below this one.
unfoldable pub split_subtree : Tree → (dir root : ℕ) → Authority → Cache → Cache
split_subtree t dir root auth c =
    let c₁ = set_dir_auth dir auth (get_pin dir (set_bounds dir [] c)) in
    let bs = bounds_of root c₁.subtrees in
    let c₂ = set_bounds dir (claimed t c₁ dir bs) c₁ in
    let c₃ = set_bounds root (insert dir (unclaimed t c₁ dir bs)) c₂ in
    adjust_pops t dir (λ p. pop_sub p dir) c₃

unfoldable pub adjust_subtree_auth :
    Tree → Daemon → (dir : ℕ) → Authority → (do_eval : Bool) → Cache → Option Cache
unfolding split_subtree get_subtree_root
adjust_subtree_auth t m dir auth do_eval c =
    let c₁ = if t.is_base dir then bootstrap dir c else c in
    (if t.is_base dir then some dir else get_subtree_root t c₁ dir) >>= λ root.
    (assert (has_key root c₁.subtrees)
      >> (if root == dir
          then some (set_dir_auth dir auth c₁)
          else (assert (not (has_key dir c₁.subtrees))
              >> some (
                  call_if (do_eval && not m.is_early) (eval_subtree_root dir)
                    (split_subtree t dir root auth c₁)))))

unfoldable pub merge_subtree : Tree → (dir parent : ℕ) → Cache → Cache
merge_subtree t dir parent c =
    let c₁ = set_dir_auth dir auth_default c in
    let bs = bounds_of dir c₁.subtrees in
    let c₂ = set_bounds parent (union bs (bounds_of parent c₁.subtrees)) c₁ in
    let c₃ = put_pin dir (record c₂ { subtrees = forget dir c₂.subtrees }) in
    let c₄ = set_bounds parent (without dir (bounds_of parent c₃.subtrees)) c₃ in
    adjust_pops t dir (λ p. pop_add p dir) c₄

-- A null parent would be read.
unfoldable pub try_subtree_merge_at :
    Tree → Daemon → (dir : ℕ) → (do_eval : Bool) → Cache → Option Cache
unfolding merge_subtree
try_subtree_merge_at t m dir do_eval c =
    let merges = λ (parent : ℕ).
      not (parent == dir)
      && auth_eq (c.dir_auth parent) (c.dir_auth dir)
      && eq_ℤ (c.dir_auth dir).second (negsuc 1)
      && not (t.is_export_bound dir) in
    let merged = λ (parent : ℕ). call_if (t.inode_journals dir && m.is_late) (journal_merged dir) (
      call_if (do_eval && not m.is_early) (eval_subtree_root dir) (merge_subtree t dir parent c)) in
    assert (has_key dir c.subtrees)
    >> ((if t.is_base dir then some dir else parent_root t c dir) >>= λ parent.
        some (if merges parent then merged parent else c))

-- At each of the old bounds, in their order.
abbrev pub merge_each : Tree → Daemon → List ℕ → Cache → Option Cache
merge_each t m [] c = some c
merge_each t m (b ∷ bs) c = try_subtree_merge_at t m b true c >>= merge_each t m bs

unfoldable pub try_subtree_merge : Tree → Daemon → (dir : ℕ) → Cache → Option Cache
unfolding try_subtree_merge_at
try_subtree_merge t m dir c =
    assert (has_key dir c.subtrees)
    >> (try_subtree_merge_at t m dir true c >>= merge_each t m (bounds_of dir c.subtrees))
