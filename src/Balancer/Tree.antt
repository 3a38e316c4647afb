-- ===== src/Balancer/Tree.antt =====
-- mds/MDBalancer.cc, find_exports: what it reads of the tree of directory fragments. The classes of
-- inodes and dentries are not part of the repository.
use mds.Prelude.{
  ℕ, suc, ◌+◌, ◌≤◌, ◌≡◌, refl, Bool, List, [], ◌∷◌, ◌++◌, arith, ◌==◌, if◌then◌else◌, All,
  All-append,
}
use Prim.Native.Nat.{max}

-- A fragment, known by its number; `pop` is the `meta_load` of its `pop_auth_subtree`.
pub record Info (T : Type 0) : Type 0 where
  pub id : ℕ
  pub pop : T
  pub is_auth : Bool
  pub is_frozen : Bool
  pub is_rep : Bool

-- The dentries of a fragment, in order: with no inode, with one that is no directory, and with a
-- directory, which has fragments itself.
mutual
  pub data Frag (T : Type 0) : Type 0 where
    frag : Info T → Entries T → Frag T

  pub data Entries (T : Type 0) : Type 0 where
    nil : Entries T
    no_inode : Entries T → Entries T
    file : Entries T → Entries T
    directory : Frags T → Entries T → Entries T

  pub data Frags (T : Type 0) : Type 0 where
    end : Frags T
    more : Frag T → Frags T → Frags T

module _ {T : Type 0} where
  abbrev pub info : Frag T → Info T
  info (frag i es) = i

  abbrev pub entries : Frag T → Entries T
  entries (frag i es) = es

  abbrev pub frags : Frags T → List (Frag T)
  frags end = []
  frags (more f fs) = f ∷ frags fs

  -- The fragments that the two loops visit, in order.
  unfoldable pub subdirs : Entries T → List (Frag T)
  subdirs nil = []
  subdirs (no_inode es) = subdirs es
  subdirs (file es) = subdirs es
  subdirs (directory fs es) = frags fs ++ subdirs es

unfoldable mutual
  -- How often a number stands in a tree.
  pub count_frag : {T : Type 0} → ℕ → Frag T → ℕ
  count_frag n (frag i es) = (if i.id == n then 1 else 0) + count_entries n es

  pub count_entries : {T : Type 0} → ℕ → Entries T → ℕ
  count_entries n nil = 0
  count_entries n (no_inode es) = count_entries n es
  count_entries n (file es) = count_entries n es
  count_entries n (directory fs es) = count_frags n fs + count_entries n es

  pub count_frags : {T : Type 0} → ℕ → Frags T → ℕ
  count_frags n end = 0
  count_frags n (more f fs) = count_frag n f + count_frags n fs

unfoldable mutual
  pub depth_frag : {T : Type 0} → Frag T → ℕ
  depth_frag (frag i es) = suc (depth_entries es)

  pub depth_entries : {T : Type 0} → Entries T → ℕ
  depth_entries nil = 0
  depth_entries (no_inode es) = depth_entries es
  depth_entries (file es) = depth_entries es
  depth_entries (directory fs es) = max (depth_frags fs) (depth_entries es)

  pub depth_frags : {T : Type 0} → Frags T → ℕ
  depth_frags end = 0
  depth_frags (more f fs) = max (depth_frag f) (depth_frags fs)

module _ {T : Type 0} where
  -- How often a number stands in the trees of a list.
  abbrev pub count_all : ℕ → List (Frag T) → ℕ
  count_all n [] = 0
  count_all n (f ∷ fs) = count_frag n f + count_all n fs

  pub count_all-append :
      (n : ℕ) (xs ys : List (Frag T)) → count_all n (xs ++ ys) ≡ count_all n xs + count_all n ys
  count_all-append n [] ys = omega arith
  count_all-append n (x ∷ xs) ys = omega (arith, count_all-append n xs ys)

  count_all-frags : (n : ℕ) (fs : Frags T) → count_all n (frags fs) ≡ count_frags n fs
  unfolding count_frags
  count_all-frags n end = refl
  count_all-frags n (more f fs) = omega (arith, count_all-frags n fs)

  pub count_all-subdirs : (n : ℕ) (es : Entries T) → count_all n (subdirs es) ≡ count_entries n es
  unfolding subdirs count_entries
  count_all-subdirs n nil = refl
  count_all-subdirs n (no_inode es) = count_all-subdirs n es
  count_all-subdirs n (file es) = count_all-subdirs n es
  count_all-subdirs n (directory fs es) = omega (
    arith,
    count_all-append n (frags fs) (subdirs es),
    count_all-frags n fs,
    count_all-subdirs n es,
  )

  abbrev pub Shallow : ℕ → List (Frag T) → Type 0
  Shallow d fs = All (λ f. depth_frag f ≤ d) fs

  Shallow-frags : (d : ℕ) (fs : Frags T) → depth_frags fs ≤ d → Shallow d (frags fs)
  unfolding depth_frags
  Shallow-frags d end h = tt
  Shallow-frags d (more f fs) h = (omega arith, Shallow-frags d fs (omega arith))

  pub Shallow-subdirs : (d : ℕ) (es : Entries T) → depth_entries es ≤ d → Shallow d (subdirs es)
  unfolding subdirs depth_entries
  Shallow-subdirs d nil h = tt
  Shallow-subdirs d (no_inode es) h = Shallow-subdirs d es h
  Shallow-subdirs d (file es) h = Shallow-subdirs d es h
  Shallow-subdirs d (directory fs es) h =
      All-append (λ f. depth_frag f ≤ d) (frags fs) (subdirs es) (Shallow-frags d fs (omega arith))
        (Shallow-subdirs d es (omega arith))
