-- ===== src/Subtrees/Walks.antt =====
-- mds/MDCache.cc, subtrees: walks upwards to the next root, sets and the map.
use mds.Prelude.{
  ℕ, ◌<◌, ◌≡◌, refl, ap, subst, Bool, true, false, not, ◌&&◌, ◌||◌, none, List, [], ◌∷◌, ◌==◌,
  if◌then◌else◌, arith, inl, inr, Bool-cases, Map, find, put, find-put, keep, length, ==_iff,
}
use mds.Subtrees.{Tree, mem, insert, union, has_key, bounds_of, forget, first, is_some_eq}

-- ## Sets

pub mem-insert : (x y : ℕ) (ys : List ℕ) → mem x (insert y ys) ≡ (x == y || mem x ys)
mem-insert x y ys = elim (Bool-cases (mem y ys)) [
  | inl old ↦ rw old (kept x y ys old)
  | inr new ↦ rw new refl
]
  where
    kept : (x y : ℕ) (ys : List ℕ) → mem y ys ≡ true → mem x ys ≡ (x == y || mem x ys)
    kept x y [] h = ground (arith, h)
    kept x y (z ∷ zs) h = ground (arith, h, kept x y zs)

pub mem-union : (x : ℕ) (xs ys : List ℕ) → mem x (union xs ys) ≡ (mem x xs || mem x ys)
mem-union x [] ys = refl
mem-union x (z ∷ zs) ys = ground (arith, mem-union x zs (insert z ys), mem-insert x z ys)

pub mem-keep : (x : ℕ) (p : ℕ → Bool) (ys : List ℕ) → mem x (keep p ys) ≡ (p x && mem x ys)
mem-keep x p [] = ground arith
mem-keep x p (y ∷ ys) = elim (Bool-cases (x == y)) [
  | inl same ↦ let e : x ≡ y = (==_iff x y).0 same in ground (arith, same, mem-keep x p ys, ap p e)
  | inr other ↦ ground (arith, other, mem-keep x p ys)
]

abbrev pub is_distinct : List ℕ → Bool
is_distinct [] = true
is_distinct (x ∷ xs) = not (mem x xs) && is_distinct xs

pub is_distinct-insert :
    (x : ℕ) (ys : List ℕ) → is_distinct ys ≡ true → is_distinct (insert x ys) ≡ true
is_distinct-insert x ys h = elim (Bool-cases (mem x ys)) [
  | inl old ↦ rw old h
  | inr new ↦ rw (new, new) h
]

pub is_distinct-union : (xs ys : List ℕ) → is_distinct ys ≡ true → is_distinct (union xs ys) ≡ true
is_distinct-union [] ys h = h
is_distinct-union (x ∷ xs) ys h = is_distinct-union xs (insert x ys) (is_distinct-insert x ys h)

pub is_distinct-keep :
    (p : ℕ → Bool) (ys : List ℕ) → is_distinct ys ≡ true → is_distinct (keep p ys) ≡ true
is_distinct-keep p [] h = h
is_distinct-keep p (y ∷ ys) h = ground (arith, h, is_distinct-keep p ys, mem-keep y p ys)

-- ## The map

pub find-forget :
    (k d : ℕ) (m : Map (List ℕ)) → find k (forget d m) ≡ (if k == d then none else find k m)
find-forget k d [] = ground arith
find-forget k d ((j, bs) ∷ m) = ground (arith, find-forget k d m)

pub bounds_of-put :
    (k d : ℕ) (bs : List ℕ) (m : Map (List ℕ))
    → bounds_of k (put d bs m) ≡ (if k == d then bs else bounds_of k m)
bounds_of-put k d bs m = ground (arith, find-put d k bs m)

pub has_key-put :
    (k d : ℕ) (bs : List ℕ) (m : Map (List ℕ)) → has_key k (put d bs m) ≡ (k == d || has_key k m)
has_key-put k d bs m = ground (arith, find-put d k bs m)

pub bounds_of-forget :
    (k d : ℕ) (m : Map (List ℕ)) → bounds_of k (forget d m) ≡ (if k == d then [] else bounds_of k m)
bounds_of-forget k d m = ground (arith, find-forget k d m)

pub has_key-forget :
    (k d : ℕ) (m : Map (List ℕ)) → has_key k (forget d m) ≡ (not (k == d) && has_key k m)
has_key-forget k d m = ground (arith, find-forget k d m)

-- ## Walks

-- Each fragment of the list lies in those that follow, and no others.
abbrev pub IsChain : Tree → List ℕ → Type 0
IsChain t [] = Unit
IsChain t (x ∷ xs) = (t.above x ≡ xs) × IsChain t xs

-- The fragments form a tree, and those of base inodes lie in no other.
pub record IsTree (t : Tree) : Type 0 where
  pub chains : (d : ℕ) → IsChain t (t.above d)
  pub bases : (d : ℕ) → t.is_base d ≡ true → t.above d ≡ []

shorter :
    (t : Tree) (d : ℕ) (xs : List ℕ)
    → IsChain t xs
    → mem d xs ≡ true
    → length (t.above d) < length xs
shorter t d [] c h = absurd (ground (arith, h))
shorter t d (x ∷ xs) c h = elim (Bool-cases (d == x)) [
  | inl same ↦ rw ((==_iff d x).0 same, c.0) (omega arith)
  | inr other ↦ omega (arith, shorter t d xs c.1 (ground (arith, h, other)))
]

-- No fragment lies in itself.
pub above_irreflexive : (t : Tree) (d : ℕ) → IsTree t → mem d (t.above d) ≡ false
above_irreflexive t d w = elim (Bool-cases (mem d (t.above d))) [
  | inl h ↦ absurd (omega (arith, shorter t d (t.above d) (w.chains d) h))
  | inr h ↦ h
]

pub first-true :
    (r : ℕ → Bool) (d : ℕ) (xs : List ℕ) → is_some_eq (first r xs) d ≡ true → r d ≡ true
first-true r d [] h = absurd (ground (arith, h))
first-true r d (x ∷ xs) h = elim (Bool-cases (r x)) [
  | inl e ↦ subst (λ y. r y ≡ true) ((==_iff x d).0 (rw e at h)) e
  | inr e ↦ first-true r d xs (rw e at h)
]

pub first-same :
    (r r' : ℕ → Bool) → ((x : ℕ) → r' x ≡ r x) → (xs : List ℕ) → first r' xs ≡ first r xs
first-same r r' e [] = refl
first-same r r' e (x ∷ xs) = ground (arith, e x, first-same r r' e xs)

pub first-mem :
    (r : ℕ → Bool) (d : ℕ) (xs : List ℕ) → is_some_eq (first r xs) d ≡ true → mem d xs ≡ true
first-mem r d [] h = absurd (ground (arith, h))
first-mem r d (x ∷ xs) h = ground (arith, h, first-mem r d xs)

-- One more root, or the same roots.
module _ (r r' : ℕ → Bool) (d : ℕ) (more : (x : ℕ) → r' x ≡ (r x || x == d)) where
  -- A walk that does not reach the new root ends where it did.
  pub first_miss : (xs : List ℕ) → is_some_eq (first r' xs) d ≡ false → first r' xs ≡ first r xs
  first_miss [] h = refl
  first_miss (x ∷ xs) h = ground (arith, h, more x, first_miss xs)

  pub first_without : (xs : List ℕ) → mem d xs ≡ false → first r' xs ≡ first r xs
  first_without [] h = refl
  first_without (x ∷ xs) h = ground (arith, h, more x, first_without xs)

-- One more root.
module _ (r r' : ℕ → Bool) (d : ℕ) (more : (x : ℕ) → r' x ≡ (r x || x == d))
    (new : r d ≡ false) where
  -- A walk that reaches the new root would have gone on from there.
  pub first_hit :
      (t : Tree) (xs : List ℕ)
      → IsChain t xs
      → is_some_eq (first r' xs) d ≡ true
      → first r xs ≡ first r (t.above d)
  first_hit t [] c h = absurd (ground (arith, h))
  first_hit t (x ∷ xs) c h = elim (Bool-cases (x == d)) [
    | inl same ↦
        let e : x ≡ d = (==_iff x d).0 same in
        let plain : r x ≡ false = rw e new in rw (plain, ← e, c.0) refl
    | inr other ↦ elim (Bool-cases (r x)) [
      | inl root ↦ absurd (ground (arith, h, other, root, more x))
      | inr plain ↦ rw plain (first_hit t xs c.1 (ground (arith, h, other, plain, more x)))
    ]
  ]
