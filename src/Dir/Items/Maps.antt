-- ===== src/Dir/Items/Maps.antt =====
-- The map of the dentries as a sorted list: what its operations do to it and to a count.
use mds.Prelude.{
  ◌+◌, ◌≡◌, refl, inl, inr, Bool, true, none, some, List, [], ◌∷◌, arith, if◌then◌else◌, count_if,
  Bool-cases,
}
use mds.Dir.Key.{Key, key_lt, key_eq, key_eq_iff, key_lt_trans, key_lt_irrefl, key_lt_total}
use mds.Dir.Types.{Dentry, key_of}
use mds.Dir.Items.{find_item, put_item, erase_item}

-- Every key lies above the given one, and the keys rise.
abbrev pub Above : Key → List Dentry → Type 0
Above k [] = Unit {0}
Above k (e ∷ es) = (key_lt k (key_of e) ≡ true) × Above (key_of e) es

abbrev pub KeysRise : List Dentry → Type 0
KeysRise [] = Unit {0}
KeysRise (e ∷ es) = Above (key_of e) es

Above-lower : (j k : Key) (es : List Dentry) → key_lt j k ≡ true → Above k es → Above j es
Above-lower j k [] l h = tt
Above-lower j k (e ∷ es) l h = (key_lt_trans j k (key_of e) l h.0, h.1)

pub Above-KeysRise : (k : Key) (es : List Dentry) → Above k es → KeysRise es
Above-KeysRise k [] h = tt
Above-KeysRise k (e ∷ es) h = h.1

pub find_item-Above : (k : Key) (es : List Dentry) → Above k es → find_item k es ≡ none
unfolding find_item
find_item-Above k [] h = refl
find_item-Above k (e ∷ es) h = ground (
  arith,
  key_eq_iff k (key_of e),
  key_lt_irrefl k,
  find_item-Above k es (Above-lower k (key_of e) es h.0 h.1),
)

put_item-Above :
    (k : Key) (dn : Dentry) (es : List Dentry)
    → Above k es
    → key_lt k (key_of dn) ≡ true
    → Above k (put_item dn es)
unfolding put_item
put_item-Above k dn [] h l = (l, tt)
put_item-Above k dn (e ∷ es) h l = elim (Bool-cases (key_eq (key_of dn) (key_of e))) [
  | inl q ↦ rw q (l, rw ((key_eq_iff (key_of dn) (key_of e)).0 q) h.1)
  | inr q ↦ elim (Bool-cases (key_lt (key_of dn) (key_of e))) [
    | inl m ↦ rw (q, m) (l, (m, h.1))
    | inr m ↦
        rw (q, m)
          (
            h.0,
            put_item-Above (key_of e) dn es h.1 (
                ground
                  (arith, key_lt_total (key_of dn) (key_of e), key_eq_iff (key_of dn) (key_of e))),
          )
  ]
]

pub put_item-KeysRise : (dn : Dentry) (es : List Dentry) → KeysRise es → KeysRise (put_item dn es)
unfolding put_item
put_item-KeysRise dn [] h = tt
put_item-KeysRise dn (e ∷ es) h = elim (Bool-cases (key_eq (key_of dn) (key_of e))) [
  | inl q ↦ rw q (rw ((key_eq_iff (key_of dn) (key_of e)).0 q) h)
  | inr q ↦ elim (Bool-cases (key_lt (key_of dn) (key_of e))) [
    | inl m ↦ rw (q, m) (m, h)
    | inr m ↦
        rw (q, m)
          (put_item-Above (key_of e) dn es h (
            ground (arith, key_lt_total (key_of dn) (key_of e), key_eq_iff (key_of dn) (key_of e))))
  ]
]

erase_item-Above : (j k : Key) (es : List Dentry) → Above j es → Above j (erase_item k es)
unfolding erase_item
erase_item-Above j k [] h = tt
erase_item-Above j k (e ∷ es) h = elim (Bool-cases (key_eq k (key_of e))) [
  | inl q ↦ rw q (Above-lower j (key_of e) es h.0 h.1)
  | inr q ↦ rw q (h.0, erase_item-Above (key_of e) k es h.1)
]

pub erase_item-KeysRise : (k : Key) (es : List Dentry) → KeysRise es → KeysRise (erase_item k es)
unfolding erase_item
erase_item-KeysRise k [] h = tt
erase_item-KeysRise k (e ∷ es) h = elim (Bool-cases (key_eq k (key_of e))) [
  | inl q ↦ rw q (Above-KeysRise (key_of e) es h)
  | inr q ↦ rw q (erase_item-Above (key_of e) k es h)
]

pub find_item-put_item :
    (k : Key) (dn : Dentry) (es : List Dentry)
    → find_item k (put_item dn es) ≡ (if key_eq k (key_of dn) then some dn else find_item k es)
unfolding find_item put_item
find_item-put_item k dn [] = refl
find_item-put_item k dn (e ∷ es) = ground (
  arith,
  find_item-put_item k dn es,
  key_eq_iff k (key_of dn),
  key_eq_iff k (key_of e),
  key_eq_iff (key_of dn) (key_of e),
)

pub find_item-erase_item :
    (k j : Key) (es : List Dentry)
    → KeysRise es
    → find_item k (erase_item j es) ≡ (if key_eq k j then none else find_item k es)
unfolding find_item erase_item
find_item-erase_item k j [] h = ground arith
find_item-erase_item k j (e ∷ es) h = ground (
  arith,
  find_item-erase_item k j es (Above-KeysRise (key_of e) es h),
  find_item-Above (key_of e) es h,
  key_eq_iff k (key_of e),
  key_eq_iff j (key_of e),
  key_eq_iff k j,
)

pub key-find_item :
    (k : Key) (dn : Dentry) (es : List Dentry) → find_item k es ≡ some dn → key_of dn ≡ k
unfolding find_item
key-find_item k dn [] h = cc
key-find_item k dn (e ∷ es) h = ground (arith, key_eq_iff k (key_of e), key-find_item k dn es)

-- A count after a dentry came in under a new key, was replaced, or went.
pub count_if-put_new :
    (p : Dentry → Bool) (dn : Dentry) (es : List Dentry)
    → find_item (key_of dn) es ≡ none
    → count_if p (put_item dn es) ≡ (if p dn then 1 else 0) + count_if p es
unfolding find_item put_item
count_if-put_new p dn [] h = refl
count_if-put_new p dn (e ∷ es) h = ground (arith, count_if-put_new p dn es)

pub count_if-put_old :
    (p : Dentry → Bool) (dn old : Dentry) (es : List Dentry)
    → KeysRise es
    → find_item (key_of dn) es ≡ some old
    → count_if p (put_item dn es) + (if p old then 1 else 0)
      ≡ (if p dn then 1 else 0) + count_if p es
unfolding find_item put_item
count_if-put_old p dn old [] r h = cc
count_if-put_old p dn old (e ∷ es) r h = ground (
  arith,
  λ (l : key_lt (key_of dn) (key_of e) ≡ true).
      find_item-Above (key_of dn) es (Above-lower (key_of dn) (key_of e) es l r),
  count_if-put_old p dn old es (Above-KeysRise (key_of e) es r),
)

pub count_if-erase :
    (p : Dentry → Bool) (k : Key) (dn : Dentry) (es : List Dentry)
    → find_item k es ≡ some dn
    → count_if p (erase_item k es) + (if p dn then 1 else 0) ≡ count_if p es
unfolding find_item erase_item
count_if-erase p k dn [] h = cc
count_if-erase p k dn (e ∷ es) h = ground (arith, count_if-erase p k dn es)

put_item-front : (dn : Dentry) (es : List Dentry) → Above (key_of dn) es → put_item dn es ≡ dn ∷ es
unfolding put_item
put_item-front dn [] h = refl
put_item-front dn (e ∷ es) h =
    ground (arith, key_eq_iff (key_of dn) (key_of e), key_lt_irrefl (key_of e))

-- To replace a dentry is to erase the old one and to insert the new one.
pub put_item-erase_item :
    (dn old : Dentry) (es : List Dentry)
    → KeysRise es
    → find_item (key_of dn) es ≡ some old
    → put_item dn (erase_item (key_of dn) es) ≡ put_item dn es
unfolding find_item put_item erase_item
put_item-erase_item dn old [] r h = cc
put_item-erase_item dn old (e ∷ es) r h = elim (Bool-cases (key_eq (key_of dn) (key_of e))) [
  | inl q ↦ rw q (put_item-front dn es (rw ((key_eq_iff (key_of dn) (key_of e)).0 q) r))
  | inr q ↦ ground (
    arith,
    q,
    λ (l : key_lt (key_of dn) (key_of e) ≡ true).
        find_item-Above (key_of dn) es (Above-lower (key_of dn) (key_of e) es l r),
    put_item-erase_item dn old es (Above-KeysRise (key_of e) es r),
  )
]
