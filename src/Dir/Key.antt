-- ===== src/Dir/Key.antt =====
-- mds/mdstypes.h, dentry_key_t: dentries are ordered by name, as strcmp orders it, then by
-- snapshot.
use Prim.Native.Nat.{compare, Ordering}
use mds.Prelude.{ℕ, ◌≡◌, refl, ◌⊎◌, ◌↔◌, Bool, true, false, ◌&&◌, List, [], ◌∷◌, arith, ltb, ◌==◌}

-- The bytes of a name.
abbrev pub Name : Type 0
Name = List ℕ

-- `strcmp(a, b)`: its sign.
unfoldable pub strcmp : Name → Name → Ordering
strcmp [] [] = Ordering.eq
strcmp [] (y ∷ ys) = Ordering.lt
strcmp (x ∷ xs) [] = Ordering.gt
strcmp (x ∷ xs) (y ∷ ys) =
    let rest = strcmp xs ys in
    elim (compare x y) [
      | Ordering.lt ↦ Ordering.lt
      | Ordering.eq ↦ rest
      | Ordering.gt ↦ Ordering.gt
    ]

pub record Key : Type 0 where
  pub snapid : ℕ
  pub name : Name

-- `operator<` on dentry_key_t.
unfoldable pub key_lt : Key → Key → Bool
key_lt k j = elim (strcmp k.name j.name) [
  | Ordering.lt ↦ true
  | Ordering.eq ↦ ltb k.snapid j.snapid
  | Ordering.gt ↦ false
]

-- Equality of names, as the code decides it by `==` on strings.
unfoldable pub name_eq : Name → Name → Bool
name_eq [] [] = true
name_eq [] (y ∷ ys) = false
name_eq (x ∷ xs) [] = false
name_eq (x ∷ xs) (y ∷ ys) = x == y && name_eq xs ys

unfoldable pub key_eq : Key → Key → Bool
key_eq k j = k.snapid == j.snapid && name_eq k.name j.name

pub strcmp_refl : (a : Name) → strcmp a a ≡ Ordering.eq
unfolding strcmp
strcmp_refl [] = refl
strcmp_refl (x ∷ xs) = ground (arith, strcmp_refl xs)

pub strcmp-eq : (a b : Name) → strcmp a b ≡ Ordering.eq → a ≡ b
unfolding strcmp
strcmp-eq [] [] h = refl
strcmp-eq [] (y ∷ ys) h = cc
strcmp-eq (x ∷ xs) [] h = cc
strcmp-eq (x ∷ xs) (y ∷ ys) h = ground (arith, strcmp-eq xs ys)

pub strcmp_lt_trans :
    (a b c : Name) → strcmp a b ≡ Ordering.lt → strcmp b c ≡ Ordering.lt → strcmp a c ≡ Ordering.lt
unfolding strcmp
strcmp_lt_trans [] [] c h k = cc
strcmp_lt_trans [] (y ∷ ys) [] h k = cc
strcmp_lt_trans [] (y ∷ ys) (z ∷ zs) h k = refl
strcmp_lt_trans (x ∷ xs) [] c h k = cc
strcmp_lt_trans (x ∷ xs) (y ∷ ys) [] h k = cc
strcmp_lt_trans (x ∷ xs) (y ∷ ys) (z ∷ zs) h k =
    ground (arith, strcmp_lt_trans xs ys zs, strcmp-eq xs ys, strcmp-eq ys zs)

pub strcmp_gt : (a b : Name) → strcmp a b ≡ Ordering.gt → strcmp b a ≡ Ordering.lt
unfolding strcmp
strcmp_gt [] [] h = cc
strcmp_gt [] (y ∷ ys) h = cc
strcmp_gt (x ∷ xs) [] h = refl
strcmp_gt (x ∷ xs) (y ∷ ys) h = ground (arith, strcmp_gt xs ys)

name_eq_sound : (a b : Name) → name_eq a b ≡ true → a ≡ b
unfolding name_eq
name_eq_sound [] [] h = refl
name_eq_sound [] (y ∷ ys) h = cc
name_eq_sound (x ∷ xs) [] h = cc
name_eq_sound (x ∷ xs) (y ∷ ys) h = ground (arith, name_eq_sound xs ys)

name_eq_refl : (a : Name) → name_eq a a ≡ true
unfolding name_eq
name_eq_refl [] = refl
name_eq_refl (x ∷ xs) = ground (arith, name_eq_refl xs)

pub name_eq_iff : (a b : Name) → (name_eq a b ≡ true) ↔ (a ≡ b)
name_eq_iff a b = (name_eq_sound a b, λ e. rw e (name_eq_refl b))

pub key_eq_iff : (k j : Key) → (key_eq k j ≡ true) ↔ (k ≡ j)
unfolding key_eq
key_eq_iff k j = ground (arith, name_eq_iff k.name j.name)

-- `<` on keys is a strict total order.
pub key_lt_trans : (a b c : Key) → key_lt a b ≡ true → key_lt b c ≡ true → key_lt a c ≡ true
unfolding key_lt
key_lt_trans a b c h k = ground (
  arith,
  strcmp_lt_trans a.name b.name c.name,
  strcmp-eq a.name b.name,
  strcmp-eq b.name c.name,
  strcmp_refl a.name,
)

pub key_lt_irrefl : (a : Key) → key_lt a a ≡ false
unfolding key_lt
key_lt_irrefl a = ground (arith, strcmp_refl a.name)

pub key_lt_total : (a b : Key) → (key_lt a b ≡ true) ⊎ ((a ≡ b) ⊎ (key_lt b a ≡ true))
unfolding key_lt
key_lt_total a b = ground (
  arith,
  strcmp-eq a.name b.name,
  strcmp_refl a.name,
  strcmp_refl b.name,
  strcmp_gt a.name b.name,
)
