-- ===== src/Dir/Items/Lookup.antt =====
-- mds/CDir.cc, `lookup`: the dentry of a name at a snapshot.
use mds.Prelude.{ℕ, ◌≤◌, ◌<◌, ◌≡◌, ◌↔◌, true, false, some, List, [], ◌∷◌, arith, All}
use mds.Dir.Key.{
  Key, Name, strcmp-eq, strcmp_refl, key_lt, key_eq_iff, name_eq_iff, key_lt_irrefl, key_lt_trans,
}
use mds.Dir.Types.{Dentry, key_of, Dir}
use mds.Dir.Items.{find_item, lower_bound, picked, lookup}
use mds.Dir.Items.Maps.{Above, KeysRise, Above-KeysRise}

-- The intervals of snapshots of two dentries of one name do not meet, the earlier first.
abbrev pub Apart : List Dentry → Type 0
Apart [] = Unit {0}
Apart (e ∷ es) = All (λ f. e.name ≡ f.name → e.last < f.first) es × Apart es

-- The dentry is the one of the map under its key.
abbrev pub InMap : Dentry → List Dentry → Type 0
InMap dn es = find_item (key_of dn) es ≡ some dn

module _ (name : Name) (snap : ℕ) where
  abbrev wanted : Key
  wanted = record { snapid = snap; name = name }

  Apart-find :
      (e dn : Dentry) (es : List Dentry)
      → All (λ f. e.name ≡ f.name → e.last < f.first) es
      → InMap dn es
      → e.name ≡ dn.name
      → e.last < dn.first
  unfolding find_item
  Apart-find e dn [] a h n = absurd (ground (arith, h))
  Apart-find e dn (f ∷ es) a h n = ground (arith, Apart-find e dn es a.1)

  Above-find :
      (k : Key) (dn : Dentry) (es : List Dentry)
      → Above k es
      → InMap dn es
      → key_lt k (key_of dn) ≡ true
  unfolding find_item
  Above-find k dn [] a h = absurd (ground (arith, h))
  Above-find k dn (f ∷ es) a h =
      ground (arith, Above-find (key_of f) dn es a.1, key_lt_trans k (key_of f) (key_of dn))

  -- A key that is not below the wanted one, under the wanted name, has a snapshot at or above it.
  not_below : (e : Dentry) → e.name ≡ name → key_lt (key_of e) wanted ≡ false → snap ≤ e.last
  unfolding key_lt
  not_below e n h = ground (arith, strcmp_refl name)

  -- A key between the wanted one and another of that name is of that name.
  between :
      (e dn : Dentry)
      → dn.name ≡ name
      → key_lt (key_of e) wanted ≡ false
      → key_lt (key_of e) (key_of dn) ≡ true
      → e.name ≡ name
  unfolding key_lt
  between e dn n h k = ground (arith, strcmp-eq e.name name)

  at_or_above : (dn : Dentry) → dn.name ≡ name → snap ≤ dn.last → key_lt (key_of dn) wanted ≡ false
  unfolding key_lt
  at_or_above dn n q = ground (arith, strcmp_refl name)

  complete :
      (dn : Dentry) (es : List Dentry)
      → KeysRise es
      → Apart es
      → InMap dn es
      → dn.name ≡ name
      → dn.first ≤ snap
      → snap ≤ dn.last
      → picked name snap (lower_bound wanted es) ≡ some dn
  unfolding picked lower_bound find_item
  complete dn [] r a h n p q = absurd (ground (arith, h))
  complete dn (e ∷ es) r a h n p q = ground (
    arith,
    complete dn es (Above-KeysRise (key_of e) es r) a.1,
    Above-find (key_of e) dn es r,
    between e dn n,
    not_below e,
    Apart-find e dn es a.0,
    name_eq_iff e.name name,
    at_or_above dn n q,
  )

  sound :
      (dn : Dentry) (es : List Dentry)
      → KeysRise es
      → picked name snap (lower_bound wanted es) ≡ some dn
      → InMap dn es × (dn.name ≡ name) × (dn.first ≤ snap) × (snap ≤ dn.last)
  unfolding picked lower_bound find_item
  sound dn [] r h = absurd (ground (arith, h))
  sound dn (e ∷ es) r h = ground (
    arith,
    sound dn es (Above-KeysRise (key_of e) es r),
    Above-find (key_of e) dn es r,
    key_lt_irrefl (key_of e),
    key_eq_iff (key_of dn) (key_of e),
    not_below e,
    name_eq_iff e.name name,
  )

  -- On a sorted map whose dentries of one name cover snapshots that do not meet, `lookup` finds
  -- exactly the dentry of the name whose interval holds the snapshot.
  pub lookup_iff :
      (dn : Dentry) (d : Dir)
      → KeysRise d.contents.items
      → Apart d.contents.items
      → (lookup name snap d ≡ some dn)
        ↔ (InMap dn d.contents.items × (dn.name ≡ name) × (dn.first ≤ snap) × (snap ≤ dn.last))
  unfolding lookup
  lookup_iff dn d r a =
      (λ h. sound dn d.contents.items r h, λ (h, n, p, q). complete dn d.contents.items r a h n p q)
