-- ===== src/Dir/Items/Tallies.antt =====
-- The four counters of a fragment tell how many dentries of each kind its map holds.
use mds.Prelude.{
  ℕ, suc, ◌+◌, ◌^◌, ◌≤◌, ◌<◌, ◌≡◌, refl, subst, Bool, true, false, not, ◌&&◌, none, some, List, [],
  ◌∷◌, arith, ◌==◌, if◌then◌else◌, length, count_if, count_if-le-length,
}
use mds.Dir.Key.{Key, key_eq_iff}
use mds.Dir.Types.{Linkage, Dentry, key_of, Contents}
use mds.Dir.Items.{
  find_item, put_item, erase_item, is_null, count_up, count_down, get_num_any, sizes_agree,
}
use mds.Dir.Items.Maps.{
  KeysRise, put_item-KeysRise, erase_item-KeysRise, count_if-put_new, count_if-put_old,
  count_if-erase, find_item-erase_item, put_item-erase_item,
}

all_counted : (es : List Dentry) → count_if (λ _. true) es ≡ length es
all_counted [] = refl
all_counted (e ∷ es) = omega (arith, all_counted es)

module _ (nosnap : ℕ) where
  abbrev pub head_item : Dentry → Bool
  head_item dn = dn.last == nosnap && not (is_null dn.linkage)

  abbrev pub head_null : Dentry → Bool
  head_null dn = dn.last == nosnap && is_null dn.linkage

  abbrev pub snap_item : Dentry → Bool
  snap_item dn = not (dn.last == nosnap) && not (is_null dn.linkage)

  abbrev pub snap_null : Dentry → Bool
  snap_null dn = not (dn.last == nosnap) && is_null dn.linkage

  pub record Tallies (c : Contents) : Type 0 where
    pub rises : KeysRise c.items
    pub head_items : c.num_head_items ≡ count_if head_item c.items
    pub head_nulls : c.num_head_null ≡ count_if head_null c.items
    pub snap_items : c.num_snap_items ≡ count_if snap_item c.items
    pub snap_nulls : c.num_snap_null ≡ count_if snap_null c.items
    pub small : length c.items < 2 ^ 32

  kinds_sum :
      (es : List Dentry)
      → count_if head_item es
          + count_if head_null es
          + count_if snap_item es
          + count_if snap_null es
        ≡ length es
  kinds_sum [] = refl
  kinds_sum (e ∷ es) = ground (arith, kinds_sum es)

  -- So the sum of the counters is the size of the map, and the code's last assertion holds.
  pub get_num_any-eq : (c : Contents) → Tallies c → get_num_any c ≡ length c.items
  unfolding get_num_any
  get_num_any-eq c t =
      omega
        (arith, t.head_items, t.head_nulls, t.snap_items, t.snap_nulls, t.small, kinds_sum c.items)

  pub sizes_agree_lem : (c : Contents) → Tallies c → sizes_agree c ≡ true
  sizes_agree_lem c t = ground (arith, get_num_any-eq c t)

  pub length-put_new :
      (dn : Dentry) (es : List Dentry)
      → find_item (key_of dn) es ≡ none
      → length (put_item dn es) ≡ suc (length es)
  unfolding find_item put_item
  length-put_new dn [] h = refl
  length-put_new dn (e ∷ es) h = ground (arith, length-put_new dn es)

  pub length-put_old :
      (dn old : Dentry) (es : List Dentry)
      → KeysRise es
      → find_item (key_of dn) es ≡ some old
      → length (put_item dn es) ≡ length es
  length-put_old dn old es r h = omega (
    arith,
    all_counted es,
    all_counted (put_item dn es),
    count_if-put_old (λ _. true) dn old es r h,
  )

  pub length-erase :
      (k : Key) (dn : Dentry) (es : List Dentry)
      → find_item k es ≡ some dn
      → suc (length (erase_item k es)) ≡ length es
  unfolding find_item erase_item
  length-erase k dn [] h = cc
  length-erase k dn (e ∷ es) h = ground (arith, length-erase k dn es)

  -- The counters after a change of the map, if they follow the counts.
  Tallies-of :
      (is_head is_nul : Bool) (c : Contents) (es : List Dentry)
      → KeysRise es
      → length es < 2 ^ 32
      → count_if head_item es ≡ (if is_head && not is_nul then 1 else 0) + c.num_head_items
      → count_if head_null es ≡ (if is_head && is_nul then 1 else 0) + c.num_head_null
      → count_if snap_item es ≡ (if not is_head && not is_nul then 1 else 0) + c.num_snap_items
      → count_if snap_null es ≡ (if not is_head && is_nul then 1 else 0) + c.num_snap_null
      → Tallies (count_up is_head is_nul (record c { items = es }))
  Tallies-of true true c es r s a b d e = record {
    rises = r;
    head_items = omega arith;
    head_nulls = omega (arith, count_if-le-length head_null es);
    snap_items = omega arith;
    snap_nulls = omega arith;
    small = s;
  }
  Tallies-of true false c es r s a b d e = record {
    rises = r;
    head_items = omega (arith, count_if-le-length head_item es);
    head_nulls = omega arith;
    snap_items = omega arith;
    snap_nulls = omega arith;
    small = s;
  }
  Tallies-of false true c es r s a b d e = record {
    rises = r;
    head_items = omega arith;
    head_nulls = omega arith;
    snap_items = omega arith;
    snap_nulls = omega (arith, count_if-le-length snap_null es);
    small = s;
  }
  Tallies-of false false c es r s a b d e = record {
    rises = r;
    head_items = omega arith;
    head_nulls = omega arith;
    snap_items = omega (arith, count_if-le-length snap_item es);
    snap_nulls = omega arith;
    small = s;
  }

  -- A new dentry is counted.
  pub insert-Tallies :
      (dn : Dentry) (c : Contents)
      → Tallies c
      → length c.items + 1 < 2 ^ 32
      → find_item (key_of dn) c.items ≡ none
      → Tallies (
          count_up
            (dn.last == nosnap)
            (is_null dn.linkage)
            (record c { items = put_item dn c.items }))
  insert-Tallies dn c t room new =
      Tallies-of (dn.last == nosnap) (is_null dn.linkage) c (put_item dn c.items)
        (put_item-KeysRise dn c.items t.rises) (omega (arith, length-put_new dn c.items new))
        (omega (arith, t.head_items, count_if-put_new head_item dn c.items new))
        (omega (arith, t.head_nulls, count_if-put_new head_null dn c.items new))
        (omega (arith, t.snap_items, count_if-put_new snap_item dn c.items new))
        (omega (arith, t.snap_nulls, count_if-put_new snap_null dn c.items new))

  -- The counters before a dentry comes back under another link, or after it went.
  down_of :
      (is_head is_nul : Bool) (c : Contents) (es : List Dentry)
      → KeysRise es
      → Tallies c
      → length es ≤ length c.items
      → count_if head_item es + (if is_head && not is_nul then 1 else 0) ≡ c.num_head_items
      → count_if head_null es + (if is_head && is_nul then 1 else 0) ≡ c.num_head_null
      → count_if snap_item es + (if not is_head && not is_nul then 1 else 0) ≡ c.num_snap_items
      → count_if snap_null es + (if not is_head && is_nul then 1 else 0) ≡ c.num_snap_null
      → Tallies (record (count_down is_head is_nul c) { items = es })
  down_of true true c es r t s a b d e = record {
    rises = r;
    head_items = omega arith;
    head_nulls = omega (arith, t.small, count_if-le-length head_null es);
    snap_items = omega arith;
    snap_nulls = omega arith;
    small = omega (arith, t.small);
  }
  down_of true false c es r t s a b d e = record {
    rises = r;
    head_items = omega (arith, t.small, count_if-le-length head_item es);
    head_nulls = omega arith;
    snap_items = omega arith;
    snap_nulls = omega arith;
    small = omega (arith, t.small);
  }
  down_of false true c es r t s a b d e = record {
    rises = r;
    head_items = omega arith;
    head_nulls = omega arith;
    snap_items = omega arith;
    snap_nulls = omega (arith, t.small, count_if-le-length snap_null es);
    small = omega (arith, t.small);
  }
  down_of false false c es r t s a b d e = record {
    rises = r;
    head_items = omega arith;
    head_nulls = omega arith;
    snap_items = omega (arith, t.small, count_if-le-length snap_item es);
    snap_nulls = omega arith;
    small = omega (arith, t.small);
  }

  -- A dentry that goes is no longer counted.
  pub erase-Tallies :
      (dn : Dentry) (c : Contents)
      → Tallies c
      → find_item (key_of dn) c.items ≡ some dn
      → Tallies (record (count_down (dn.last == nosnap) (is_null dn.linkage) c) {
        items = erase_item (key_of dn) c.items;
      })
  erase-Tallies dn c t old =
      let k = key_of dn in
      down_of (dn.last == nosnap) (is_null dn.linkage) c (erase_item k c.items)
        (erase_item-KeysRise k c.items t.rises) t (omega (arith, length-erase k dn c.items old))
        (omega (arith, t.head_items, count_if-erase head_item k dn c.items old))
        (omega (arith, t.head_nulls, count_if-erase head_null k dn c.items old))
        (omega (arith, t.snap_items, count_if-erase snap_item k dn c.items old))
        (omega (arith, t.snap_nulls, count_if-erase snap_null k dn c.items old))

  -- A dentry whose link changes is counted anew.
  pub relink-Tallies :
      (dn : Dentry) (link : Linkage) (c : Contents)
      → Tallies c
      → find_item (key_of dn) c.items ≡ some dn
      → let c' = record c { items = put_item (record dn { linkage = link }) c.items } in
        Tallies (
          count_up
            (dn.last == nosnap)
            (is_null link)
            (count_down (dn.last == nosnap) (is_null dn.linkage) c'))
  relink-Tallies dn link c t old =
      subst Tallies (recounted (dn.last == nosnap) (is_null link) (is_null dn.linkage)) (
        insert-Tallies dn' mid (erase-Tallies dn c t old) (omega (arith, shorter, t.small))
          (ground (arith, find_item-erase_item k k c.items t.rises, key_eq_iff k k)))
    where
      k : Key
      k = key_of dn

      dn' : Dentry
      dn' = record dn { linkage = link }

      mid : Contents
      mid = record (count_down (dn.last == nosnap) (is_null dn.linkage) c) {
        items = erase_item k c.items;
      }

      shorter : suc (length (erase_item k c.items)) ≡ length c.items
      shorter = length-erase k dn c.items old

      recounted :
          (h n w : Bool)
          → count_up h n (record (count_down h w c) { items = put_item dn' (erase_item k c.items) })
            ≡ count_up h n (count_down h w (record c { items = put_item dn' c.items }))
      recounted h n w = ground (arith, put_item-erase_item dn' dn c.items t.rises old)
