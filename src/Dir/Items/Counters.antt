-- ===== src/Dir/Items/Counters.antt =====
-- mds/CDir.cc: adding, linking, unlinking and removing dentries keeps the counters, the map and the
-- pin of the children in step, and fails no assertion.
use mds.Prelude.{
  ℕ, ◌+◌, ◌-◌, ◌^◌, ◌≤◌, ◌<◌, ◌≡◌, ◌≢◌, refl, Bool, true, false, Option, none, some, List, [], ◌∷◌,
  arith, ◌==◌, if◌then◌else◌, length, Bool-cases, inl, inr,
}
use mds.CacheObject.{pins}
use mds.CacheObject.Pins.{
  Counted, got, dropped, get-eq, got-Counted, put-eq, dropped-Counted, pins-set_pins,
}
use mds.CacheObject.Waiters.{one_if_any}
use mds.Dir.Key.{Key, key_eq}
use mds.Dir.Types.{Dentry, key_of, Inode, Call, Contents, Dir, child}
use mds.Dir.Items.{
  find_item, put_item, is_null, count_up, count_down, insert_dentry, pin_child, unpin_child,
  pin_new, link_inode_work,
}
use mds.Dir.Items.Maps.{find_item-put_item}
use mds.Dir.Items.Tallies.{Tallies, get_num_any-eq, sizes_agree_lem, insert-Tallies, length-put_new}

-- The map is sorted and counted, the references are counted, and the pin of the children is held
-- once if there is a dentry.
pub record Consistent (nosnap : ℕ) (d : Dir) : Type 0 where
  pub tallies : Tallies nosnap d.contents
  pub counted : Counted d.base
  pub pinned : pins child d.base.ref_map ≡ one_if_any d.contents.items

pub items-count_up : (h n : Bool) (c : Contents) → (count_up h n c).items ≡ c.items
items-count_up true true c = refl
items-count_up true false c = refl
items-count_up false true c = refl
items-count_up false false c = refl

pub items-count_down : (h n : Bool) (c : Contents) → (count_down h n c).items ≡ c.items
items-count_down true true c = refl
items-count_down true false c = refl
items-count_down false true c = refl
items-count_down false false c = refl

-- These steps only ask something of other objects.
pub pin_new-calls :
    (dn : Dentry) (d : Dir) → pin_new dn d ≡ record d { calls = (pin_new dn d).calls }
pin_new-calls dn d = ground arith

pub link_inode_work-calls :
    (k : Key) (ino : ℕ) (i : Inode) (d : Dir)
    → link_inode_work k ino i d ≡ record d { calls = (link_inode_work k ino i d).calls }
unfolding link_inode_work
link_inode_work-calls k ino i d = ground arith

module _ (nosnap : ℕ) where
  one-length : (es : List Dentry) → one_if_any es ≡ (if length es == 0 then 0 else 1)
  one-length [] = refl
  one-length (e ∷ es) = ground arith

  -- After an insertion: the pin is taken with the first dentry.
  pin_child_lem :
      (d : Dir)
      → Tallies nosnap d.contents
      → Counted d.base
      → 1 ≤ length d.contents.items
      → pins child d.base.ref_map ≡ (if length d.contents.items == 1 then 0 else 1)
      → (d' : Dir) × (pin_child d ≡ some d') × Consistent nosnap d' × (d'.contents ≡ d.contents)
  unfolding pin_child
  pin_child_lem d t c some_item p = elim (Bool-cases (length d.contents.items == 1)) [
    | inl e ↦ (
      record d { base = got child d.base },
      ground (
        arith,
        get_num_any-eq nosnap d.contents t,
        sizes_agree_lem nosnap d.contents t,
        get-eq child d.base c,
      ),
      record {
        tallies = t;
        counted = got-Counted child d.base c;
        pinned = ground (
          arith,
          one-length d.contents.items,
          pins-set_pins child child (pins child d.base.ref_map + 1) d.base.ref_map,
        );
      },
      refl,
    )
    | inr e ↦ (
      d,
      ground (arith, get_num_any-eq nosnap d.contents t, sizes_agree_lem nosnap d.contents t),
      record { tallies = t; counted = c; pinned = ground (arith, one-length d.contents.items) },
      refl,
    )
  ]

  -- After a removal: the pin goes with the last dentry.
  pub unpin_child_lem :
      (d : Dir)
      → Tallies nosnap d.contents
      → Counted d.base
      → pins child d.base.ref_map ≡ 1
      → (d' : Dir) × (unpin_child d ≡ some d') × Consistent nosnap d' × (d'.contents ≡ d.contents)
  unfolding unpin_child
  unpin_child_lem d t c p = elim (Bool-cases (length d.contents.items == 0)) [
    | inl e ↦
        let held : 0 < pins child d.base.ref_map = omega arith in
        (
          record d { base = dropped child d.base },
          ground (
            arith,
            get_num_any-eq nosnap d.contents t,
            sizes_agree_lem nosnap d.contents t,
            put-eq child d.base c held,
          ),
          record {
            tallies = t;
            counted = dropped-Counted child d.base c held;
            pinned = ground (
              arith,
              one-length d.contents.items,
              pins-set_pins child child (pins child d.base.ref_map - 1) d.base.ref_map,
            );
          },
          refl,
        )
    | inr e ↦ (
      d,
      ground (arith, get_num_any-eq nosnap d.contents t, sizes_agree_lem nosnap d.contents t),
      record { tallies = t; counted = c; pinned = ground (arith, one-length d.contents.items) },
      refl,
    )
  ]

  -- What is promised of an addition of `dn`: it fails if its key is there. Else it succeeds, the
  -- fragment stays consistent, and the map has the dentry and else what it had.
  abbrev pub Adds : Dentry → Dir → Option (Dentry × Dir) → Type 0
  Adds dn d r =
      (find_item (key_of dn) d.contents.items ≢ none → r ≡ none)
      × (find_item (key_of dn) d.contents.items ≡ none
          → (d' : Dir) × (r ≡ some (dn, d'))
            × Consistent nosnap d'
            × ((k : Key)
                → find_item k d'.contents.items
                  ≡ (if key_eq k (key_of dn) then some dn else find_item k d.contents.items)))

  -- The end of an addition, whatever was asked of other objects.
  pub finish_add :
      (dn : Dentry) (d : Dir) (cs : List Call)
      → Consistent nosnap d
      → length d.contents.items + 1 < 2 ^ 32
      → find_item (key_of dn) d.contents.items ≡ none
      → (d' : Dir) × (pin_child (record (insert_dentry nosnap dn d) { calls = cs }) ≡ some d')
        × Consistent nosnap d'
        × ((k : Key)
            → find_item k d'.contents.items
              ≡ (if key_eq k (key_of dn) then some dn else find_item k d.contents.items))
  unfolding insert_dentry
  finish_add dn d cs v room new =
      let c = record d.contents { items = put_item dn d.contents.items } in
      let its = items-count_up (dn.last == nosnap) (is_null dn.linkage) c in
      let (d', done, v', same) =
        pin_child_lem (record (insert_dentry nosnap dn d) { calls = cs })
          (insert-Tallies nosnap dn d.contents v.tallies room new) v.counted
          (rw its (omega (arith, length-put_new nosnap dn d.contents.items new)))
          (rw its (
            ground (
              arith,
              v.pinned,
              one-length d.contents.items,
              length-put_new nosnap dn d.contents.items new,
            ))) in
      (d', done, v', λ k. rw (same, its) (find_item-put_item k dn d.contents.items))
