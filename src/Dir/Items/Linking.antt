-- ===== src/Dir/Items/Linking.antt =====
-- mds/CDir.cc: linking, unlinking and removing a dentry.
use mds.Prelude.{
  ℕ, ◌≡◌, ◌≢◌, refl, sym, subst, inl, inr, Bool-cases, Bool, true, false, ◌==◌, if◌then◌else◌,
  length, arith, Option, some, none, ◌>>◌, assert, List, [], ◌∷◌,
}
use mds.CacheObject.Waiters.{one_if_any}
use mds.Dir.Key.{Key, key_eq}
use mds.Dir.Types.{
  Linkage, null, remote, primary, key_of, set_primary_parent, Inode, Dir, Dentry, Contents, Call,
  call, unpin_fragmenting, lru_remove, mark_dentry_clean,
}
use mds.Dir.Items.{
  find_item, put_item, erase_item, is_null, count_down, sizes_agree, relink, link_inode_work,
  unlink_calls, unlink_inode_work, link_remote_inode, link_primary_inode, unlink_inode,
  remove_dentry, unpin_child,
}
use mds.Dir.Items.Maps.{find_item-put_item, find_item-erase_item}
use mds.Dir.Items.Tallies.{sizes_agree_lem, relink-Tallies, erase-Tallies, length-put_old}
use mds.Dir.Items.Counters.{Consistent, unpin_child_lem, items-count_up, items-count_down}

one_if_any-length : (es fs : List Dentry) → length es ≡ length fs → one_if_any es ≡ one_if_any fs
one_if_any-length [] [] h = refl
one_if_any-length [] (f ∷ fs) h = absurd (omega arith)
one_if_any-length (e ∷ es) [] h = absurd (omega arith)
one_if_any-length (e ∷ es) (f ∷ fs) h = refl

-- A link that is not null is taken apart by calls only.
unlink_calls-some :
    (inodes : ℕ → Inode) (loaded : Bool) (k : Key) (l : Linkage) (cs : List Call)
    → is_null l ≡ false
    → (cs' : List Call) × (unlink_calls inodes loaded k l cs ≡ some cs')
unfolding unlink_calls
unlink_calls-some inodes loaded k null cs h = absurd (ground arith)
unlink_calls-some inodes loaded k (remote ino d_type) cs h = (_, refl)
unlink_calls-some inodes loaded k (primary ino) cs h = (_, refl)

unlink_calls-none :
    (inodes : ℕ → Inode) (loaded : Bool) (k : Key) (l : Linkage) (cs : List Call)
    → is_null l ≡ true
    → unlink_calls inodes loaded k l cs ≡ none
unfolding unlink_calls
unlink_calls-none inodes loaded k null cs h = refl
unlink_calls-none inodes loaded k (remote ino d_type) cs h = cc
unlink_calls-none inodes loaded k (primary ino) cs h = cc

one_if_some :
    (k : Key) (dn : Dentry) (es : List Dentry) → find_item k es ≡ some dn → one_if_any es ≡ 1
unfolding find_item
one_if_some k dn [] h = cc
one_if_some k dn (e ∷ es) h = refl

module _ (nosnap : ℕ) where
  -- What is promised of a change of the link of `dn`: it succeeds, the fragment stays consistent,
  -- and the map has `dn` with the new link and else what it had.
  abbrev pub Relinks : Dentry → Linkage → Dir → Option Dir → Type 0
  Relinks dn link d r =
      (d' : Dir) × (r ≡ some d')
      × Consistent nosnap d'
      × ((k : Key)
          → find_item k d'.contents.items ≡ (
              if key_eq k (key_of dn)
              then some (record dn { linkage = link })
              else find_item k d.contents.items))

  pub Consistent-same :
      (d e : Dir)
      → (e.contents ≡ d.contents) × (e.base ≡ d.base)
      → Consistent nosnap d
      → Consistent nosnap e
  Consistent-same d e (c, b) v = record {
    tallies = rw c v.tallies;
    counted = rw b v.counted;
    pinned = rw (c, b) v.pinned;
  }

  relink_lem :
      (dn : Dentry) (link : Linkage) (d : Dir)
      → Consistent nosnap d
      → find_item (key_of dn) d.contents.items ≡ some dn
      → Consistent nosnap (relink nosnap dn link d)
        × (sizes_agree (relink nosnap dn link d).contents ≡ true)
        × ((k : Key)
            → find_item k (relink nosnap dn link d).contents.items ≡ (
                if key_eq k (key_of dn)
                then some (record dn { linkage = link })
                else find_item k d.contents.items))
  unfolding relink
  relink_lem dn link d v there =
      let dn' : Dentry = record dn { linkage = link } in
      let c : Contents = record d.contents { items = put_item dn' d.contents.items } in
      let t = relink-Tallies nosnap dn link d.contents v.tallies there in
      let down = items-count_down (dn.last == nosnap) (is_null dn.linkage) c in
      let up =
        items-count_up (dn.last == nosnap) (is_null link)
          (count_down (dn.last == nosnap) (is_null dn.linkage) c) in
      (
        record {
          tallies = t;
          counted = v.counted;
          pinned =
              rw (up, down, v.pinned)
                (one_if_any-length d.contents.items (put_item dn' d.contents.items) (
                  omega
                    (arith, length-put_old nosnap dn' dn d.contents.items v.tallies.rises there)));
        },
        sizes_agree_lem nosnap _ t,
        λ k. rw (up, down) (find_item-put_item k dn' d.contents.items),
      )

  -- The end of a change of link, on the fragment `e` that was asked something of other objects.
  relinked :
      (dn : Dentry) (link : Linkage) (d e : Dir)
      → Consistent nosnap d
      → find_item (key_of dn) d.contents.items ≡ some dn
      → (e.contents ≡ d.contents) × (e.base ≡ d.base)
      → Relinks dn link d
          (let d' = relink nosnap dn link e in assert (sizes_agree d'.contents) >> some d')
  relinked dn link d e v there (c, b) =
      let (v', agree, finds) = relink_lem dn link e (Consistent-same d e (c, b) v) (rw c there) in
      (
        relink nosnap dn link e,
        rw agree refl,
        v',
        λ k.
            subst
              (λ x. find_item k (relink nosnap dn link e).contents.items ≡ (
                if key_eq k (key_of dn)
                then some (record dn { linkage = link })
                else find_item k x.items))
              c (finds k),
      )

  link_inode_work_keeps :
      (k : Key) (ino : ℕ) (i : Inode) (d : Dir)
      → ((link_inode_work k ino i d).contents ≡ d.contents)
        × ((link_inode_work k ino i d).base ≡ d.base)
  unfolding link_inode_work
  link_inode_work_keeps k ino i d = ground arith

  -- A null dentry of the map takes a remote link, and a primary one. Neither fails an assertion;
  -- the counters, the map and the pins stay in step, and no other dentry changes.
  pub link_inode_lem :
      (dn : Dentry) (ino d_type : ℕ) (i : Inode) (d : Dir)
      → Consistent nosnap d
      → find_item (key_of dn) d.contents.items ≡ some dn
      → is_null dn.linkage ≡ true
      → Relinks dn (remote ino d_type) d (link_remote_inode nosnap dn ino d_type d)
        × Relinks dn (primary ino) d (link_primary_inode nosnap dn ino i d)
  unfolding link_remote_inode link_primary_inode
  link_inode_lem dn ino d_type i d v there nul =
      let asked = call (set_primary_parent ino (key_of dn)) d in
      (
        rw nul (relinked dn (remote ino d_type) d d v there (refl, refl)),
        rw nul (
            relinked dn (primary ino) d (link_inode_work (key_of dn) ino i asked) v there
              (link_inode_work_keeps (key_of dn) ino i asked)),
      )

  -- A linked dentry of the map becomes null, and a null one fails the assertion.
  pub unlink_inode_lem :
      (inodes : ℕ → Inode) (loaded : Bool) (dn : Dentry) (d : Dir)
      → Consistent nosnap d
      → find_item (key_of dn) d.contents.items ≡ some dn
      → (is_null dn.linkage ≡ false → Relinks dn null d (unlink_inode nosnap inodes loaded dn d))
        × (is_null dn.linkage ≡ true → unlink_inode nosnap inodes loaded dn d ≡ none)
  unfolding unlink_inode unlink_inode_work
  unlink_inode_lem inodes loaded dn d v there = (
    λ linked.
        let (cs, done) = unlink_calls-some inodes loaded (key_of dn) dn.linkage d.calls linked in
        rw done (relinked dn null d (record d { calls = cs }) v there (refl, refl)),
    λ nul. rw (unlink_calls-none inodes loaded (key_of dn) dn.linkage d.calls nul) refl,
  )

  -- What is promised of the removal of `dn`: it succeeds, the fragment stays consistent, and the
  -- map has what it had but for `dn`.
  abbrev pub Removes : Dentry → Dir → Option Dir → Type 0
  Removes dn d r =
      (d' : Dir) × (r ≡ some d')
      × Consistent nosnap d'
      × ((k : Key)
          → find_item k d'.contents.items
            ≡ (if key_eq k (key_of dn) then none else find_item k d.contents.items))

  -- The fragment without `dn`, and with the calls given.
  abbrev without : Dentry → List Call → Dir → Dir
  without dn cs d =
      let c = count_down (dn.last == nosnap) (is_null dn.linkage) d.contents in
      record d { contents = record c { items = erase_item (key_of dn) c.items }; calls = cs }

  -- The end of a removal, whatever was asked of other objects.
  removed :
      (dn : Dentry) (d : Dir) (cs : List Call)
      → Consistent nosnap d
      → find_item (key_of dn) d.contents.items ≡ some dn
      → Removes dn d (unpin_child (without dn cs d))
  removed dn d cs v there =
      let k = key_of dn in
      let down = items-count_down (dn.last == nosnap) (is_null dn.linkage) d.contents in
      let t = erase-Tallies nosnap dn d.contents v.tallies there in
      let (d', done, v', same) =
        unpin_child_lem nosnap (without dn cs d) (rw down t) v.counted
          (rw v.pinned (one_if_some k dn d.contents.items there)) in
      (
        d',
        done,
        v',
        λ j. rw (same, down) (find_item-erase_item j k d.contents.items v.tallies.rises),
      )

  -- A removal up to its end.
  remove_dentry-calls :
      (inodes : ℕ → Inode) (loaded : Bool) (dn : Dentry) (d : Dir)
      → find_item (key_of dn) d.contents.items ≡ some dn
      → dn.num_leases ≡ 0
      → (cs : List Call) × (remove_dentry nosnap inodes loaded dn d ≡ unpin_child (without dn cs d))
  unfolding remove_dentry unlink_inode_work
  remove_dentry-calls inodes loaded dn d there free =
      let k = key_of dn in
      let down = items-count_down (dn.last == nosnap) (is_null dn.linkage) d.contents in
      let first = if d.flags.dn_pinned_frag then unpin_fragmenting k ∷ d.calls else d.calls in
      let last =
        λ (cs : List Call). lru_remove k ∷ (if dn.is_dirty then mark_dentry_clean k ∷ cs else cs) in
      elim (Bool-cases (is_null dn.linkage)) [
        | inl nul ↦ (last first, ground (arith, down))
        | inr linked ↦
            let (cs, done) = unlink_calls-some inodes loaded k dn.linkage first linked in
            (last cs, ground (arith, down, done))
      ]

  -- A dentry of the map with no lease is removed, whatever its link: no assertion fails, the
  -- counters, the map and the pins stay in step, the pin of the children goes with the last dentry,
  -- and no other dentry changes. One with a lease fails the first assertion.
  pub remove_dentry_lem :
      (inodes : ℕ → Inode) (loaded : Bool) (dn : Dentry) (d : Dir)
      → Consistent nosnap d
      → find_item (key_of dn) d.contents.items ≡ some dn
      → (dn.num_leases ≡ 0 → Removes dn d (remove_dentry nosnap inodes loaded dn d))
        × (dn.num_leases ≢ 0 → remove_dentry nosnap inodes loaded dn d ≡ none)
  unfolding remove_dentry
  remove_dentry_lem inodes loaded dn d v there = (
    λ free.
        let (cs, done) = remove_dentry-calls inodes loaded dn d there free in
        subst (Removes dn d) (sym done) (removed dn d cs v there),
    λ leased. ground arith,
  )
