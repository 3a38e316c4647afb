-- ===== src/Dir/Items/Adding.antt =====
-- mds/CDir.cc: the three ways to add a dentry.
use mds.Prelude.{ℕ, ◌+◌, ◌^◌, ◌<◌, ◌≡◌, refl, length, arith}
use mds.Dir.Key.{Name, Key}
use mds.Dir.Types.{
  null, remote, primary, key_of, set_primary_parent, Inode, Dir, Dentry, Call, call,
}
use mds.Dir.Items.{
  lookup_exact_snap, new_dentry, insert_dentry, pin_new, link_inode_work, add_null_dentry,
  add_remote_dentry, add_primary_dentry,
}
use mds.Dir.Items.Counters.{Consistent, Adds, finish_add, pin_new-calls}

linked-calls :
    (dn : Dentry) (k : Key) (ino : ℕ) (i : Inode) (c : Call) (d : Dir)
    → pin_new dn (link_inode_work k ino i (call c d))
      ≡ record d { calls = (pin_new dn (link_inode_work k ino i (call c d))).calls }
unfolding link_inode_work
linked-calls dn k ino i c d = ground arith

module _ (nosnap : ℕ) (dname : Name) (first last : ℕ) (d : Dir) where
  module _ (v : Consistent nosnap d) (room : length d.contents.items + 1 < 2 ^ 32) where
    add_null :
        Adds nosnap
          (new_dentry d dname first last null)
          d
          (add_null_dentry nosnap dname first last d)
    unfolding add_null_dentry lookup_exact_snap
    add_null = (
      λ there. ground arith,
      λ new.
          let dn = new_dentry d dname first last null in
          let ins = insert_dentry nosnap dn d in
          let (d', done, v', finds) = finish_add nosnap dn d (pin_new dn ins).calls v room new in
          (d', rw (new, pin_new-calls dn ins, done) refl, v', finds),
    )

    add_remote :
        (ino d_type : ℕ)
        → Adds nosnap
            (new_dentry d dname first last (remote ino d_type))
            d
            (add_remote_dentry nosnap dname ino d_type first last d)
    unfolding add_remote_dentry lookup_exact_snap
    add_remote ino d_type = (
      λ there. ground arith,
      λ new.
          let dn = new_dentry d dname first last (remote ino d_type) in
          let ins = insert_dentry nosnap dn d in
          let (d', done, v', finds) = finish_add nosnap dn d (pin_new dn ins).calls v room new in
          (d', rw (new, pin_new-calls dn ins, done) refl, v', finds),
    )

    add_primary :
        (ino : ℕ) (i : Inode)
        → Adds nosnap
            (new_dentry d dname first last (primary ino))
            d
            (add_primary_dentry nosnap dname ino i first last d)
    unfolding add_primary_dentry lookup_exact_snap
    add_primary ino i = (
      λ there. ground arith,
      λ new.
          let dn = new_dentry d dname first last (primary ino) in
          let k = key_of dn in
          let ins = insert_dentry nosnap dn d in
          let asked = set_primary_parent ino k in
          let linked = link_inode_work k ino i (call asked ins) in
          let (d', done, v', finds) = finish_add nosnap dn d (pin_new dn linked).calls v room new in
          (d', rw (new, linked-calls dn k ino i asked ins, done) refl, v', finds),
    )

  -- A null, a remote and a primary dentry are each added exactly if no dentry has their name and
  -- last snapshot. An addition that succeeds fails no assertion on the way, keeps the counters, the
  -- map and the pins in step, and changes no other dentry.
  pub add_dentry_lem :
      (ino d_type : ℕ) (i : Inode)
      → Consistent nosnap d
      → length d.contents.items + 1 < 2 ^ 32
      → Adds nosnap
          (new_dentry d dname first last null)
          d
          (add_null_dentry nosnap dname first last d)
        × Adds nosnap
            (new_dentry d dname first last (remote ino d_type))
            d
            (add_remote_dentry nosnap dname ino d_type first last d)
        × Adds nosnap
            (new_dentry d dname first last (primary ino))
            d
            (add_primary_dentry nosnap dname ino i first last d)
  add_dentry_lem ino d_type i v room =
      (add_null v room, add_remote v room ino d_type, add_primary v room ino i)
