-- ===== src/Dir/Types.antt =====
-- mds/CDir.h: the state of a directory fragment. Its dentries and inodes are classes that the
-- repository does not hold: a dentry is the data that CDir reads of it, an inode is known by its
-- number and seen through a view, and what CDir asks of other objects is a list of calls.
use mds.Prelude.{ℕ, Bool, Option, some, List, ◌∷◌, ◌>>=◌}
use mds.Prelude.Int.{ℤ}
use mds.CacheObject.{CacheObject, Pin, get, put}
use mds.Dir.Key.{Key, Name}

-- CEPH_NOSNAP, the snapshot id of the head, is the parameter of what depends on it.
pub data Linkage : Type 0 where
  null : Linkage
  remote : (ino d_type : ℕ) → Linkage
  primary : (ino : ℕ) → Linkage

pub record Dentry : Type 0 where
  pub name : Name
  pub first : ℕ
  pub last : ℕ
  pub linkage : Linkage
  pub version : ℕ
  pub is_auth : Bool
  pub is_fragmenting : Bool
  pub is_dirty : Bool
  pub is_new : Bool
  pub is_projected : Bool
  pub num_ref : ℕ
  pub num_leases : ℕ

abbrev pub key_of : Dentry → Key
key_of dn = record { snapid = dn.last; name = dn.name }

-- What CDir reads of an inode.
pub record Inode : Type 0 where
  pub num_ref : ℕ
  pub auth_pins : ℕ
  pub nested_auth_pins : ℕ
  pub has_snaprealm : Bool
  pub is_dirty : Bool

-- What CDir asks of other objects.
pub data Call : Type 0 where
  lru_insert_mid lru_remove : Key → Call
  pin_fragmenting unpin_fragmenting pin_inode unpin_inode : Key → Call
  mark_dentry_clean unlink_remote : Key → Call
  mark_inode_clean remove_inode : (ino : ℕ) → Call
  adjust_dentry_auth_pins : Key → (inc dirinc : ℤ) → Call
  set_primary_parent remove_primary_parent : (ino : ℕ) → Key → Call
  adjust_snaprealm_parent : (ino : ℕ) → Call
  inode_auth_pin inode_auth_unpin : Call
  inode_adjust_nested_auth_pins : (up : Bool) → Call  -- by 1, or by -1
  inode_wait_unfreeze : Call  -- C_Dir_AuthUnpin, when the inode unfreezes
  queue_waiters : List ℕ → Call
  finish_contexts : List ℕ → ℤ → Call
  omap_commit : (version : ℕ) → Call
  omap_fetch : Call
  list_dirty list_new unlist_dirty unlist_new : Call  -- the lists of a log segment

-- The bits of the state word that CDir tests by name.
pub record Flags : Type 0 where
  pub auth : Bool
  pub dirty_bit : Bool
  pub complete : Bool
  pub frozen_tree : Bool
  pub freezing_tree : Bool
  pub frozen_dir : Bool
  pub freezing_dir : Bool
  pub committing : Bool
  pub fetching : Bool
  pub dn_pinned_frag : Bool

-- The map of the dentries, by rising keys, and its four counters (`unsigned`).
pub record Contents : Type 0 where
  pub items : List Dentry
  pub num_head_items : ℕ
  pub num_head_null : ℕ
  pub num_snap_items : ℕ
  pub num_snap_null : ℕ

-- The counters of auth pins (`int`, never negative by the code's assertions) and `dir_auth`.
pub record Pinning : Type 0 where
  pub auth_pins : ℕ
  pub nested_auth_pins : ℕ
  pub dir_auth_pins : ℕ
  pub dir_auth : ℤ × ℤ

pub record Versions : Type 0 where
  pub version : ℕ
  pub projected_version : ℕ
  pub committing_version : ℕ
  pub committed_version : ℕ

pub record Dir : Type 0 where
  pub base : CacheObject ℕ
  pub flags : Flags
  pub contents : Contents
  pub pinning : Pinning
  pub versions : Versions
  pub calls : List Call  -- newest first

abbrev pub child : Pin
child = 3

abbrev pub frozen : Pin
frozen = 4

-- `get` and `put` on the fragment's own reference count.
abbrev pub get_pin : Pin → Dir → Option Dir
get_pin by d = get by d.base >>= λ o. some (record d { base = o })

abbrev pub put_pin : Pin → Dir → Option Dir
put_pin by d = put by d.base >>= λ o. some (record d { base = o })

abbrev pub call : Call → Dir → Dir
call c d = record d { calls = c ∷ d.calls }
