-- ===== src/Dir/Tests.antt =====
-- A fragment with a null dentry and a primary one, and what the operations make of it.
use mds.Prelude.{
  Bool, true, ◌||◌, leb, if◌then◌else◌, ◌≤◌, ◌≡◌, ◌≢◌, ◌↔◌, refl, ◌&&◌, true, false, none, some, [],
  ◌∷◌, arith,
}
use mds.CacheObject.{first_get, get_pin_totals, pins}
use mds.Dir.Key.{Key, Name, strcmp, key_lt, key_eq, name_eq}
use mds.Dir.Types.{Linkage, null, remote, primary, Dentry, key_of, Inode, Dir}
use mds.Dir.Items.{
  find_item, is_null, lookup, new_dentry, add_null_dentry, add_remote_dentry, add_primary_dentry,
  link_remote_inode, link_primary_inode, unlink_inode, remove_dentry,
}
use mds.Dir.Items.Maps.{KeysRise}
use mds.Dir.Items.Counters.{Consistent, Adds}
use mds.Dir.Items.Adding.{add_dentry_lem}
use mds.Dir.Items.Linking.{Relinks, Removes, link_inode_lem, unlink_inode_lem, remove_dentry_lem}
use mds.Dir.Versions.{Versioned, start_commit, start_commit_lem}
use mds.Dir.Types.{omap_commit}
use mds.Dir.Snaps.{try_trim_snap_dentry, IsStale, try_trim_snap_dentry_lem}
use mds.Dir.Items.Lookup.{Apart, InMap, lookup_iff}
use mds.Prelude.Int.{negsuc}

-- The names "a", "b" and "c"; 99 stands for CEPH_NOSNAP.
abbrev name_a : Name
name_a = 97 ∷ []

abbrev name_b : Name
name_b = 98 ∷ []

abbrev name_c : Name
name_c = 99 ∷ []

abbrev dentry : Name → Linkage → Dentry
dentry name link = record {
  name = name;
  first = 5;
  last = 99;
  linkage = link;
  version = 7;
  is_auth = true;
  is_fragmenting = false;
  is_dirty = true;
  is_new = false;
  is_projected = false;
  num_ref = 1;
  num_leases = 0;
}

abbrev gone : Dentry
gone = dentry name_a null

abbrev file : Dentry
file = dentry name_b (primary 700)

abbrev two : Dir
two = record {
  base = record {
    ref = 1;
    ref_map = (3, 1) ∷ [];
    notifies = false;
    hooks = first_get ∷ [];
    replica_map = [];
    waiting = [];
  };
  flags = record {
    auth = true;
    dirty_bit = false;
    complete = true;
    frozen_tree = false;
    freezing_tree = false;
    frozen_dir = false;
    freezing_dir = false;
    committing = false;
    fetching = false;
    dn_pinned_frag = false;
  };
  contents = record {
    items = gone ∷ file ∷ [];
    num_head_items = 1;
    num_head_null = 1;
    num_snap_items = 0;
    num_snap_null = 0;
  };
  pinning = record {
    auth_pins = 0;
    nested_auth_pins = 0;
    dir_auth_pins = 0;
    dir_auth = (negsuc 0, negsuc 1);
  };
  versions = record {
    version = 8;
    projected_version = 8;
    committing_version = 7;
    committed_version = 7;
  };
  calls = [];
}

abbrev inode : Inode
inode = record {
  num_ref = 2;
  auth_pins = 1;
  nested_auth_pins = 2;
  has_snaprealm = false;
  is_dirty = false;
}

two-KeysRise : KeysRise two.contents.items
unfolding key_lt strcmp
two-KeysRise = (refl, tt)

two-Consistent : Consistent 99 two
unfolding get_pin_totals pins
two-Consistent = record {
  tallies = record {
    rises = two-KeysRise;
    head_items = refl;
    head_nulls = refl;
    snap_items = refl;
    snap_nulls = refl;
    small = omega arith;
  };
  counted = record { total = refl; in_turn = refl };
  pinned = refl;
}

find-gone : find_item (key_of gone) two.contents.items ≡ some gone
unfolding find_item key_eq name_eq
find-gone = ground arith

find-file : find_item (key_of file) two.contents.items ≡ some file
unfolding find_item key_eq name_eq
find-file = refl

add_dentry_lem_example :
    Adds 99 (new_dentry two name_c 5 99 null) two (add_null_dentry 99 name_c 5 99 two)
    × Adds 99
        (new_dentry two name_c 5 99 (remote 800 1))
        two
        (add_remote_dentry 99 name_c 800 1 5 99 two)
    × Adds 99
        (new_dentry two name_c 5 99 (primary 800))
        two
        (add_primary_dentry 99 name_c 800 inode 5 99 two)
add_dentry_lem_example = add_dentry_lem 99 name_c 5 99 two 800 1 inode two-Consistent (omega arith)

link_inode_lem_example :
    Relinks 99 gone (remote 800 1) two (link_remote_inode 99 gone 800 1 two)
    × Relinks 99 gone (primary 800) two (link_primary_inode 99 gone 800 inode two)
link_inode_lem_example = link_inode_lem 99 gone 800 1 inode two two-Consistent find-gone refl

unlink_inode_lem_example :
    (is_null file.linkage ≡ false
      → Relinks 99 file null two (unlink_inode 99 (λ n. inode) false file two))
    × (is_null file.linkage ≡ true → unlink_inode 99 (λ n. inode) false file two ≡ none)
unlink_inode_lem_example = unlink_inode_lem 99 (λ n. inode) false file two two-Consistent find-file

remove_dentry_lem_example :
    (file.num_leases ≡ 0 → Removes 99 file two (remove_dentry 99 (λ n. inode) false file two))
    × (file.num_leases ≢ 0 → remove_dentry 99 (λ n. inode) false file two ≡ none)
remove_dentry_lem_example =
    remove_dentry_lem 99 (λ n. inode) false file two two-Consistent find-file

two-Apart : Apart two.contents.items
two-Apart = ((λ e. ground (arith, e), tt), (tt, tt))

lookup_iff_example :
    (lookup name_b 60 two ≡ some file)
    ↔ (InMap file two.contents.items × (file.name ≡ name_b) × (file.first ≤ 60) × (60 ≤ file.last))
lookup_iff_example = lookup_iff name_b 60 file two two-KeysRise two-Apart

-- A dirty null dentry of the snapshots 5 to 50, alone in its fragment.
abbrev stale : Dentry
stale = record (dentry name_a null) { last = 50 }

abbrev lone : Dir
lone = record two {
  contents = record {
    items = stale ∷ [];
    num_head_items = 0;
    num_head_null = 0;
    num_snap_items = 0;
    num_snap_null = 1;
  };
}

lone-Consistent : Consistent 99 lone
unfolding get_pin_totals pins
lone-Consistent = record {
  tallies = record {
    rises = tt;
    head_items = refl;
    head_nulls = refl;
    snap_items = refl;
    snap_nulls = refl;
    small = omega arith;
  };
  counted = record { total = refl; in_turn = refl };
  pinned = refl;
}

find-stale : find_item (key_of stale) lone.contents.items ≡ some stale
unfolding find_item key_eq name_eq
find-stale = refl

try_trim_snap_dentry_lem_example :
    (trimmed : Bool) × (d' : Dir) × (try_trim_snap_dentry 99
        (λ i. i)
        (λ n. inode)
        false
        (3 ∷ 60 ∷ [])
        stale
        lone
      ≡ some (trimmed, d'))
    × (trimmed ≡ true → IsStale (λ n. inode) (3 ∷ 60 ∷ []) stale)
    × (IsStale (λ n. inode) (3 ∷ 60 ∷ []) stale → trimmed ≡ true)
    × Consistent 99 d'
    × ((k : Key)
        → find_item k d'.contents.items
          ≡ (if trimmed && key_eq k (key_of stale) then none else find_item k lone.contents.items))
try_trim_snap_dentry_lem_example =
    try_trim_snap_dentry_lem 99 (λ i. i) (λ n. inode) false (3 ∷ 60 ∷ []) stale lone lone-Consistent
      find-stale refl (omega arith) ((omega arith, tt), (tt, tt))

two-Versioned : Versioned two
unfolding get_pin_totals pins
two-Versioned = record {
  counted = record { total = refl; in_turn = refl };
  pinned = refl;
  committed = omega arith;
  committing = omega arith;
  projected = omega arith;
  on_its_way = refl;
}

start_commit_lem_example :
    (d' : Dir) × (start_commit 8 two ≡ some d')
    × Versioned d'
    × ((d'.flags.committing || leb 8 d'.versions.committed_version) ≡ true)
    × (d'.calls ≡ (if leb 8 7 || two.flags.committing then [] else omap_commit 8 ∷ []))
start_commit_lem_example = start_commit_lem 8 two two-Versioned refl (omega arith)
