-- ===== src/Dir/Items.antt =====
-- mds/CDir.cc: the dentries of a fragment and their four counters. `nosnap` is CEPH_NOSNAP.
pub mod Maps
pub mod Tallies
pub mod Counters
pub mod Adding
pub mod Linking
pub mod Lookup
use mds.Prelude.{
  ℕ, suc, ◌+◌, ◌-◌, ◌%◌, ◌^◌, ◌≡◌, Bool, true, false, not, ◌&&◌, Option, none, some, List, [], ◌∷◌,
  ltb, leb, ◌==◌, if◌then◌else◌, ◌>>=◌, ◌>>◌, assert, length,
}
use mds.Prelude.Int.{ℤ, pos, sub_ℕ}
use mds.Dir.Key.{Key, Name, key_lt, key_eq, name_eq}
use mds.Dir.Types.{
  Linkage, null, remote, primary, Dentry, key_of, Inode, Call, lru_insert_mid, lru_remove,
  pin_fragmenting, unpin_fragmenting, pin_inode, unpin_inode, mark_dentry_clean, unlink_remote,
  adjust_dentry_auth_pins, set_primary_parent, remove_primary_parent, adjust_snaprealm_parent,
  Contents, Dir, child, get_pin, put_pin, call,
}

-- `items.find(key)`.
unfoldable pub find_item : Key → List Dentry → Option Dentry
find_item k [] = none
find_item k (dn ∷ dns) = if key_eq k (key_of dn) then some dn else find_item k dns

-- `items[dn->key()] = dn`, where the key is new or names the dentry that is replaced.
unfoldable pub put_item : Dentry → List Dentry → List Dentry
put_item dn [] = dn ∷ []
put_item dn (e ∷ es) =
    if key_eq (key_of dn) (key_of e)
    then dn ∷ es
    else if key_lt (key_of dn) (key_of e)
    then dn ∷ e ∷ es
    else e ∷ put_item dn es

unfoldable pub erase_item : Key → List Dentry → List Dentry
erase_item k [] = []
erase_item k (e ∷ es) = if key_eq k (key_of e) then es else e ∷ erase_item k es

abbrev pub is_null : Linkage → Bool
is_null null = true
is_null (remote _ _) = false
is_null (primary _) = false

abbrev pub is_none {ℓ} : {A : Type ℓ} → Option A → Bool
is_none none = true
is_none (some _) = false

-- `unsigned` arithmetic.
abbrev pub inc32 : ℕ → ℕ
inc32 n = (n + 1) % 2 ^ 32

abbrev pub dec32 : ℕ → ℕ
dec32 n = (n + 2 ^ 32 - 1) % 2 ^ 32

-- One dentry more, or less, of its kind: head or snapped, null or not.
abbrev pub count_up : (is_head is_nul : Bool) → Contents → Contents
count_up true true c = record c { num_head_null = inc32 c.num_head_null }
count_up false true c = record c { num_snap_null = inc32 c.num_snap_null }
count_up true false c = record c { num_head_items = inc32 c.num_head_items }
count_up false false c = record c { num_snap_items = inc32 c.num_snap_items }

abbrev pub count_down : (is_head is_nul : Bool) → Contents → Contents
count_down true true c = record c { num_head_null = dec32 c.num_head_null }
count_down false true c = record c { num_snap_null = dec32 c.num_snap_null }
count_down true false c = record c { num_head_items = dec32 c.num_head_items }
count_down false false c = record c { num_snap_items = dec32 c.num_snap_items }

unfoldable pub get_num_any : Contents → ℕ
get_num_any c = (c.num_head_items + c.num_head_null + c.num_snap_items + c.num_snap_null) % 2 ^ 32

-- `assert(get_num_any() == items.size())`.
abbrev pub sizes_agree : Contents → Bool
sizes_agree c = get_num_any c == length c.items

unfoldable pub lookup_exact_snap : Name → (last : ℕ) → Dir → Option Dentry
lookup_exact_snap dname last d = find_item (record { snapid = last; name = dname }) d.contents.items

-- `items.lower_bound(key)`.
unfoldable pub lower_bound : Key → List Dentry → Option Dentry
lower_bound k [] = none
lower_bound k (e ∷ es) = if key_lt (key_of e) k then lower_bound k es else some e

-- The first dentry at or behind the key, if it has the name and reaches back to the snapshot.
pub picked : Name → (snap : ℕ) → Option Dentry → Option Dentry
picked name snap none = none
picked name snap (some dn) = if name_eq dn.name name && leb dn.first snap then some dn else none

unfoldable pub lookup : Name → (snap : ℕ) → Dir → Option Dentry
unfolding picked
lookup name snap d =
    picked name snap (lower_bound (record { snapid = snap; name = name }) d.contents.items)

-- A new dentry of the fragment.
abbrev pub new_dentry : Dir → Name → (first last : ℕ) → Linkage → Dentry
new_dentry d dname first last link = record {
  name = dname;
  first = first;
  last = last;
  linkage = link;
  version = d.versions.projected_version;
  is_auth = d.flags.auth;
  is_fragmenting = d.flags.dn_pinned_frag;
  is_dirty = false;
  is_new = false;
  is_projected = false;
  num_ref = 0;
  num_leases = 0;
}

-- The map with the dentry, the dentry counted.
unfoldable pub insert_dentry : (nosnap : ℕ) → Dentry → Dir → Dir
insert_dentry nosnap dn d =
    let c = record d.contents { items = put_item dn d.contents.items } in
    record d {
      contents = count_up (dn.last == nosnap) (is_null dn.linkage) c;
      calls = lru_insert_mid (key_of dn) ∷ d.calls;
    }

-- The pin of the first dentry, and the check at the end.
unfoldable pub pin_child : Dir → Option Dir
pin_child d = do
  d' ← if get_num_any d.contents == 1 then get_pin child d else some d
  assert (sizes_agree d'.contents)
  some d'

unfoldable pub unpin_child : Dir → Option Dir
unpin_child d = do
  d' ← if get_num_any d.contents == 0 then put_pin child d else some d
  assert (sizes_agree d'.contents)
  some d'

abbrev pub pin_new : Dentry → Dir → Dir
pin_new dn d = if d.flags.dn_pinned_frag then call (pin_fragmenting (key_of dn)) d else d

unfoldable pub add_null_dentry :
    (nosnap : ℕ) → Name → (first last : ℕ) → Dir → Option (Dentry × Dir)
unfolding insert_dentry pin_child
add_null_dentry nosnap dname first last d = do
  assert (is_none (lookup_exact_snap dname last d))
  let dn = new_dentry d dname first last null
  d' ← pin_child (pin_new dn (insert_dentry nosnap dn d))
  some (dn, d')

unfoldable pub add_remote_dentry :
    (nosnap : ℕ) → Name → (ino d_type first last : ℕ) → Dir → Option (Dentry × Dir)
unfolding insert_dentry pin_child
add_remote_dentry nosnap dname ino d_type first last d = do
  assert (is_none (lookup_exact_snap dname last d))
  let dn = new_dentry d dname first last (remote ino d_type)
  d' ← pin_child (pin_new dn (insert_dentry nosnap dn d))
  some (dn, d')

-- What other objects are asked when an inode is linked to a dentry.
unfoldable pub link_inode_work : Key → (ino : ℕ) → Inode → Dir → Dir
link_inode_work k ino i d =
    let total = i.auth_pins + i.nested_auth_pins in
    let d₁ = if i.num_ref == 0 then d else call (pin_inode k) d in
    let d₂ =
      if total == 0
      then d₁
      else call (adjust_dentry_auth_pins k (pos total) (pos i.auth_pins)) d₁ in
    if i.has_snaprealm then call (adjust_snaprealm_parent ino) d₂ else d₂

unfoldable pub add_primary_dentry :
    (nosnap : ℕ) → Name → (ino : ℕ) → Inode → (first last : ℕ) → Dir → Option (Dentry × Dir)
unfolding insert_dentry link_inode_work pin_child
add_primary_dentry nosnap dname ino i first last d = do
  assert (is_none (lookup_exact_snap dname last d))
  let dn = new_dentry d dname first last (primary ino)
  let k = key_of dn
  let linked = link_inode_work k ino i (call (set_primary_parent ino k) (insert_dentry nosnap dn d))
  d' ← pin_child (pin_new dn linked)
  some (dn, d')

-- What other objects are asked when a dentry with this link loses it. `none`: a null link, where
-- the code fails its assertion. `loaded`: the inode of a remote link is at hand.
unfoldable pub unlink_calls :
    (ℕ → Inode) → (loaded : Bool) → Key → Linkage → List Call → Option (List Call)
unlink_calls inodes loaded k null cs = none
unlink_calls inodes loaded k (remote ino d_type) cs =
    some (if loaded then unlink_remote k ∷ cs else cs)
unlink_calls inodes loaded k (primary ino) cs =
    let i = inodes ino in
    let total = i.auth_pins + i.nested_auth_pins in
    let cs₁ = if i.num_ref == 0 then cs else unpin_inode k ∷ cs in
    let cs₂ =
      if total == 0
      then cs₁
      else adjust_dentry_auth_pins k (sub_ℕ 0 total) (sub_ℕ 0 i.auth_pins) ∷ cs₁ in
    some (remove_primary_parent ino k ∷ cs₂)

unfoldable pub unlink_inode_work : (ℕ → Inode) → (loaded : Bool) → Dentry → Dir → Option Dir
unfolding unlink_calls
unlink_inode_work inodes loaded dn d = do
  cs ← unlink_calls inodes loaded (key_of dn) dn.linkage d.calls
  some (record d { calls = cs })

-- The dentry with another link, in the map and in the counters.
unfoldable pub relink : (nosnap : ℕ) → Dentry → Linkage → Dir → Dir
relink nosnap dn link d =
    let is_head = dn.last == nosnap in
    let c = record d.contents {
      items = put_item (record dn { linkage = link }) d.contents.items;
    } in
    record d {
      contents = count_up is_head (is_null link) (count_down is_head (is_null dn.linkage) c);
    }

-- The dentry `dn` of these operations is one of the map.
unfoldable pub link_remote_inode : (nosnap : ℕ) → Dentry → (ino d_type : ℕ) → Dir → Option Dir
link_remote_inode nosnap dn ino d_type d = do
  assert (is_null dn.linkage)
  let d' = relink nosnap dn (remote ino d_type) d
  assert (sizes_agree d'.contents)
  some d'

unfoldable pub link_primary_inode : (nosnap : ℕ) → Dentry → (ino : ℕ) → Inode → Dir → Option Dir
link_primary_inode nosnap dn ino i d = do
  assert (is_null dn.linkage)
  let k = key_of dn
  let linked = link_inode_work k ino i (call (set_primary_parent ino k) d)
  let d' = relink nosnap dn (primary ino) linked
  assert (sizes_agree d'.contents)
  some d'

unfoldable pub unlink_inode :
    (nosnap : ℕ) → (ℕ → Inode) → (loaded : Bool) → Dentry → Dir → Option Dir
unlink_inode nosnap inodes loaded dn d = do
  d₁ ← unlink_inode_work inodes loaded dn d
  let d' = relink nosnap dn null d₁
  assert (sizes_agree d'.contents)
  some d'

unfoldable pub remove_dentry :
    (nosnap : ℕ) → (ℕ → Inode) → (loaded : Bool) → Dentry → Dir → Option Dir
remove_dentry nosnap inodes loaded dn d = do
  assert (dn.num_leases == 0)
  let k = key_of dn
  let d₁ = if d.flags.dn_pinned_frag then call (unpin_fragmenting k) d else d
  let c = count_down (dn.last == nosnap) (is_null dn.linkage) d₁.contents
  let d₂ = record d₁ { contents = c }
  d₃ ← if is_null dn.linkage then some d₂ else unlink_inode_work inodes loaded dn d₂
  assert (not (is_none (find_item k d₃.contents.items)))
  let erased = record d₃.contents { items = erase_item k d₃.contents.items }
  let d₄ = record d₃ { contents = erased }
  let d₅ = if dn.is_dirty then call (mark_dentry_clean k) d₄ else d₄
  unpin_child (call (lru_remove k) d₅)

-- The loop over a copy of the dentries, in the order of the map.
unfoldable pub remove_null_loop : (nosnap : ℕ) → (ℕ → Inode) → List Dentry → Dir → Option Dir
remove_null_loop nosnap inodes [] d = some d
remove_null_loop nosnap inodes (dn ∷ dns) d = do
  d' ←
      if is_null dn.linkage && not dn.is_projected
      then remove_dentry nosnap inodes false dn d
      else some d
  remove_null_loop nosnap inodes dns d'

unfoldable pub remove_null_dentries : (nosnap : ℕ) → (ℕ → Inode) → Dir → Option Dir
unfolding remove_null_loop
remove_null_dentries nosnap inodes d = do
  d' ← remove_null_loop nosnap inodes d.contents.items d
  assert (d'.contents.num_snap_null == 0)
  assert (d'.contents.num_head_null == 0)
  assert (sizes_agree d'.contents)
  some d'

-- An unlinked dentry goes if nothing pins it but its dirtiness, and it is new.
unfoldable pub try_remove_unlinked_dn : (nosnap : ℕ) → (ℕ → Inode) → Dentry → Dir → Option Dir
try_remove_unlinked_dn nosnap inodes dn d = do
  assert (is_null dn.linkage)
  let held = dn.num_ref == (if dn.is_dirty then 1 else 0)
  let d₁ = if dn.is_dirty then call (mark_dentry_clean (key_of dn)) d else d
  if held && dn.is_new
      then remove_dentry nosnap inodes false (record dn { is_dirty = false }) d₁
      else some d
