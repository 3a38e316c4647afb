-- ===== src/Dir/Freeze.antt =====
-- mds/CDir.cc and mds/CDir.h: auth pins and freezing. An auth pin keeps a fragment from freezing; a
-- freeze takes one of its own, and completes when it is the last one.
pub mod Good
pub mod Unpinning
pub mod Completion
pub mod Freezing
pub mod Thawing
pub mod Nesting
mod Tests
use mds.Prelude.{
  ℕ, zero, suc, ◌+◌, ◌-◌, ◌^◌, ◌≡◌, Bool, true, false, not, ◌&&◌, ◌||◌, Option, none, some, List,
  [], ◌∷◌, ltb, leb, ◌==◌, if◌then◌else◌, ◌>>=◌, ◌>>◌, assert,
}
use mds.Prelude.Int.{ℤ, pos, negsuc, pos_part, neg_part}
use mds.CacheObject.{authpin, take_waiting}
use mds.Dir.Types.{
  Dir, Call, inode_auth_pin, inode_auth_unpin, inode_adjust_nested_auth_pins, inode_wait_unfreeze,
  queue_waiters, finish_contexts, frozen, get_pin, put_pin, call,
}

abbrev pub wait_frozen : ℕ
wait_frozen = 4

abbrev pub wait_unfreeze : ℕ
wait_unfreeze = 2 ^ 59

abbrev pub wait_singleauth : ℕ
wait_singleauth = 2 ^ 60

-- What the fragment asks its inode.
pub record Parent : Type 0 where
  pub is_frozen : Bool
  pub is_frozen_dir : Bool
  pub is_auth : Bool

abbrev pub eq_ℤ : ℤ → ℤ → Bool
eq_ℤ a b = (pos_part a + neg_part b) == (pos_part b + neg_part a)

-- CDIR_AUTH_DEFAULT is (-1, -2).
abbrev pub is_subtree_root : Dir → Bool
is_subtree_root d =
    not (eq_ℤ d.pinning.dir_auth.0 (negsuc 0) && eq_ℤ d.pinning.dir_auth.1 (negsuc 1))

abbrev pub get_cum_auth_pins : Dir → ℕ
get_cum_auth_pins d = d.pinning.auth_pins + d.pinning.nested_auth_pins

-- The walks over the fragment and those above it, up to the root of the subtree.
unfoldable pub is_freezing_tree : Dir → (above : List Dir) → Bool
is_freezing_tree d [] = d.flags.freezing_tree
is_freezing_tree d (e ∷ es) =
    let rest = is_freezing_tree e es in
    if d.flags.freezing_tree then true else if is_subtree_root d then false else rest

unfoldable pub is_frozen_tree : Dir → (above : List Dir) → Bool
is_frozen_tree d [] = d.flags.frozen_tree
is_frozen_tree d (e ∷ es) =
    let rest = is_frozen_tree e es in
    if d.flags.frozen_tree then true else if is_subtree_root d then false else rest

abbrev pub is_freezing : Dir → (above : List Dir) → Bool
is_freezing d above = is_freezing_tree d above || d.flags.freezing_dir

abbrev pub is_frozen : Dir → (above : List Dir) → Bool
is_frozen d above = d.flags.frozen_dir || is_frozen_tree d above

abbrev pub can_auth_pin : Dir → (above : List Dir) → Bool
can_auth_pin d above = d.flags.auth && not (is_frozen d above || is_freezing d above)

-- Both as they are called, with the freeze's own pin taken.
abbrev pub is_freezeable : Parent → Dir → Bool
is_freezeable p d =
    not (ltb 1 d.pinning.auth_pins || ltb 0 d.pinning.nested_auth_pins)
    && not (not (is_subtree_root d) && p.is_frozen)

abbrev pub is_freezeable_dir : Parent → Dir → Bool
is_freezeable_dir p d =
    not (ltb 1 d.pinning.auth_pins || ltb 0 d.pinning.dir_auth_pins)
    && not (not (is_subtree_root d) && p.is_frozen && not p.is_frozen_dir)

abbrev pub set_auth_pins : ℕ → Dir → Dir
set_auth_pins n d = record d { pinning = record d.pinning { auth_pins = n } }

unfoldable pub auth_pin : Dir → Option Dir
auth_pin d = do
  d₁ ← if d.pinning.auth_pins == 0 then get_pin authpin d else some d
  let d₂ = set_auth_pins (d₁.pinning.auth_pins + 1) d₁
  some (
      if not (is_subtree_root d₂) && get_cum_auth_pins d₂ == 1
      then call (inode_adjust_nested_auth_pins true) d₂
      else d₂)

-- The masks with which it is called here have no bit for the waiters on dentries.
unfoldable pub finish_waiting : (mask : ℕ) (result : ℤ) → Dir → Option Dir
finish_waiting mask result d = do
  (ws, o) ← take_waiting mask d.base
  let d' = record d { base = o }
  some (call (if leb (neg_part result) 0 then queue_waiters ws else finish_contexts ws result) d')

-- `inode->auth_pin` and `inode->auth_unpin` for the time of a freeze.
abbrev pub pin_parent : Dir → Dir
pin_parent d = if d.flags.auth && not (is_subtree_root d) then call inode_auth_pin d else d

abbrev pub unpin_parent : Dir → Dir
unpin_parent d = if d.flags.auth && not (is_subtree_root d) then call inode_auth_unpin d else d

-- `_freeze_dir`.
unfoldable pub freeze_dir_now : Dir → Option Dir
freeze_dir_now d = do
  d₁ ←
      get_pin frozen
        (record d { flags = record d.flags { freezing_dir = false; frozen_dir = true } })
  some (pin_parent d₁)

-- `_freeze_tree`.
unfoldable pub freeze_tree_now : Parent → Dir → Option Dir
freeze_tree_now p d = do
  assert (is_freezeable p d)
  d₁ ←
      get_pin frozen
        (record d { flags = record d.flags { freezing_tree = false; frozen_tree = true } })
  some (pin_parent d₁)

-- `unpin` is `auth_unpin`, which calls this.
unfoldable pub finish_dir : (unpin : Dir → Option Dir) → Dir → Option Dir
finish_dir unpin d = do d₁ ← freeze_dir_now d; d₂ ← unpin d₁; finish_waiting wait_frozen (pos 0) d₂

unfoldable pub finish_tree : Parent → (unpin : Dir → Option Dir) → Dir → Option Dir
finish_tree p unpin d =
    if not (is_subtree_root d) && p.is_frozen
    then (auth_pin d >>= λ d₁. some (call inode_wait_unfreeze d₁))
    else (freeze_tree_now p d >>= unpin >>= finish_waiting wait_frozen (pos 0))

unfoldable pub maybe_finish_freeze : Parent → (unpin : Dir → Option Dir) → Dir → Option Dir
unfolding finish_dir finish_tree
maybe_finish_freeze p unpin d =
    if not (d.pinning.auth_pins == 1) || not (d.pinning.dir_auth_pins == 0)
    then some d
    else (if d.flags.freezing_dir then finish_dir unpin d else some d) >>= λ d₁.
        if not (d₁.pinning.nested_auth_pins == 0) || not d₁.flags.freezing_tree
        then some d₁
        else finish_tree p unpin d₁

-- On fuel; an unpin that completes a freeze calls itself once.
unfoldable pub auth_unpin : (fuel : ℕ) → Parent → Dir → Option Dir
auth_unpin zero p d = none
auth_unpin (suc fuel) p d = do
  assert (ltb 0 d.pinning.auth_pins)
  let d₁ = set_auth_pins (d.pinning.auth_pins - 1) d
  d₂ ← if d₁.pinning.auth_pins == 0 then put_pin authpin d₁ else some d₁
  d₃ ← maybe_finish_freeze p (auth_unpin fuel p) d₂
  some (
      if not (is_subtree_root d₃) && get_cum_auth_pins d₂ == 0
      then call (inode_adjust_nested_auth_pins false) d₃
      else d₃)

unfoldable pub adjust_nested_auth_pins : (fuel : ℕ) → Parent → (inc dirinc : ℤ) → Dir → Option Dir
adjust_nested_auth_pins fuel p inc dirinc d = do
  assert (not (eq_ℤ inc (pos 0)))
  assert (leb (neg_part inc) (d.pinning.nested_auth_pins + pos_part inc))
  assert (leb (neg_part dirinc) (d.pinning.dir_auth_pins + pos_part dirinc))
  let d₁ = record d {
    pinning = record d.pinning {
      nested_auth_pins = d.pinning.nested_auth_pins + pos_part inc - neg_part inc;
      dir_auth_pins = d.pinning.dir_auth_pins + pos_part dirinc - neg_part dirinc;
    };
  }
  let newcum = get_cum_auth_pins d₁
  d₂ ← maybe_finish_freeze p (auth_unpin fuel p) d₁
  some (
      if is_subtree_root d₂
      then d₂
      else if newcum == 0
      then call (inode_adjust_nested_auth_pins false) d₂
      else if eq_ℤ (pos newcum) inc
      then call (inode_adjust_nested_auth_pins true) d₂
      else d₂)

unfoldable pub freeze_dir : (fuel : ℕ) → Parent → (above : List Dir) → Dir → Option (Bool × Dir)
freeze_dir fuel p above d = do
  assert (not (is_frozen d above))
  assert (not (is_freezing d above))
  d₁ ← auth_pin d
  if is_freezeable_dir p d₁
      then (freeze_dir_now d₁ >>= auth_unpin fuel p >>= λ d₂. some (true, d₂))
      else some (false, record d₁ { flags = record d₁.flags { freezing_dir = true } })

unfoldable pub freeze_tree : (fuel : ℕ) → Parent → (above : List Dir) → Dir → Option (Bool × Dir)
freeze_tree fuel p above d = do
  assert (not (is_frozen d above))
  assert (not (is_freezing d above))
  d₁ ← auth_pin d
  if is_freezeable p d₁
      then (freeze_tree_now p d₁ >>= auth_unpin fuel p >>= λ d₂. some (true, d₂))
      else some (false, record d₁ { flags = record d₁.flags { freezing_tree = true } })

-- What both ways to unfreeze do when the freeze was complete.
unfoldable pub thaw : Dir → Option Dir
thaw d = do d₁ ← put_pin frozen d; finish_waiting wait_unfreeze (pos 0) (unpin_parent d₁)

unfoldable pub unfreeze_dir : (fuel : ℕ) → Parent → Dir → Option Dir
unfreeze_dir fuel p d =
    if d.flags.frozen_dir
    then thaw (record d { flags = record d.flags { frozen_dir = false } })
    else (finish_waiting wait_frozen (negsuc 0) d >>= λ d₁.
        assert d₁.flags.freezing_dir
        >> (auth_unpin fuel p (record d₁ { flags = record d₁.flags { freezing_dir = false } })
            >>= finish_waiting wait_unfreeze (pos 0)))

unfoldable pub unfreeze_tree : (fuel : ℕ) → Parent → Dir → Option Dir
unfreeze_tree fuel p d =
    if d.flags.frozen_tree
    then thaw (record d { flags = record d.flags { frozen_tree = false } })
    else (finish_waiting wait_frozen (negsuc 0) d >>= λ d₁.
        assert d₁.flags.freezing_tree
        >> (auth_unpin fuel p (record d₁ { flags = record d₁.flags { freezing_tree = false } })
            >>= finish_waiting wait_unfreeze (pos 0)))

-- A frozen fragment has its inode pinned, if it is not the root of a subtree.
abbrev pub is_frozen_here : Dir → Bool
is_frozen_here d = d.flags.frozen_tree || d.flags.frozen_dir

-- What the inode is told when the fragment becomes, or is no longer, the root of a subtree.
unfoldable pub adjust_inode : Parent → (was_subtree : Bool) → Dir → List Call
adjust_inode p was_subtree d =
    let held = ltb 0 (get_cum_auth_pins d) in
    let iced = p.is_auth && is_frozen_here d in
    let left = if held then inode_adjust_nested_auth_pins false ∷ d.calls else d.calls in
    let cs =
      if not was_subtree && is_subtree_root d
      then (if iced then inode_auth_unpin ∷ left else left)
      else d.calls in
    let joined = if held then inode_adjust_nested_auth_pins true ∷ cs else cs in
    if was_subtree && not (is_subtree_root d)
    then (if iced then inode_auth_pin ∷ joined else joined)
    else cs

unfoldable pub set_dir_auth : Parent → ℤ × ℤ → Dir → Option Dir
unfolding adjust_inode
set_dir_auth p a d =
    let was_ambiguous = leb (neg_part d.pinning.dir_auth.1) 0 in
    let d₁ = record d { pinning = record d.pinning { dir_auth = a } } in
    let d₂ = record d₁ { calls = adjust_inode p (is_subtree_root d) d₁ } in
    if was_ambiguous && eq_ℤ d₂.pinning.dir_auth.1 (negsuc 1)
    then finish_waiting wait_singleauth (pos 0) d₂
    else some d₂
