-- ===== src/Dir/Freeze/Unpinning.antt =====
-- mds/CDir.cc: the unpin that leaves only the freeze's own pin completes the freeze.
use mds.Prelude.{
  ℕ, suc, ◌+◌, ◌<◌, ◌≡◌, refl, true, false, not, ◌&&◌, some, [], ◌∷◌, arith, if◌then◌else◌, keep,
}
use mds.Prelude.Int.{pos}
use mds.CacheObject.{authpin, pins, meets}
use mds.CacheObject.Pins.{got, get-eq, put-eq, pins-set_pins}
use mds.Dir.Types.{Dir, inode_auth_pin, inode_wait_unfreeze, frozen, call}
use mds.Dir.Freeze.{
  Parent, is_subtree_root, is_frozen_here, is_freezeable, wait_frozen, freeze_dir_now,
  freeze_tree_now, finish_dir, finish_tree, maybe_finish_freeze, auth_unpin,
}
use mds.Dir.Freeze.Good.{
  Good, got-Waits, pinned, auth_pin-eq, unpinned_last, unpinned_last-Good, finish_waiting_lem,
}

pub last_unpin :
    (fuel : ℕ) (p : Parent) (d : Dir)
    → Good d
    → d.pinning.auth_pins ≡ 1
    → auth_unpin (suc fuel) p d ≡ some (unpinned_last d)
unfolding auth_unpin maybe_finish_freeze
last_unpin fuel p d g one =
    let held : 0 < pins authpin d.base.ref_map = ground (arith, g.authpin_held, one) in
    ground (arith, one, put-eq authpin d.base g.waits.counted held)

-- The fragment after `_freeze_dir`, and after `_freeze_tree`.
abbrev pub iced_dir : Dir → Dir
iced_dir d = record d {
  base = got frozen d.base;
  flags = record d.flags { freezing_dir = false; frozen_dir = true };
  calls = if d.flags.auth && not (is_subtree_root d) then inode_auth_pin ∷ d.calls else d.calls;
}

abbrev pub iced_tree : Dir → Dir
iced_tree d = record d {
  base = got frozen d.base;
  flags = record d.flags { freezing_tree = false; frozen_tree = true };
  calls = if d.flags.auth && not (is_subtree_root d) then inode_auth_pin ∷ d.calls else d.calls;
}

pub freeze_dir_now-eq : (d : Dir) → Good d → freeze_dir_now d ≡ some (iced_dir d)
unfolding freeze_dir_now
freeze_dir_now-eq d g = ground (arith, get-eq frozen d.base g.waits.counted)

pub freeze_tree_now-eq :
    (p : Parent) (d : Dir)
    → Good d
    → is_freezeable p d ≡ true
    → freeze_tree_now p d ≡ some (iced_tree d)
unfolding freeze_tree_now
freeze_tree_now-eq p d g f = ground (arith, f, get-eq frozen d.base g.waits.counted)

pub iced_dir-Good :
    (d : Dir)
    → Good d
    → is_frozen_here d ≡ false
    → d.flags.freezing_tree ≡ false
    → Good (iced_dir d)
iced_dir-Good d g warm other =
    let others = pins-set_pins in
    record {
      waits = got-Waits frozen d.base refl g.waits;
      authpin_held = ground (
        arith,
        g.authpin_held,
        pins-set_pins authpin frozen (pins frozen d.base.ref_map + 1) d.base.ref_map,
      );
      frozen_held = ground (
        arith,
        warm,
        g.frozen_held,
        pins-set_pins frozen frozen (pins frozen d.base.ref_map + 1) d.base.ref_map,
      );
      one_state = ground (arith, warm, other);
      own_pin = λ h. ground (arith, h, other);
      told = ground (arith, g.told);
      kept = ground (arith, warm, g.kept);
    }

pub iced_tree-Good :
    (d : Dir)
    → Good d
    → is_frozen_here d ≡ false
    → d.flags.freezing_dir ≡ false
    → Good (iced_tree d)
iced_tree-Good d g warm other = record {
  waits = got-Waits frozen d.base refl g.waits;
  authpin_held = ground (
    arith,
    g.authpin_held,
    pins-set_pins authpin frozen (pins frozen d.base.ref_map + 1) d.base.ref_map,
  );
  frozen_held = ground (
    arith,
    warm,
    g.frozen_held,
    pins-set_pins frozen frozen (pins frozen d.base.ref_map + 1) d.base.ref_map,
  );
  one_state = ground (arith, warm, other);
  own_pin = λ h. ground (arith, h, other);
  told = ground (arith, g.told);
  kept = ground (arith, warm, g.kept);
}

-- The freeze of a directory, or of a tree, that was waiting is complete: no pin is left of it, and
-- none that waited for it.
abbrev pub FrozeDir : Dir → Dir → Type 0
FrozeDir d d' =
    (d'.flags.frozen_dir ≡ true)
    × (d'.flags.freezing_dir ≡ false)
    × (d'.flags.freezing_tree ≡ false)
    × (d'.pinning.auth_pins ≡ 0)
    × (d'.pinning.nested_auth_pins ≡ d.pinning.nested_auth_pins)
    × (keep (meets wait_frozen) d'.base.waiting ≡ [])

abbrev pub FrozeTree : Dir → Dir → Type 0
FrozeTree d d' =
    (d'.flags.frozen_tree ≡ true)
    × (d'.flags.freezing_tree ≡ false)
    × (d'.pinning.auth_pins ≡ 0)
    × (d'.pinning.nested_auth_pins ≡ 0)
    × (keep (meets wait_frozen) d'.base.waiting ≡ [])

module _ (fuel : ℕ) (p : Parent) (d : Dir) (g : Good d) (one : d.pinning.auth_pins ≡ 1) where
  pub finish_dir_lem :
      d.flags.freezing_dir ≡ true
      → (d' : Dir) × (finish_dir (auth_unpin (suc fuel) p) d ≡ some d') × Good d' × FrozeDir d d'
  unfolding finish_dir
  finish_dir_lem f =
      let warm : is_frozen_here d ≡ false = ground (arith, g.one_state, f) in
      let other : d.flags.freezing_tree ≡ false = ground (arith, g.one_state, f) in
      let cold = iced_dir-Good d g warm other in
      let free = unpinned_last-Good (iced_dir d) cold one (ground (arith, other)) in
      let (d', done, g', fl, pn, taken) =
        finish_waiting_lem wait_frozen (pos 0) (unpinned_last (iced_dir d)) free in
      (
        d',
        rw (freeze_dir_now-eq d g, last_unpin fuel p (iced_dir d) cold one, done) refl,
        g',
        rw (fl, pn) (refl, refl, other, refl, refl, taken),
      )

  pub finish_tree_lem :
      d.flags.freezing_tree ≡ true
      → d.pinning.nested_auth_pins ≡ 0
      → (not (is_subtree_root d) && p.is_frozen) ≡ false
      → (d' : Dir) × (finish_tree p (auth_unpin (suc fuel) p) d ≡ some d')
        × Good d'
        × FrozeTree d d'
  unfolding finish_tree
  finish_tree_lem f nest warm_above =
      let warm : is_frozen_here d ≡ false = ground (arith, g.one_state, f) in
      let other : d.flags.freezing_dir ≡ false = ground (arith, g.one_state, f) in
      let cold = iced_tree-Good d g warm other in
      let ready : is_freezeable p d ≡ true = ground (arith, one, nest, warm_above) in
      let free = unpinned_last-Good (iced_tree d) cold one (ground (arith, other)) in
      let (d', done, g', fl, pn, taken) =
        finish_waiting_lem wait_frozen (pos 0) (unpinned_last (iced_tree d)) free in
      (
        d',
        rw
            (
              warm_above,
              freeze_tree_now-eq p d g ready,
              last_unpin fuel p (iced_tree d) cold one,
              done,
            )
            refl,
        g',
        rw (fl, pn) (refl, refl, refl, nest, taken),
      )

  -- The parent is frozen: a pin is taken again until it is not.
  pub finish_tree_waits :
      (not (is_subtree_root d) && p.is_frozen) ≡ true
      → finish_tree p (auth_unpin (suc fuel) p) d ≡ some (call inode_wait_unfreeze (pinned d))
  unfolding finish_tree
  finish_tree_waits cold_above = rw (cold_above, auth_pin-eq d g) refl
