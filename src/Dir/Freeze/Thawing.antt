-- ===== src/Dir/Freeze/Thawing.antt =====
-- mds/CDir.cc: unfreeze_dir and unfreeze_tree, and set_dir_auth.
use mds.Prelude.{
  ℕ, ◌+◌, ◌-◌, ◌<◌, ◌≡◌, refl, count_if, Bool, true, false, not, ◌&&◌, ◌||◌, Option, some, [], ◌∷◌,
  arith, leb, ◌==◌, if◌then◌else◌, keep, Bool-cases, inl, inr,
}
use mds.Prelude.Int.{neg_part, ℤ, pos, negsuc}
use mds.CacheObject.{authpin, pins, meets}
use mds.CacheObject.Pins.{dropped, put-eq, pins-set_pins}
use mds.Dir.Types.{Dir, inode_auth_unpin, frozen}
use mds.Dir.Freeze.{
  Parent, is_subtree_root, get_cum_auth_pins, is_frozen_here, wait_unfreeze, wait_singleauth,
  unpin_parent, thaw, unfreeze_dir, unfreeze_tree, set_dir_auth, adjust_inode, eq_ℤ,
}
use mds.Dir.Freeze.Good.{Good, nests, pins_inode, bit, dropped-Waits, finish_waiting_lem}

-- The freeze is over: neither state is left, no pin has changed, and no waiter for the end of the
-- freeze is left.
abbrev pub Thaws : Dir → Option Dir → Type 0
Thaws d r =
    (d' : Dir) × (r ≡ some d')
    × Good d'
    × (is_frozen_here d' ≡ false)
    × (d'.pinning ≡ d.pinning)
    × (keep (meets wait_unfreeze) d'.base.waiting ≡ [])

-- The fragment after `put` and `auth_unpin` on the inode.
abbrev warmed : Dir → Dir
warmed d = record d {
  base = dropped frozen d.base;
  flags = record d.flags { frozen_dir = false; frozen_tree = false };
  calls = if d.flags.auth && not (is_subtree_root d) then inode_auth_unpin ∷ d.calls else d.calls;
}

unpin_parent-warmed :
    (d : Dir)
    → unpin_parent (record d {
      base = dropped frozen d.base;
      flags = record d.flags { frozen_dir = false; frozen_tree = false };
    })
      ≡ warmed d
unpin_parent-warmed d = ground arith

module _ (d : Dir) (g : Good d) (cold : is_frozen_here d ≡ true) where
  held : 0 < pins frozen d.base.ref_map
  held = ground (arith, g.frozen_held, cold)

  warmed-Good : Good (warmed d)
  warmed-Good = record {
    waits = dropped-Waits frozen d.base refl held g.waits;
    authpin_held = ground (
      arith,
      g.authpin_held,
      pins-set_pins authpin frozen (pins frozen d.base.ref_map - 1) d.base.ref_map,
    );
    frozen_held = ground (
      arith,
      cold,
      g.frozen_held,
      pins-set_pins frozen frozen (pins frozen d.base.ref_map - 1) d.base.ref_map,
    );
    one_state = ground (arith, g.one_state);
    own_pin = λ h. g.own_pin h;
    told = ground (arith, g.told);
    kept = ground (arith, cold, g.kept);
  }

  thaw_lem :
      (e : Dir)
      → e ≡ record d { flags = record d.flags { frozen_dir = false; frozen_tree = false } }
      → Thaws d (thaw e)
  unfolding thaw
  thaw_lem e same =
      let (d', done, g', fl, pn, taken) =
        finish_waiting_lem wait_unfreeze (pos 0) (warmed d) warmed-Good in
      (
        d',
        rw (same, put-eq frozen d.base g.waits.counted held, unpin_parent-warmed d, done) refl,
        g',
        rw fl refl,
        pn,
        taken,
      )

-- Unfreezing a frozen directory, and a frozen tree: it succeeds, keeps the pins, the states and
-- what the inode was told in step, ends the freeze, and takes every waiter for its end.
pub unfreeze_lem :
    (fuel : ℕ) (p : Parent) (d : Dir)
    → Good d
    → (d.flags.frozen_dir ≡ true → Thaws d (unfreeze_dir fuel p d))
      × (d.flags.frozen_tree ≡ true → Thaws d (unfreeze_tree fuel p d))
unfolding unfreeze_dir unfreeze_tree
unfreeze_lem fuel p d g = (
  λ f.
      let cold : is_frozen_here d ≡ true = ground (arith, f) in
      let other : d.flags.frozen_tree ≡ false = ground (arith, g.one_state, f) in
      rw f (
        thaw_lem d g cold (record d { flags = record d.flags { frozen_dir = false } })
          (rw other refl)),
  λ f.
      let cold : is_frozen_here d ≡ true = ground (arith, f) in
      let other : d.flags.frozen_dir ≡ false = ground (arith, g.one_state, f) in
      rw f (
        thaw_lem d g cold (record d { flags = record d.flags { frozen_tree = false } })
          (rw other refl)),
)

module _ (p : Parent) (a : ℤ × ℤ) (d : Dir) (g : Good d) (same : p.is_auth ≡ d.flags.auth) where
  abbrev placed : Dir
  placed = record d { pinning = record d.pinning { dir_auth = a } }

  abbrev retold : Dir
  retold = record placed { calls = adjust_inode p (is_subtree_root d) placed }

  told_again :
      (was now : Bool)
      → is_subtree_root d ≡ was
      → is_subtree_root placed ≡ now
      → (count_if (nests true) (adjust_inode p was placed)
          ≡ count_if (nests false) (adjust_inode p was placed)
            + (if now || get_cum_auth_pins d == 0 then 0 else 1))
        × (count_if (pins_inode true) (adjust_inode p was placed)
            ≡ count_if (pins_inode false) (adjust_inode p was placed)
              + bit (d.flags.auth && not now && is_frozen_here d))
  unfolding adjust_inode
  told_again true true w n = (ground (arith, w, n, g.told), ground (arith, w, n, same, g.kept))
  told_again true false w n = (ground (arith, w, n, g.told), ground (arith, w, n, same, g.kept))
  told_again false true w n = (ground (arith, w, n, g.told), ground (arith, w, n, same, g.kept))
  told_again false false w n = (ground (arith, w, n, g.told), ground (arith, w, n, same, g.kept))

  retold-Good : Good retold
  retold-Good =
      let (t, k) = told_again (is_subtree_root d) (is_subtree_root placed) refl refl in
      record {
        waits = g.waits;
        authpin_held = g.authpin_held;
        frozen_held = g.frozen_held;
        one_state = g.one_state;
        own_pin = g.own_pin;
        told = t;
        kept = k;
      }

-- `set_dir_auth` on a fragment whose authority bit is that of its inode: whatever the new
-- authority, the call succeeds, the states and the counts of pins stay, and the inode is told what
-- keeps its counts in step with the new place of the fragment.
pub set_dir_auth_lem :
    (p : Parent) (a : ℤ × ℤ) (d : Dir)
    → Good d
    → p.is_auth ≡ d.flags.auth
    → (d' : Dir) × (set_dir_auth p a d ≡ some d')
      × Good d'
      × (d'.pinning ≡ record d.pinning { dir_auth = a })
      × (d'.flags ≡ d.flags)
unfolding set_dir_auth
set_dir_auth_lem p a d g same =
    elim (Bool-cases (leb (neg_part d.pinning.dir_auth.1) 0 && eq_ℤ a.1 (negsuc 1))) [
      | inl e ↦
          let (d', done, g', fl, pn, _) =
            finish_waiting_lem wait_singleauth (pos 0) (retold p a d g same)
              (retold-Good p a d g same) in
          (d', rw (e, done) refl, g', pn, fl)
      | inr e ↦ (retold p a d g same, rw e refl, retold-Good p a d g same, refl, refl)
    ]
