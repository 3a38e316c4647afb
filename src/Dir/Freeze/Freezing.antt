-- ===== src/Dir/Freeze/Freezing.antt =====
-- mds/CDir.cc, freeze_dir and freeze_tree: when a freeze is complete at once, and what it leaves.
use mds.Prelude.{
  ℕ, suc, ◌+◌, ◌≡◌, refl, Bool, true, false, not, ◌||◌, Option, some, List, [], ◌∷◌, arith,
  if◌then◌else◌, Bool-cases, inl, inr,
}
use mds.Dir.Types.{Dir}
use mds.Dir.Freeze.{
  Parent, is_frozen_here, is_frozen, is_freezing, is_frozen_tree, is_freezing_tree, is_freezeable,
  is_freezeable_dir, freeze_dir, freeze_tree,
}
use mds.Dir.Freeze.Good.{Good, pinned, auth_pin-eq, pinned-Good, unpinned_last, unpinned_last-Good}
use mds.Dir.Freeze.Unpinning.{
  last_unpin, iced_dir, iced_tree, freeze_dir_now-eq, freeze_tree_now-eq, iced_dir-Good,
  iced_tree-Good,
}

frozen_tree_false :
    (d : Dir) (above : List Dir) → is_frozen_tree d above ≡ false → d.flags.frozen_tree ≡ false
unfolding is_frozen_tree
frozen_tree_false d [] h = h
frozen_tree_false d (e ∷ es) h = ground (arith, h)

freezing_tree_false :
    (d : Dir) (above : List Dir) → is_freezing_tree d above ≡ false → d.flags.freezing_tree ≡ false
unfolding is_freezing_tree
freezing_tree_false d [] h = h
freezing_tree_false d (e ∷ es) h = ground (arith, h)

-- What a freeze leaves: it is complete exactly if nothing is in the way, and then holds no auth pin
-- and no other count has changed; else it waits with a pin of its own.
abbrev pub Freezes :
    (now : Bool) → (froze freezing : Dir → Bool) → Dir → Option (Bool × Dir) → Type 0
Freezes now froze freezing d r =
    (d' : Dir) × (r ≡ some (now, d'))
    × Good d'
    × (froze d' ≡ now)
    × (freezing d' ≡ not now)
    × (d'.pinning.nested_auth_pins ≡ d.pinning.nested_auth_pins)
    × (d'.pinning.auth_pins ≡ (if now then d.pinning.auth_pins else d.pinning.auth_pins + 1))

module _ (fuel : ℕ) (p : Parent) (above : List Dir) (d : Dir) (g : Good d) where
  module _ (f : is_frozen d above ≡ false) (z : is_freezing d above ≡ false) where
    warm : is_frozen_here d ≡ false
    warm = ground (arith, f, frozen_tree_false d above)

    idle_tree : d.flags.freezing_tree ≡ false
    idle_tree = ground (arith, z, freezing_tree_false d above)

    idle_dir : d.flags.freezing_dir ≡ false
    idle_dir = ground (arith, z)

    waiting_dir : Dir
    waiting_dir = record (pinned d) { flags = record d.flags { freezing_dir = true } }

    waiting_dir-Good : Good waiting_dir
    unfolding waiting_dir
    waiting_dir-Good =
        let v = pinned-Good d g in
        record {
          waits = v.waits;
          authpin_held = v.authpin_held;
          frozen_held = v.frozen_held;
          one_state = ground (arith, warm, idle_tree);
          own_pin = λ h. omega arith;
          told = v.told;
          kept = v.kept;
        }

    waiting_tree : Dir
    waiting_tree = record (pinned d) { flags = record d.flags { freezing_tree = true } }

    waiting_tree-Good : Good waiting_tree
    unfolding waiting_tree
    waiting_tree-Good =
        let v = pinned-Good d g in
        record {
          waits = v.waits;
          authpin_held = v.authpin_held;
          frozen_held = v.frozen_held;
          one_state = ground (arith, warm, idle_dir);
          own_pin = λ h. omega arith;
          told = v.told;
          kept = v.kept;
        }

    -- A freeze of a directory that is neither frozen nor freezing.
    freeze_dir-Freezes :
        Freezes
          (is_freezeable_dir p (pinned d))
          (λ e. e.flags.frozen_dir)
          (λ e. e.flags.freezing_dir)
          d
          (freeze_dir (suc fuel) p above d)
    unfolding freeze_dir waiting_dir
    freeze_dir-Freezes = elim (Bool-cases (is_freezeable_dir p (pinned d))) [
      | inl now ↦
          let v = pinned-Good d g in
          let lone : d.pinning.auth_pins ≡ 0 = ground (arith, now) in
          let one : (pinned d).pinning.auth_pins ≡ 1 = omega (arith, lone) in
          let cold = iced_dir-Good (pinned d) v warm idle_tree in
          let idle : (d.flags.freezing_tree || false) ≡ false = ground (arith, idle_tree) in
          (
            unpinned_last (iced_dir (pinned d)),
            rw
                (
                  f,
                  z,
                  auth_pin-eq d g,
                  now,
                  freeze_dir_now-eq (pinned d) v,
                  last_unpin fuel p (iced_dir (pinned d)) cold one,
                )
                refl,
            unpinned_last-Good (iced_dir (pinned d)) cold one idle,
            rw now refl,
            rw now refl,
            refl,
            rw (now, lone) refl,
          )
      | inr later ↦ (
        waiting_dir,
        rw (f, z, auth_pin-eq d g, later) refl,
        waiting_dir-Good,
        ground (arith, later, warm),
        rw later refl,
        refl,
        rw later refl,
      )
    ]

    freeze_tree-Freezes :
        Freezes
          (is_freezeable p (pinned d))
          (λ e. e.flags.frozen_tree)
          (λ e. e.flags.freezing_tree)
          d
          (freeze_tree (suc fuel) p above d)
    unfolding freeze_tree waiting_tree
    freeze_tree-Freezes = elim (Bool-cases (is_freezeable p (pinned d))) [
      | inl now ↦
          let v = pinned-Good d g in
          let lone : d.pinning.auth_pins ≡ 0 = ground (arith, now) in
          let one : (pinned d).pinning.auth_pins ≡ 1 = omega (arith, lone) in
          let cold = iced_tree-Good (pinned d) v warm idle_dir in
          let idle : (false || d.flags.freezing_dir) ≡ false = ground (arith, idle_dir) in
          (
            unpinned_last (iced_tree (pinned d)),
            rw
                (
                  f,
                  z,
                  auth_pin-eq d g,
                  now,
                  freeze_tree_now-eq p (pinned d) v now,
                  last_unpin fuel p (iced_tree (pinned d)) cold one,
                )
                refl,
            unpinned_last-Good (iced_tree (pinned d)) cold one idle,
            rw now refl,
            rw now refl,
            refl,
            rw (now, lone) refl,
          )
      | inr later ↦ (
        waiting_tree,
        rw (f, z, auth_pin-eq d g, later) refl,
        waiting_tree-Good,
        ground (arith, later, warm),
        rw later refl,
        refl,
        rw later refl,
      )
    ]

-- A freeze, with fuel 1 or more, of a fragment that is neither frozen nor freezing, of the
-- directory and of the tree: it succeeds, keeps the pins, the states and what the inode was told in
-- step, answers whether it is complete, and is complete exactly if no pin and no frozen inode is in
-- the way; then the counts of pins are as before, else it waits with one auth pin of its own.
pub freeze_lem :
    (fuel : ℕ) (p : Parent) (above : List Dir) (d : Dir)
    → Good d
    → is_frozen d above ≡ false
    → is_freezing d above ≡ false
    → Freezes
        (is_freezeable_dir p (pinned d))
        (λ e. e.flags.frozen_dir)
        (λ e. e.flags.freezing_dir)
        d
        (freeze_dir (suc fuel) p above d)
      × Freezes
          (is_freezeable p (pinned d))
          (λ e. e.flags.frozen_tree)
          (λ e. e.flags.freezing_tree)
          d
          (freeze_tree (suc fuel) p above d)
freeze_lem fuel p above d g f z =
    (freeze_dir-Freezes fuel p above d g f z, freeze_tree-Freezes fuel p above d g f z)
