-- ===== src/Dir/Freeze/Tests.antt =====
-- Fragments at work, freezing and frozen, and what the operations make of them.
use mds.Prelude.{
  ℕ, ◌^◌, ◌≡◌, ◌≢◌, ◌⊎◌, refl, Bool, true, false, some, List, [], ◌∷◌, arith, if◌then◌else◌, ◌==◌,
}
use mds.Prelude.Int.{pos, negsuc}
use mds.CacheObject.{CacheObject, first_get, authpin, waiter, pins, get_pin_totals}
use mds.Dir.Types.{Dir, Call, inode_adjust_nested_auth_pins, inode_auth_pin, frozen}
use mds.Dir.Freeze.{
  Parent, is_freezeable, is_freezeable_dir, is_frozen_tree, is_freezing_tree, set_auth_pins,
  auth_pin, auth_unpin, adjust_nested_auth_pins, freeze_dir, freeze_tree, unfreeze_dir,
  unfreeze_tree, set_dir_auth,
}
use mds.Dir.Freeze.Good.{Good, auth_pin_lem, pinned}
use mds.Dir.Freeze.Completion.{Settles, auth_unpin_lem}
use mds.Dir.Freeze.Freezing.{Freezes, freeze_lem}
use mds.Dir.Freeze.Thawing.{Thaws, unfreeze_lem, set_dir_auth_lem}
use mds.Dir.Freeze.Nesting.{nested, adjust_nested_auth_pins_lem}

abbrev parent : Parent
parent = record { is_frozen = false; is_frozen_dir = false; is_auth = true }

-- A fragment that is not the root of a subtree, with these states, pins and calls.
abbrev dir :
    (freezing_dir frozen_dir : Bool)
    → (auth_pins nested_auth_pins : ℕ) → (base : CacheObject ℕ) → List Call
    → Dir
dir freezing iced own below base asked = record {
  base = base;
  flags = record {
    auth = true;
    dirty_bit = false;
    complete = true;
    frozen_tree = false;
    freezing_tree = false;
    frozen_dir = iced;
    freezing_dir = freezing;
    committing = false;
    fetching = false;
    dn_pinned_frag = false;
  };
  contents = record {
    items = [];
    num_head_items = 0;
    num_head_null = 0;
    num_snap_items = 0;
    num_snap_null = 0;
  };
  pinning = record {
    auth_pins = own;
    nested_auth_pins = below;
    dir_auth_pins = 0;
    dir_auth = (negsuc 0, negsuc 1);
  };
  versions = record {
    version = 8;
    projected_version = 8;
    committing_version = 7;
    committed_version = 7;
  };
  calls = asked;
}

abbrev base : (ref : ℕ) → List (ℕ × ℕ) → List (ℕ × ℕ) → CacheObject ℕ
base ref ref_map waiting = record {
  ref = ref;
  ref_map = ref_map;
  notifies = false;
  hooks = if ref == 0 then [] else first_get ∷ [];
  replica_map = [];
  waiting = waiting;
}

-- Nothing pinned; two auth pins, one of them a freeze's, for which context 70 waits; frozen, for
-- the end of which context 71 waits.
abbrev idle : Dir
idle = dir false false 0 0 (base 0 [] []) []

abbrev freezing : Dir
freezing =
    dir true false 2 0 (base 2 ((waiter, 1) ∷ (authpin, 1) ∷ []) ((4, 70) ∷ []))
      (inode_adjust_nested_auth_pins true ∷ [])

abbrev iced : Dir
iced =
    dir false true 0 1 (base 2 ((waiter, 1) ∷ (frozen, 1) ∷ []) ((2 ^ 59, 71) ∷ []))
      (inode_auth_pin ∷ inode_adjust_nested_auth_pins true ∷ [])

idle-Good : Good idle
unfolding get_pin_totals pins
idle-Good = record {
  waits = record { counted = record { total = refl; in_turn = refl }; pinned = refl };
  authpin_held = refl;
  frozen_held = refl;
  one_state = omega arith;
  own_pin = λ h. ground (arith, h);
  told = refl;
  kept = refl;
}

freezing-Good : Good freezing
unfolding get_pin_totals pins
freezing-Good = record {
  waits = record { counted = record { total = refl; in_turn = refl }; pinned = refl };
  authpin_held = refl;
  frozen_held = refl;
  one_state = omega arith;
  own_pin = λ h. omega arith;
  told = refl;
  kept = refl;
}

iced-Good : Good iced
unfolding get_pin_totals pins
iced-Good = record {
  waits = record { counted = record { total = refl; in_turn = refl }; pinned = refl };
  authpin_held = refl;
  frozen_held = refl;
  one_state = omega arith;
  own_pin = λ h. ground (arith, h);
  told = refl;
  kept = refl;
}

auth_pin_lem_example :
    (d' : Dir) × (auth_pin idle ≡ some d')
    × Good d'
    × (d'.flags ≡ idle.flags)
    × (d'.pinning ≡ record idle.pinning { auth_pins = 1 })
auth_pin_lem_example = auth_pin_lem idle idle-Good

auth_unpin_lem_example :
    (d' : Dir) × (auth_unpin 2 parent freezing ≡ some d')
    × Good d'
    × (((freezing.pinning.auth_pins ≡ 2) × Settles parent (set_auth_pins 1 freezing) d')
        ⊎ ((freezing.pinning.auth_pins ≢ 2)
            × (d'.flags ≡ freezing.flags)
            × (d'.pinning ≡ (set_auth_pins 1 freezing).pinning)))
auth_unpin_lem_example =
    auth_unpin_lem 0 parent freezing freezing-Good (omega arith) (λ h. ground (arith, h))

freeze_lem_example :
    Freezes
      (is_freezeable_dir parent (pinned idle))
      (λ e. e.flags.frozen_dir)
      (λ e. e.flags.freezing_dir)
      idle
      (freeze_dir 1 parent [] idle)
    × Freezes
        (is_freezeable parent (pinned idle))
        (λ e. e.flags.frozen_tree)
        (λ e. e.flags.freezing_tree)
        idle
        (freeze_tree 1 parent [] idle)
freeze_lem_example =
    freeze_lem 0 parent [] idle idle-Good (unfold is_frozen_tree in refl)
      (unfold is_freezing_tree in refl)

unfreeze_lem_example :
    (iced.flags.frozen_dir ≡ true → Thaws iced (unfreeze_dir 2 parent iced))
    × (iced.flags.frozen_tree ≡ true → Thaws iced (unfreeze_tree 2 parent iced))
unfreeze_lem_example = unfreeze_lem 2 parent iced iced-Good

set_dir_auth_lem_example :
    (d' : Dir) × (set_dir_auth parent (pos 1, negsuc 1) iced ≡ some d')
    × Good d'
    × (d'.pinning ≡ record iced.pinning { dir_auth = (pos 1, negsuc 1) })
    × (d'.flags ≡ iced.flags)
set_dir_auth_lem_example = set_dir_auth_lem parent (pos 1, negsuc 1) iced iced-Good refl

adjust_nested_auth_pins_lem_example :
    (d' : Dir) × (adjust_nested_auth_pins 1 parent (negsuc 0) (pos 0) iced ≡ some d')
    × Good d'
    × (((iced.pinning.auth_pins ≡ 1) × Settles parent (nested (negsuc 0) (pos 0) iced) d')
        ⊎ ((iced.pinning.auth_pins ≢ 1)
            × (d'.flags ≡ iced.flags)
            × (d'.pinning ≡ (nested (negsuc 0) (pos 0) iced).pinning)))
adjust_nested_auth_pins_lem_example =
    adjust_nested_auth_pins_lem (negsuc 0) (pos 0) iced iced-Good 0 parent refl (omega arith)
      (omega arith)
