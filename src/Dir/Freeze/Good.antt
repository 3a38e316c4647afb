-- ===== src/Dir/Freeze/Good.antt =====
-- mds/CDir.cc: what holds of the auth pins and the freezing of a fragment between two operations.
use mds.Prelude.{
  ℕ, ◌+◌, ◌-◌, ◌≤◌, ◌<◌, ◌≡◌, refl, Bool, true, false, not, ◌&&◌, ◌||◌, some, [], ◌∷◌, arith, leb,
  ◌==◌, if◌then◌else◌, count_if, keep, Bool-cases, inl, inr,
}
use mds.Prelude.Int.{ℤ, neg_part}
use mds.CacheObject.{CacheObject, authpin, waiter, pins, meets}
use mds.CacheObject.Pins.{got, dropped, get-eq, got-Counted, dropped-Counted, pins-set_pins}
use mds.CacheObject.Waiters.{Waits, keep-keep-not, take_waiting_lem}
use mds.CacheObject.OtherPins.{take_waiting-pins}
use mds.Dir.Types.{
  Dir, Call, inode_auth_pin, inode_auth_unpin, inode_adjust_nested_auth_pins, frozen, call,
  queue_waiters, finish_contexts,
}
use mds.Dir.Freeze.{is_subtree_root, get_cum_auth_pins, is_frozen_here, auth_pin, finish_waiting}

abbrev pub nests : (up : Bool) → Call → Bool
nests true (inode_adjust_nested_auth_pins true) = true
nests false (inode_adjust_nested_auth_pins false) = true
nests _ _ = false

abbrev pub pins_inode : (up : Bool) → Call → Bool
pins_inode true inode_auth_pin = true
pins_inode false inode_auth_unpin = true
pins_inode _ _ = false

abbrev pub bit : Bool → ℕ
bit b = if b then 1 else 0

-- The pins that this state has follow from the counts, at most one of the four states of a freeze
-- holds, and the inode was told of each change: it counts this fragment while it has pins, and is
-- pinned while this fragment is frozen, in both cases unless it is the root of a subtree.
pub record Good (d : Dir) : Type 0 where
  pub waits : Waits d.base
  pub authpin_held : pins authpin d.base.ref_map ≡ (if d.pinning.auth_pins == 0 then 0 else 1)
  pub frozen_held : pins frozen d.base.ref_map ≡ bit (is_frozen_here d)
  pub one_state :
      bit d.flags.freezing_tree
        + bit d.flags.freezing_dir
        + bit d.flags.frozen_tree
        + bit d.flags.frozen_dir
      ≤ 1
  pub own_pin : (d.flags.freezing_tree || d.flags.freezing_dir) ≡ true → 1 ≤ d.pinning.auth_pins
  pub told :
      count_if (nests true) d.calls
      ≡ count_if (nests false) d.calls
        + (if is_subtree_root d || get_cum_auth_pins d == 0 then 0 else 1)
  pub kept :
      count_if (pins_inode true) d.calls
      ≡ count_if (pins_inode false) d.calls
        + bit (d.flags.auth && not (is_subtree_root d) && is_frozen_here d)

module _ {W : Type 0} where
  pub got-Waits : (by : ℕ) (o : CacheObject W) → (by == waiter) ≡ false → Waits o → Waits (got by o)
  got-Waits by o other v = record {
    counted = got-Counted by o v.counted;
    pinned = ground (arith, v.pinned, pins-set_pins waiter by (pins by o.ref_map + 1) o.ref_map);
  }

  pub dropped-Waits :
      (by : ℕ) (o : CacheObject W)
      → (by == waiter) ≡ false
      → 0 < pins by o.ref_map
      → Waits o
      → Waits (dropped by o)
  dropped-Waits by o other held v = record {
    counted = dropped-Counted by o v.counted held;
    pinned = ground (arith, v.pinned, pins-set_pins waiter by (pins by o.ref_map - 1) o.ref_map);
  }

-- The fragment after `auth_pin`.
abbrev pub pinned : Dir → Dir
pinned d =
    let first = not (is_subtree_root d) && (get_cum_auth_pins d + 1) == 1 in
    record d {
      base = if d.pinning.auth_pins == 0 then got authpin d.base else d.base;
      pinning = record d.pinning { auth_pins = d.pinning.auth_pins + 1 };
      calls = if first then inode_adjust_nested_auth_pins true ∷ d.calls else d.calls;
    }

pub auth_pin-eq : (d : Dir) → Good d → auth_pin d ≡ some (pinned d)
unfolding auth_pin
auth_pin-eq d g = ground (arith, get-eq authpin d.base g.waits.counted)

pub pinned-Good : (d : Dir) → Good d → Good (pinned d)
pinned-Good d g = elim (Bool-cases (d.pinning.auth_pins == 0)) [
  | inl e ↦ record {
    waits = rw e (got-Waits authpin d.base refl g.waits);
    authpin_held = ground (
      arith,
      g.authpin_held,
      pins-set_pins authpin authpin (pins authpin d.base.ref_map + 1) d.base.ref_map,
    );
    frozen_held = ground (
      arith,
      g.frozen_held,
      pins-set_pins frozen authpin (pins authpin d.base.ref_map + 1) d.base.ref_map,
    );
    one_state = g.one_state;
    own_pin = λ h. omega arith;
    told = ground (arith, g.told);
    kept = ground (arith, g.kept);
  }
  | inr e ↦ record {
    waits = rw e g.waits;
    authpin_held = ground (arith, g.authpin_held);
    frozen_held = ground (arith, g.frozen_held);
    one_state = g.one_state;
    own_pin = λ h. omega arith;
    told = ground (arith, g.told);
    kept = ground (arith, g.kept);
  }
]

-- The fragment after the last pin is gone.
abbrev pub unpinned_last : Dir → Dir
unpinned_last d = record d {
  base = dropped authpin d.base;
  pinning = record d.pinning { auth_pins = 0 };
  calls =
      if not (is_subtree_root d) && d.pinning.nested_auth_pins == 0
      then inode_adjust_nested_auth_pins false ∷ d.calls
      else d.calls;
}

pub unpinned_last-Good :
    (d : Dir)
    → Good d
    → d.pinning.auth_pins ≡ 1
    → (d.flags.freezing_tree || d.flags.freezing_dir) ≡ false
    → Good (unpinned_last d)
unpinned_last-Good d g one idle =
    let held : 0 < pins authpin d.base.ref_map = ground (arith, g.authpin_held, one) in
    record {
      waits = dropped-Waits authpin d.base refl held g.waits;
      authpin_held = ground (
        arith,
        one,
        g.authpin_held,
        pins-set_pins authpin authpin (pins authpin d.base.ref_map - 1) d.base.ref_map,
      );
      frozen_held = ground (
        arith,
        g.frozen_held,
        pins-set_pins frozen authpin (pins authpin d.base.ref_map - 1) d.base.ref_map,
      );
      one_state = g.one_state;
      own_pin = λ h. ground (arith, h, idle);
      told = ground (arith, one, g.told);
      kept = ground (arith, g.kept);
    }

-- `finish_waiting` takes the waiters and changes nothing else of what `Good` is about.
pub finish_waiting_lem :
    (mask : ℕ) (result : ℤ) (d : Dir)
    → Good d
    → (d' : Dir) × (finish_waiting mask result d ≡ some d')
      × Good d'
      × (d'.flags ≡ d.flags)
      × (d'.pinning ≡ d.pinning)
      × (keep (meets mask) d'.base.waiting ≡ [])
unfolding finish_waiting
finish_waiting_lem mask result d g =
    let (ws, o, done, w, _, left, _) = take_waiting_lem mask d.base g.waits in
    (
      call (if leb (neg_part result) 0 then queue_waiters ws else finish_contexts ws result)
          (record d { base = o }),
      rw done refl,
      record {
        waits = w;
        authpin_held =
            ground (arith, g.authpin_held, take_waiting-pins authpin refl mask ws d.base o done);
        frozen_held =
            ground (arith, g.frozen_held, take_waiting-pins frozen refl mask ws d.base o done);
        one_state = g.one_state;
        own_pin = g.own_pin;
        told = ground (arith, g.told);
        kept = ground (arith, g.kept);
      },
      refl,
      refl,
      rw left (keep-keep-not (meets mask) d.base.waiting),
    )

-- An auth pin always succeeds, keeps the pins, the states and what the inode was told in step, and
-- changes no state and no count but that of the auth pins, which goes up by one.
pub auth_pin_lem :
    (d : Dir)
    → Good d
    → (d' : Dir) × (auth_pin d ≡ some d')
      × Good d'
      × (d'.flags ≡ d.flags)
      × (d'.pinning ≡ record d.pinning { auth_pins = d.pinning.auth_pins + 1 })
auth_pin_lem d g = (pinned d, auth_pin-eq d g, pinned-Good d g, refl, refl)
