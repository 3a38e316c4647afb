-- ===== src/Dir/Freeze/Nesting.antt =====
-- mds/CDir.cc, `adjust_nested_auth_pins`: pins below the fragment.
use mds.Prelude.{
  ℕ, suc, ◌+◌, ◌-◌, ◌≤◌, ◌≡◌, ◌≢◌, ◌⊎◌, refl, subst, sym, ap, ◌∙◌, Bool, true, false, ◌||◌, some,
  arith, leb, ◌==◌, if◌then◌else◌, count_if, Bool-cases, inl, inr,
}
use mds.Prelude.Int.{ℤ, pos, negsuc, pos_part, neg_part}
use mds.Dir.Types.{Dir, inode_adjust_nested_auth_pins, call}
use mds.Dir.Freeze.{
  Parent, is_subtree_root, get_cum_auth_pins, eq_ℤ, maybe_finish_freeze, auth_unpin,
  adjust_nested_auth_pins,
}
use mds.Dir.Freeze.Good.{Good, nests, pins_inode}
use mds.Dir.Freeze.Completion.{Settles, maybe_finish_freeze_lem, maybe_quiet}

-- The fragment with the counts of the pins below it changed, and then with the inode told.
abbrev pub nested : (inc dirinc : ℤ) → Dir → Dir
nested inc dirinc d = record d {
  pinning = record d.pinning {
    nested_auth_pins = d.pinning.nested_auth_pins + pos_part inc - neg_part inc;
    dir_auth_pins = d.pinning.dir_auth_pins + pos_part dirinc - neg_part dirinc;
  };
}

abbrev pub told_nested : (newcum : ℕ) (inc : ℤ) → Dir → Dir
told_nested newcum inc d =
    if is_subtree_root d
    then d
    else if newcum == 0
    then call (inode_adjust_nested_auth_pins false) d
    else if eq_ℤ (pos newcum) inc
    then call (inode_adjust_nested_auth_pins true) d
    else d

adjust-step :
    (fuel : ℕ) (p : Parent) (inc dirinc : ℤ) (d d' : Dir)
    → eq_ℤ inc (pos 0) ≡ false
    → neg_part inc ≤ d.pinning.nested_auth_pins + pos_part inc
    → neg_part dirinc ≤ d.pinning.dir_auth_pins + pos_part dirinc
    → maybe_finish_freeze p (auth_unpin fuel p) (nested inc dirinc d) ≡ some d'
    → adjust_nested_auth_pins fuel p inc dirinc d
      ≡ some (told_nested (get_cum_auth_pins (nested inc dirinc d)) inc d')
unfolding adjust_nested_auth_pins
adjust-step fuel p inc dirinc d d' some_inc room dir_room done =
    let a : leb (neg_part inc) (d.pinning.nested_auth_pins + pos_part inc) ≡ true =
      ground (arith, room) in
    let b : leb (neg_part dirinc) (d.pinning.dir_auth_pins + pos_part dirinc) ≡ true =
      ground (arith, dir_room) in
    rw (some_inc, a, b, done) refl

-- Telling an inode that the fragment has its first pins, or has lost its last.
tells :
    (inc dirinc : ℤ) (d : Dir)
    → Good d
    → eq_ℤ inc (pos 0) ≡ false
    → neg_part inc ≤ d.pinning.nested_auth_pins + pos_part inc
    → let e = nested inc dirinc d in
      let t = told_nested (get_cum_auth_pins e) inc e in
      count_if (nests true) t.calls
      ≡ count_if (nests false) t.calls
        + (if is_subtree_root d || get_cum_auth_pins e == 0 then 0 else 1)
tells (pos n) dirinc d g some_inc room = ground (arith, g.told, some_inc)
tells (negsuc n) dirinc d g some_inc room = ground (arith, g.told, room)

tells_nothing :
    (inc dirinc : ℤ) (d d' : Dir)
    → d.pinning.auth_pins ≡ 1
    → neg_part inc ≤ d.pinning.nested_auth_pins + pos_part inc
    → told_nested (get_cum_auth_pins (nested inc dirinc d)) inc d' ≡ d'
tells_nothing (pos n) dirinc d d' one room = ground (arith, one)
tells_nothing (negsuc n) dirinc d d' one room = ground (arith, one, room)

module _ (inc dirinc : ℤ) (d : Dir) (g : Good d) where
  nested-Good : d.pinning.auth_pins ≡ 1 → Good (nested inc dirinc d)
  nested-Good one = record {
    waits = g.waits;
    authpin_held = g.authpin_held;
    frozen_held = g.frozen_held;
    one_state = g.one_state;
    own_pin = g.own_pin;
    told = ground (arith, one, g.told);
    kept = g.kept;
  }

  abbrev retold : Dir
  retold = told_nested (get_cum_auth_pins (nested inc dirinc d)) inc (nested inc dirinc d)

  retold-calls : retold ≡ record (nested inc dirinc d) { calls = retold.calls }
  retold-calls = ground arith

  retold-kept : (b : Bool) → count_if (pins_inode b) retold.calls ≡ count_if (pins_inode b) d.calls
  retold-kept true = ground arith
  retold-kept false = ground arith

  retold-Good :
      eq_ℤ inc (pos 0) ≡ false
      → neg_part inc ≤ d.pinning.nested_auth_pins + pos_part inc
      → Good retold
  retold-Good some_inc room = subst Good (sym retold-calls) (record {
    waits = g.waits;
    authpin_held = g.authpin_held;
    frozen_held = g.frozen_held;
    one_state = g.one_state;
    own_pin = g.own_pin;
    told = tells inc dirinc d g some_inc room;
    kept = omega (arith, g.kept, retold-kept true, retold-kept false);
  })

  -- A change of the pins below, with fuel 1 or more, that is not zero and leaves no count negative:
  -- it succeeds and keeps the pins, the states and what the inode was told in step. If the fragment
  -- has one auth pin itself, a freeze that is due then is complete or, for a tree whose inode is
  -- frozen, waits for the inode with one pin more; else the states stay and only the two counts
  -- change.
  pub adjust_nested_auth_pins_lem :
      (fuel : ℕ) (p : Parent)
      → eq_ℤ inc (pos 0) ≡ false
      → neg_part inc ≤ d.pinning.nested_auth_pins + pos_part inc
      → neg_part dirinc ≤ d.pinning.dir_auth_pins + pos_part dirinc
      → (d' : Dir) × (adjust_nested_auth_pins (suc fuel) p inc dirinc d ≡ some d')
        × Good d'
        × (((d.pinning.auth_pins ≡ 1) × Settles p (nested inc dirinc d) d')
            ⊎ ((d.pinning.auth_pins ≢ 1)
                × (d'.flags ≡ d.flags)
                × (d'.pinning ≡ (nested inc dirinc d).pinning)))
  adjust_nested_auth_pins_lem fuel p some_inc room dir_room =
      elim (Bool-cases (d.pinning.auth_pins == 1)) [
        | inl e ↦
            let one : d.pinning.auth_pins ≡ 1 = ground (arith, e) in
            let (d', done, g', settled) =
              maybe_finish_freeze_lem fuel p (nested inc dirinc d) (nested-Good one) one in
            (
              d',
              adjust-step (suc fuel) p inc dirinc d d' some_inc room dir_room done
                  ∙ ap some (tells_nothing inc dirinc d d' one room),
              g',
              inl (one, settled),
            )
        | inr e ↦
            let several : d.pinning.auth_pins ≢ 1 = ground (arith, e) in
            let quiet = maybe_quiet p (auth_unpin (suc fuel) p) (nested inc dirinc d) several in
            (
              retold,
              adjust-step (suc fuel) p inc dirinc d (nested inc dirinc d) some_inc room dir_room
                  quiet,
              retold-Good some_inc room,
              inr (several, ground (arith, retold-calls), ground (arith, retold-calls)),
            )
      ]
